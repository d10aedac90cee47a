-- ===== src/Operations/Feedback/Tail.antt =====
-- What _decode_tail keeps of a stream.
use spoolctl.Base.{
  ℕ, suc, zero, ◌-◌, ◌≤◌, ◌<◌, ◌≡◌, refl, ap, true, false, List, [], ◌∷◌, ◌++◌, length, ltb, ◌==◌,
  arith, Bool-cases, inl, inr, All,
}
use spoolctl.Operations.Feedback.{is_continuation, drop, drop_orphans, decode_tail}

length-drop : (k : ℕ) (bs : List ℕ) → length (drop k bs) ≡ length bs - k
length-drop zero bs = omega arith
length-drop (suc k) [] = omega arith
length-drop (suc k) (b ∷ bs) = omega (arith, length-drop k bs)

-- `rest` is `bs` without at most n bytes in front, all of them continuation bytes.
pub record Orphaned (n : ℕ) (bs rest : List ℕ) : Type 0 where
  pub orphans : List ℕ
  pub split : orphans ++ rest ≡ bs
  pub continue : All (λ b. is_continuation b ≡ true) orphans
  pub few : length orphans ≤ n

no_orphans : (n : ℕ) (bs : List ℕ) → Orphaned n bs bs
no_orphans n bs = record { orphans = []; split = refl; continue = tt; few = omega arith }

drop_orphans-Orphaned : (n : ℕ) (bs : List ℕ) → Orphaned n bs (drop_orphans n bs)
unfolding drop_orphans
drop_orphans-Orphaned zero bs = no_orphans 0 bs
drop_orphans-Orphaned (suc n) [] = no_orphans (suc n) []
drop_orphans-Orphaned (suc n) (b ∷ bs) = elim (Bool-cases (is_continuation b)) [
  | inr e ↦ rw e (no_orphans (suc n) (b ∷ bs))
  | inl e ↦
      let r = drop_orphans-Orphaned n bs in
      rw e (record {
        orphans = b ∷ r.orphans;
        split = ap (λ cs. b ∷ cs) r.split;
        continue = (e, r.continue);
        few = omega (arith, r.few);
      })
]

-- For a tail of at least one byte: without truncation, that is for a stream of at most so many
-- bytes, the whole stream is kept. With it, of exactly the last `tail_bytes` bytes at
-- most three are left out, and these are continuation bytes in front.
pub decode_tail-Orphaned :
    (blob : List ℕ) (tail_bytes : ℕ)
    → 0 < tail_bytes
    → ((decode_tail blob tail_bytes).1 ≡ false
        → (length blob ≤ tail_bytes) × ((decode_tail blob tail_bytes).0 ≡ blob))
      × ((decode_tail blob tail_bytes).1 ≡ true
          → (length (drop (length blob - tail_bytes) blob) ≡ tail_bytes)
            × Orphaned 3 (drop (length blob - tail_bytes) blob) (decode_tail blob tail_bytes).0)
unfolding decode_tail
decode_tail-Orphaned blob tail_bytes some_bytes =
    let nonzero : (tail_bytes == 0) ≡ false = ground (arith, some_bytes) in
    (
      (λ f.
          let whole : ltb tail_bytes (length blob) ≡ false = f in
          let from_start : length blob - tail_bytes ≡ 0 = ground (arith, f) in
          (ground (arith, f), rw (whole, nonzero, from_start) refl)),
      (λ t.
          let cut : ltb tail_bytes (length blob) ≡ true = t in
          (
            ground (arith, t, length-drop (length blob - tail_bytes) blob),
            rw (cut, nonzero) (drop_orphans-Orphaned 3 (drop (length blob - tail_bytes) blob)),
          )),
    )
