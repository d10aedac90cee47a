-- ===== src/Store/Queries/Limited.antt =====
-- The optional LIMIT of the queries, where the number asked for is not zero.
use spoolctl.Base.{
  ℕ, suc, zero, ◌+◌, ◌<◌, ◌≡◌, ap, ◌∙◌, List, take, arith, ◌==◌, false, if◌then◌else◌,
}
use spoolctl.Store.Queries.{limited}

suc_nonzero : (m : ℕ) → (suc m == 0) ≡ false
suc_nonzero m = ground arith

pub limited-take {ℓ} : {A : Type ℓ} (m : ℕ) (xs : List A) → 0 < m → limited m xs ≡ take m xs
unfolding limited
limited-take zero xs h = absurd (omega (arith, h))
limited-take (suc m) xs h = ap (λ b. if b then xs else take (suc m) xs) (suc_nonzero m)

pub limited_more {ℓ} : {A : Type ℓ} (n : ℕ) (xs : List A) → limited (n + 1) xs ≡ take (suc n) xs
limited_more n xs =
    limited-take (n + 1) xs (omega arith) ∙ ap (λ m. take m xs) {y = suc n} (omega arith)
