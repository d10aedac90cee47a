-- ===== src/Validation/Names/Accepted.antt =====
-- Which texts are accepted as names, and what they become.
use spoolctl.Base.{
  ℕ, ◌≤◌, ◌≡◌, ◌↔◌, refl, Bool, true, false, ◌&&◌, [], ◌∷◌, none, All, arith, leb, all, length,
}
use spoolctl.Models.Suggest.{Word, word_eq}
use spoolctl.Models.Suggest.Nearness.{word_eq_iff}
use spoolctl.Validation.{Python, value, lstrip, rstrip, strip, passed}
use spoolctl.Validation.Names.{is_alnum, is_queue_char, matches_queue, parse_queue}

-- strip leaves the characters of queue names alone.
abbrev pub KeepsNames : Python → Type 0
KeepsNames py = (c : ℕ) → is_queue_char c ≡ true → py.is_space c ≡ false

-- A queue name: a letter or digit of ASCII, then letters, digits, '.', '_' and '-', in all 64 at most.
pub data QueueName : Word → Type 0 where
  named :
      (c : ℕ) (w : Word)
      → is_alnum c ≡ true
      → All (λ d. is_queue_char d ≡ true) w
      → length w ≤ 63
      → QueueName (c ∷ w)

pub all-All : (p : ℕ → Bool) (w : Word) → (all p w ≡ true) ↔ All (λ d. p d ≡ true) w
all-All p [] = ((λ e. tt), (λ h. refl))
all-All p (c ∷ w) = (
  (λ e. (ground arith, (all-All p w).0 (ground arith))),
  (λ h. ground (arith, h.0, (all-All p w).1 h.1)),
)

module _ (py : Python) where
  rstrip-kept : (w : Word) → All (λ c. py.is_space c ≡ false) w → rstrip py w ≡ w
  unfolding rstrip
  rstrip-kept [] h = refl
  rstrip-kept (c ∷ []) h = rw h.0 refl
  rstrip-kept (c ∷ d ∷ w) h = rw (rstrip-kept (d ∷ w) h.1) refl

  pub strip-kept : (w : Word) → All (λ c. py.is_space c ≡ false) w → strip py w ≡ w
  unfolding strip lstrip
  strip-kept [] h = rstrip-kept [] h
  strip-kept (c ∷ w) h = rw h.0 (rstrip-kept (c ∷ w) h)

  module _ (keeps : KeepsNames py) where
    pub not_blank :
        (w : Word) → All (λ c. is_queue_char c ≡ true) w → All (λ c. py.is_space c ≡ false) w
    not_blank [] h = tt
    not_blank (c ∷ w) h = (keeps c h.0, not_blank w h.1)

    named-parse : (raw : Word) → QueueName raw → parse_queue py raw ≡ value raw
    unfolding parse_queue matches_queue
    named-parse [] name = elim name [ ]
    named-parse (c ∷ w) (named _ _ first rest short) =
        let same : word_eq (strip py (c ∷ w)) (c ∷ w) ≡ true =
          (word_eq_iff _ _).1
            (strip-kept (c ∷ w) (not_blank (c ∷ w) (ground (arith, first), rest))) in
        let fits : (leb 1 (length (c ∷ w)) && leb (length (c ∷ w)) 64 && matches_queue (c ∷ w))
            ≡ true =
          ground (arith, first, (all-All is_queue_char w).1 rest) in
        rw (same, fits) refl

    parse_queue-passed :
        (raw v : Word)
        → parse_queue py raw ≡ value v
        → ((leb 1 (length raw) && leb (length raw) 64 && matches_queue raw) ≡ true) × (v ≡ raw)
    unfolding parse_queue
    parse_queue-passed raw v e =
        let (_, rest) = passed (word_eq (strip py raw) raw) none _ e in
        let (fits, same) =
          passed (leb 1 (length raw) && leb (length raw) 64 && matches_queue raw) none (value raw)
            rest in
        (fits, cc same)

    named_if :
        (raw : Word)
        → (leb 1 (length raw) && leb (length raw) 64 && matches_queue raw) ≡ true
        → QueueName raw
    unfolding matches_queue
    named_if [] e = cc e
    named_if (c ∷ w) e =
        named c w (ground (arith, e)) ((all-All is_queue_char w).0 (ground (arith, e)))
          (ground (arith, e))

-- _parse_queue accepts exactly the queue names, and returns them as they are: an ASCII letter or
-- digit, then ASCII letters, digits, '.', '_' and '-', in all 64 characters at most. This asks of the
-- interpreter that strip takes none of these characters for blank.
pub parse_queue_iff :
    (py : Python)
    → KeepsNames py
    → (raw v : Word) → (parse_queue py raw ≡ value v) ↔ ((v ≡ raw) × QueueName raw)
parse_queue_iff py keeps raw v = (
  (λ e.
      let (fits, same) = parse_queue-passed py keeps raw v e in (same, named_if py keeps raw fits)),
  (λ h. rw h.0 (named-parse py keeps raw h.1)),
)
