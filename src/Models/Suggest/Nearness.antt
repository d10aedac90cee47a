-- ===== src/Models/Suggest/Nearness.antt =====
-- What "at most one edit apart" means, and that _levenshtein_leq1 decides it.
use spoolctl.Base.{
  ℕ, suc, ◌≤◌, ◌≡◌, ◌⊎◌, ◌↔◌, inl, inr, refl, sym, ap, true, [], ◌∷◌, ◌++◌, ltb, ◌==◌, length,
  length-append, arith, Bool-cases, ==_iff, ==_refl,
}
use spoolctl.Models.Suggest.{Word, word_eq, mismatches, insertion_loop, levenshtein_leq1}

-- One letter replaced, put in, or left out.
pub data OneEdit (a b : Word) : Type 0 where
  replaced : (p s : Word) (x y : ℕ) → a ≡ p ++ (x ∷ s) → b ≡ p ++ (y ∷ s) → OneEdit a b
  inserted : (p s : Word) (y : ℕ) → a ≡ p ++ s → b ≡ p ++ (y ∷ s) → OneEdit a b
  removed : (p s : Word) (x : ℕ) → a ≡ p ++ (x ∷ s) → b ≡ p ++ s → OneEdit a b

pub word_eq_iff : (a b : Word) → (word_eq a b ≡ true) ↔ (a ≡ b)
unfolding word_eq
word_eq_iff [] [] = ((λ e. refl), (λ e. refl))
word_eq_iff [] (y ∷ b) = ((λ e. cc e), (λ e. cc e))
word_eq_iff (x ∷ a) [] = ((λ e. cc e), (λ e. cc e))
word_eq_iff (x ∷ a) (y ∷ b) = let (there, back) = word_eq_iff a b in ground (arith, there, back)

mismatches_refl : (a : Word) → mismatches a a ≡ 0
unfolding mismatches
mismatches_refl [] = refl
mismatches_refl (x ∷ a) = ground (arith, mismatches_refl a)

mismatches-zero : (a b : Word) → length a ≡ length b → mismatches a b ≡ 0 → a ≡ b
unfolding mismatches
mismatches-zero [] [] l e = refl
mismatches-zero [] (y ∷ b) l e = absurd (omega (arith, l))
mismatches-zero (x ∷ a) [] l e = absurd (omega (arith, l))
mismatches-zero (x ∷ a) (y ∷ b) l e = ground (arith, mismatches-zero a b)

-- The same letter in front keeps an edit.
OneEdit-cons : (x : ℕ) (a b : Word) → OneEdit a b → OneEdit (x ∷ a) (x ∷ b)
OneEdit-cons x a b (replaced p s u w e f) =
    replaced (x ∷ p) s u w (ap (λ t. x ∷ t) e) (ap (λ t. x ∷ t) f)
OneEdit-cons x a b (inserted p s w e f) =
    inserted (x ∷ p) s w (ap (λ t. x ∷ t) e) (ap (λ t. x ∷ t) f)
OneEdit-cons x a b (removed p s u e f) = removed (x ∷ p) s u (ap (λ t. x ∷ t) e) (ap (λ t. x ∷ t) f)

mismatches-one : (a b : Word) → length a ≡ length b → mismatches a b ≤ 1 → (a ≡ b) ⊎ OneEdit a b
unfolding mismatches
mismatches-one [] [] l e = inl refl
mismatches-one [] (y ∷ b) l e = absurd (omega (arith, l))
mismatches-one (x ∷ a) [] l e = absurd (omega (arith, l))
mismatches-one (x ∷ a) (y ∷ b) l e = elim (Bool-cases (x == y)) [
  | inl t ↦
      let letter : x ≡ y = (==_iff x y).0 t in
      elim (mismatches-one a b (omega (arith, l)) (ground (arith, e, t))) [
        | inl same ↦ inl (cc (letter, same))
        | inr edit ↦ inr (rw (← letter) (OneEdit-cons x a b edit))
      ]
  | inr f ↦ inr (
      replaced [] a x y refl
        (ap (λ t. y ∷ t) (sym (mismatches-zero a b (omega (arith, l)) (ground (arith, e, f))))))
]

mismatches-replaced : (p s : Word) (x y : ℕ) → mismatches (p ++ (x ∷ s)) (p ++ (y ∷ s)) ≤ 1
unfolding mismatches
mismatches-replaced [] s x y = ground (arith, mismatches_refl s)
mismatches-replaced (z ∷ p) s x y = ground (arith, ==_refl z, mismatches-replaced p s x y)

-- With its one edit spent, the loop asks for equal rests.
loop_spent : (a b : Word) → length a ≡ length b → insertion_loop a b 1 ≡ true → a ≡ b
unfolding insertion_loop
loop_spent [] [] l e = refl
loop_spent [] (y ∷ b) l e = absurd (omega (arith, l))
loop_spent (x ∷ a) [] l e = absurd (omega (arith, l))
loop_spent (x ∷ a) (y ∷ b) l e = ground (arith, loop_spent a b)

loop_same : (a : Word) (n : ℕ) → insertion_loop a a n ≡ true
unfolding insertion_loop
loop_same [] n = refl
loop_same (x ∷ a) n = ground (arith, ==_refl x, loop_same a n)

loop-inserted : (a b : Word) → length b ≡ suc (length a) → insertion_loop a b 0 ≡ true → OneEdit a b
unfolding insertion_loop
loop-inserted [] [] l e = absurd (omega (arith, l))
loop-inserted [] (y ∷ []) l e = inserted [] [] y refl refl
loop-inserted [] (y ∷ z ∷ b) l e = absurd (omega (arith, l))
loop-inserted (x ∷ a) [] l e = absurd (omega (arith, l))
loop-inserted (x ∷ a) (y ∷ b) l e = elim (Bool-cases (x == y)) [
  | inl t ↦
      let letter : x ≡ y = (==_iff x y).0 t in
      rw (← letter)
        (OneEdit-cons x a b (loop-inserted a b (omega (arith, l)) (ground (arith, e, t))))
  | inr f ↦
      inserted [] (x ∷ a) y refl
        (ap (λ t. y ∷ t) (sym (loop_spent (x ∷ a) b (omega (arith, l)) (ground (arith, e, f)))))
]

inserted-loop : (p s : Word) (y : ℕ) → insertion_loop (p ++ s) (p ++ (y ∷ s)) 0 ≡ true
unfolding insertion_loop
inserted-loop [] [] y = refl
inserted-loop [] (x ∷ s) y = ground (arith, inserted-loop [] s x, loop_same (x ∷ s) 1)
inserted-loop (z ∷ p) s y = ground (arith, ==_refl z, inserted-loop p s y)

OneEdit-sym : (a b : Word) → OneEdit a b → OneEdit b a
OneEdit-sym a b (replaced p s x y e f) = replaced p s y x f e
OneEdit-sym a b (inserted p s y e f) = removed p s y f e
OneEdit-sym a b (removed p s x e f) = inserted p s x f e

near : (a b : Word) → levenshtein_leq1 a b ≡ true → (a ≡ b) ⊎ OneEdit a b
unfolding levenshtein_leq1
near a b e = elim (Bool-cases (word_eq a b)) [
  | inl t ↦ inl ((word_eq_iff a b).0 t)
  | inr f ↦ elim (Bool-cases (length a == length b)) [
    | inl same ↦ mismatches-one a b (ground (arith, same)) (ground (arith, e, f, same))
    | inr differ ↦ elim (Bool-cases (ltb (length b) (length a))) [
      | inl shorter ↦ inr (
          OneEdit-sym b a (
            loop-inserted b a (ground (arith, e, f, differ, shorter))
              (ground (arith, e, f, differ, shorter))))
      | inr longer ↦ inr (
          loop-inserted a b (ground (arith, e, f, differ, longer))
            (ground (arith, e, f, differ, longer)))
    ]
  ]
]

edit-near : (a b : Word) → OneEdit a b → levenshtein_leq1 a b ≡ true
unfolding levenshtein_leq1
edit-near a b (replaced p s x y e f) =
    rw (e, f)
      (ground
        (arith, length-append p (x ∷ s), length-append p (y ∷ s), mismatches-replaced p s x y))
edit-near a b (inserted p s y e f) =
    rw (e, f) (ground (arith, length-append p s, length-append p (y ∷ s), inserted-loop p s y))
edit-near a b (removed p s x e f) =
    rw (e, f) (ground (arith, length-append p s, length-append p (x ∷ s), inserted-loop p s x))

-- _levenshtein_leq1 accepts two words exactly when they are equal or one letter apart: one replaced,
-- one put in, or one left out.
pub levenshtein_leq1_iff : (a b : Word) → (levenshtein_leq1 a b ≡ true) ↔ ((a ≡ b) ⊎ OneEdit a b)
unfolding levenshtein_leq1
levenshtein_leq1_iff a b = (near a b, back)
  where
    back : (a ≡ b) ⊎ OneEdit a b → levenshtein_leq1 a b ≡ true
    back (inl same) = ground (arith, (word_eq_iff a b).1 same)
    back (inr edit) = edit-near a b edit
