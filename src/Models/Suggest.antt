-- ===== src/Models/Suggest.antt =====
-- models._levenshtein_leq1 and _suggest: the name that a mistyped word may have meant. A word is the
-- list of its code points.
pub mod Nearness
use Prim.Native.Char.{code}
use spoolctl.Base.{
  ℕ, suc, ◌+◌, Bool, true, false, not, ◌&&◌, List, [], ◌∷◌, Option, none, some, ltb, leb, ◌==◌,
  length, if◌then◌else◌, String,
}
use spoolctl.Sql.{order_by}

abbrev pub Word : Type 0
Word = List ℕ

-- The code points of a literal.
abbrev pub codes : String → Word
codes String.[] = []
codes (String.◌∷◌ c s) = code c ∷ codes s

unfoldable pub word_eq : Word → Word → Bool
word_eq [] [] = true
word_eq [] (y ∷ b) = false
word_eq (x ∷ a) [] = false
word_eq (x ∷ a) (y ∷ b) = x == y && word_eq a b

-- sum(x != y for x, y in zip(a, b))
unfoldable pub mismatches : Word → Word → ℕ
mismatches [] b = 0
mismatches (x ∷ a) [] = 0
mismatches (x ∷ a) (y ∷ b) = let rest = mismatches a b in if x == y then rest else suc rest

-- The loop over i and j, on what is left of the two words; `b` is the longer one.
unfoldable pub insertion_loop : Word → Word → ℕ → Bool
insertion_loop [] b edits = true
insertion_loop (x ∷ a) [] edits = true
insertion_loop (x ∷ a) (y ∷ b) edits = elim (x == y) [
  | true ↦ insertion_loop a b edits
  | false ↦ elim (ltb 1 (suc edits)) [ true ↦ false | false ↦ insertion_loop (x ∷ a) b (suc edits) ]
]

unfoldable pub levenshtein_leq1 : Word → Word → Bool
unfolding word_eq mismatches insertion_loop
levenshtein_leq1 a b =
    if word_eq a b
    then true
    else if ltb (suc (length a)) (length b)
    then false
    else if ltb (suc (length b)) (length a)
    then false
    else if length a == length b
    then leb (mismatches a b) 1
    else if ltb (length b) (length a)
    then insertion_loop b a 0
    else insertion_loop a b 0

-- `a < b` on texts.
unfoldable pub word_lt : Word → Word → Bool
word_lt [] [] = false
word_lt [] (y ∷ b) = true
word_lt (x ∷ a) [] = false
word_lt (x ∷ a) (y ∷ b) =
    let rest = word_lt a b in if ltb x y then true else if x == y then rest else false

unfoldable pub first_near : Word → List Word → Option Word
unfolding levenshtein_leq1
first_near word [] = none
first_near word (c ∷ cs) =
    let rest = first_near word cs in
    if not (word_eq c word) && levenshtein_leq1 word c then some c else rest

unfoldable pub suggest : Word → List Word → Option Word
unfolding word_lt first_near
suggest word candidates = first_near word (order_by word_lt candidates)
