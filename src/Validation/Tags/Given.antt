-- ===== src/Validation/Tags/Given.antt =====
-- Tags that are given as KEY=VALUE come out as they are.
use spoolctl.Base.{
  suc, ◌≤◌, ◌≡◌, ◌≢◌, refl, sym, ◌∙◌, ap, inl, inr, true, false, List, [], ◌∷◌, ◌++◌, map, All,
  arith, leb, ◌==◌, length, Bool-cases,
}
use spoolctl.Models.Suggest.{Word, word_eq}
use spoolctl.Models.Suggest.Nearness.{word_eq_iff}
use spoolctl.Validation.{value, equals_sign, contains, split_once}
use spoolctl.Validation.Names.{is_tag_char, matches_tag_key, parse_tag_key}
use spoolctl.Validation.Names.Accepted.{all-All}
use spoolctl.Validation.Tags.{has_key, add_tag, add_tags, parse_add_tags}

-- KEY=VALUE
abbrev pub spelled : Word × Word → Word
spelled (key, v) = key ++ equals_sign ∷ v

-- What a tag may be: a key of 1 to 128 characters of [A-Za-z0-9_.:-], and a value of at most 1024.
pub record TagOk (t : Word × Word) : Type 0 where
  pub some_key : t.0 ≢ []
  pub key_chars : All (λ c. is_tag_char c ≡ true) t.0
  pub key_fits : length t.0 ≤ 128
  pub value_fits : length t.1 ≤ 1024

-- No key stands twice.
abbrev pub Distinct : List (Word × Word) → Type 0
Distinct [] = Unit {0}
Distinct (t ∷ ts) = All (λ u. t.0 ≢ u.0) ts × Distinct ts

contains-spelled : (key v : Word) → contains equals_sign (key ++ equals_sign ∷ v) ≡ true
unfolding contains
contains-spelled [] v = refl
contains-spelled (c ∷ key) v = ground (arith, contains-spelled key v)

split_once-spelled :
    (key v : Word)
    → All (λ c. is_tag_char c ≡ true) key
    → split_once equals_sign (key ++ equals_sign ∷ v) ≡ (key, v)
unfolding split_once
split_once-spelled [] v h = refl
split_once-spelled (c ∷ key) v h =
    let other : (c == equals_sign) ≡ false = ground (arith, h.0) in
    rw (other, split_once-spelled key v h.1) refl

parse_tag_key-ok : (t : Word × Word) → TagOk t → parse_tag_key t.0 ≡ value t.0
unfolding parse_tag_key matches_tag_key
parse_tag_key-ok ([], v) ok = absurd (ok.some_key refl)
parse_tag_key-ok (c ∷ w, v) ok =
    let chars : matches_tag_key (c ∷ w) ≡ true = (all-All is_tag_char (c ∷ w)).1 ok.key_chars in
    let fits : leb (suc (length w)) 128 ≡ true = ground (arith, ok.key_fits) in
    rw (chars, fits) refl

word_ne : (a b : Word) → a ≢ b → word_eq a b ≡ false
word_ne a b ne = elim (Bool-cases (word_eq a b)) [
  | inl t ↦ absurd (ne ((word_eq_iff a b).0 t))
  | inr t ↦ t
]

append_nil : (ts : List (Word × Word)) → ts ++ [] ≡ ts
append_nil [] = refl
append_nil (t ∷ ts) = ap (λ us. t ∷ us) (append_nil ts)

append_one : (ts us : List (Word × Word)) (t : Word × Word) → (ts ++ t ∷ []) ++ us ≡ ts ++ t ∷ us
append_one [] us t = refl
append_one (u ∷ ts) us t = ap (λ vs. u ∷ vs) (append_one ts us t)

has_key-append :
    (key : Word) (tags : List (Word × Word)) (t : Word × Word)
    → key ≢ t.0
    → has_key key tags ≡ false
    → has_key key (tags ++ t ∷ []) ≡ false
unfolding has_key
has_key-append key [] t ne e = ground (arith, word_ne t.0 key (λ s. ne (sym s)))
has_key-append key (u ∷ tags) t ne e = ground (arith, e, has_key-append key tags t ne)

add_tag-ok :
    (t : Word × Word) (tags : List (Word × Word))
    → TagOk t
    → has_key t.0 tags ≡ false
    → add_tag (spelled t) tags ≡ value (tags ++ t ∷ [])
unfolding add_tag
add_tag-ok (key, v) tags ok fresh =
    let fits : leb (length v) 1024 ≡ true = ground (arith, ok.value_fits) in
    rw
      (
        contains-spelled key v,
        split_once-spelled key v ok.key_chars,
        parse_tag_key-ok (key, v) ok,
        fresh,
        fits,
      )
      refl

still_fresh :
    (t : Word × Word) (tags ts : List (Word × Word))
    → All (λ u. t.0 ≢ u.0) ts
    → All (λ u. has_key u.0 tags ≡ false) ts
    → All (λ u. has_key u.0 (tags ++ t ∷ []) ≡ false) ts
still_fresh t tags [] ne h = tt
still_fresh t tags (u ∷ ts) ne h =
    (has_key-append u.0 tags t (λ s. ne.0 (sym s)) h.0, still_fresh t tags ts ne.1 h.1)

add_tags-ok :
    (ts tags : List (Word × Word))
    → All TagOk ts
    → Distinct ts
    → All (λ u. has_key u.0 tags ≡ false) ts
    → add_tags (map spelled ts) tags ≡ value (tags ++ ts)
unfolding add_tags
add_tags-ok [] tags ok apart fresh = ap value (sym (append_nil tags))
add_tags-ok (t ∷ ts) tags ok apart fresh = rw (add_tag-ok t tags ok.0 fresh.0) (
    add_tags-ok ts (tags ++ t ∷ []) ok.1 apart.1 (still_fresh t tags ts apart.0 fresh.1)
    ∙ ap value (append_one tags ts t))

none_yet : (ts : List (Word × Word)) → All (λ u. has_key u.0 [] ≡ false) ts
unfolding has_key
none_yet [] = tt
none_yet (t ∷ ts) = (refl, none_yet ts)

length-map : (ts : List (Word × Word)) → length (map spelled ts) ≡ length ts
length-map [] = refl
length-map (t ∷ ts) = ap suc (length-map ts)

-- At most sixteen tags, with keys of 1 to 128 characters of [A-Za-z0-9_.:-] no two of which are equal
-- and with values of at most 1024 characters, are accepted when they are given as KEY=VALUE, and come
-- out as they were, in their order; a value may hold '=' or be empty.
pub parse_add_tags-spelled :
    (ts : List (Word × Word))
    → All TagOk ts
    → Distinct ts
    → length ts ≤ 16
    → parse_add_tags (map spelled ts) ≡ value ts
unfolding parse_add_tags
parse_add_tags-spelled ts ok apart few =
    let fits : leb (length (map spelled ts)) 16 ≡ true = ground (arith, length-map ts, few) in
    rw fits (add_tags-ok ts [] ok apart (none_yet ts))
