-- ===== src/Validation/Envs/Overrides.antt =====
-- What a variable of the environment is in the end: the last one given under its name.
use spoolctl.Base.{
  ◌≤◌, ◌≡◌, refl, sym, ◌∙◌, ap, inl, inr, Bool, true, false, not, ◌||◌, List, [], ◌∷◌, Option, none,
  some, All, arith, leb, length, if◌then◌else◌, Bool-cases,
}
use spoolctl.Models.Suggest.{Word, word_eq}
use spoolctl.Models.Suggest.Nearness.{word_eq_iff}
use spoolctl.Validation.{
  Parsed, value, refused, raised, ◌>>=◌, equals_sign, contains, split_once, passed,
}
use spoolctl.Validation.Names.{is_empty}
use spoolctl.Validation.Envs.{put, get, hint, add_variable, add_variables, parse_job_env}

-- The value under a name after the texts are read in order: the last text with that name decides.
abbrev pub last_given : Word → List Word → Option Word → Option Word
last_given key [] before = before
last_given key (raw ∷ raws) before = last_given key raws (
    if word_eq (split_once equals_sign raw).0 key
    then some (split_once equals_sign raw).1
    else before)

-- What each accepted text is.
pub record VariableOk (raw : Word) : Type 0 where
  pub spelled : contains equals_sign raw ≡ true
  pub named : is_empty (split_once equals_sign raw).0 ≡ false
  pub name_fits : length (split_once equals_sign raw).0 ≤ 128
  pub value_fits : length (split_once equals_sign raw).1 ≤ 4096
  pub no_nul_in_name : contains 0 (split_once equals_sign raw).0 ≡ false
  pub no_nul_in_value : contains 0 (split_once equals_sign raw).1 ≡ false

same_ifs :
    (b : Bool) (x y z : Option Word)
    → (if b then x else z) ≡ (if b then x else (if b then y else z))
same_ifs true x y z = refl
same_ifs false x y z = refl

swap_ifs :
    (a b : Bool) (x y z : Option Word)
    → (a ≡ true → b ≡ false)
    → (if a then x else (if b then y else z)) ≡ (if b then y else (if a then x else z))
swap_ifs true b x y z h = rw (h refl) refl
swap_ifs false b x y z h = refl

apart : (j k key : Word) → word_eq j k ≡ false → word_eq j key ≡ true → word_eq k key ≡ false
apart j k key ne e = elim (Bool-cases (word_eq k key)) [
  | inl t ↦ cc (ne, (word_eq_iff j k).1 ((word_eq_iff j key).0 e ∙ sym ((word_eq_iff k key).0 t)))
  | inr t ↦ t
]

get-put :
    (key k v : Word) (env : List (Word × Word))
    → get key (put k v env) ≡ (if word_eq k key then some v else get key env)
unfolding get put
get-put key k v [] = refl
get-put key k v ((j, u) ∷ env) = elim (Bool-cases (word_eq j k)) [
  | inl t ↦
      rw (t, ap (λ n. word_eq n key) ((word_eq_iff j k).0 t))
        (same_ifs (word_eq k key) (some v) (some u) (get key env))
  | inr t ↦
      rw (t, get-put key k v env)
        (swap_ifs (word_eq j key) (word_eq k key) (some u) (some v) (get key env) (apart j k key t))
]

add_variable_sound :
    (raw : Word) (env env' : List (Word × Word))
    → add_variable raw env ≡ value env'
    → VariableOk raw
      × (env' ≡ put (split_once equals_sign raw).0 (split_once equals_sign raw).1 env)
unfolding add_variable
add_variable_sound raw env env' e =
    let (k, v) = split_once equals_sign raw in
    let (a, e1) = passed (contains equals_sign raw) hint _ e in
    let (b, e2) = passed (not (is_empty k)) hint _ e1 in
    let (c, e3) = passed (leb (length k) 128) hint _ e2 in
    let (d, e4) = passed (leb (length v) 4096) hint _ e3 in
    let (f, e5) = passed (not (contains 0 k || contains 0 v)) hint _ e4 in
    (
      record {
        spelled = a;
        named = ground (arith, b);
        name_fits = ground (arith, c);
        value_fits = ground (arith, d);
        no_nul_in_name = ground (arith, f);
        no_nul_in_value = ground (arith, f);
      },
      cc e5,
    )

add_variables_sound :
    (raws : List Word) (env env' : List (Word × Word))
    → add_variables raws env ≡ value env'
    → All VariableOk raws × ((key : Word) → get key env' ≡ last_given key raws (get key env))
unfolding add_variables
add_variables_sound [] env env' e = (tt, (λ key. ap (get key) (cc e)))
add_variables_sound (raw ∷ raws) env env' e =
    by_round (add_variable raw env) refl e (λ more. add_variables_sound raws more env')
  where
    by_round :
        (r : Parsed (List (Word × Word)))
        → add_variable raw env ≡ r
        → (r >>= add_variables raws) ≡ value env'
        → ((more : List (Word × Word))
            → add_variables raws more ≡ value env'
            → All VariableOk raws
              × ((key : Word) → get key env' ≡ last_given key raws (get key more)))
        → All VariableOk (raw ∷ raws)
          × ((key : Word) → get key env' ≡ last_given key (raw ∷ raws) (get key env))
    by_round (refused h) f e' later = cc e'
    by_round raised f e' later = cc e'
    by_round (value more) f e' later =
        let (good, is_put) = add_variable_sound raw env more f in
        let (rest, found) = later more e' in
        (
          (good, rest),
          (λ key.
              found key
              ∙ ap (last_given key raws) (
                  ap (get key) is_put
                  ∙ get-put key (split_once equals_sign raw).0 (split_once equals_sign raw).1 env)),
        )

-- If _parse_job_env accepts the texts, then each holds '=', with a name of 1 to 128 characters in front
-- of the first one and a value of at most 4096 behind it, neither with a NUL; and in the dictionary
-- that comes out a name has the value of the last text that gives it, and no value where no text does.
pub parse_job_env-last :
    (raws : List Word) (env : List (Word × Word))
    → parse_job_env raws ≡ value env
    → All VariableOk raws × ((key : Word) → get key env ≡ last_given key raws none)
unfolding parse_job_env get
parse_job_env-last raws env e = add_variables_sound raws [] env e
