-- ===== src/Config/Agreement.antt =====
-- The two verbs that read the project file agree on which files are good.
use spoolctl.Base.{
  ◌≡◌, refl, sym, subst, ◌∙◌, inl, inr, Bool, true, false, List, Option, none, some, Bool-cases,
}
use spoolctl.Models.Suggest.{Word, codes}
use spoolctl.Validation.{Parsed, value, refused, raised, ◌>>=◌, ◌>>◌, require, passed}
use spoolctl.Config.{
  Json, FileContents, absent, malformed, unreadable, not_utf8, not_an_object, object, PathLibrary,
  is_value, lookup, version_key, db_path_key, validate_db_path_value, is_version, check_db_path,
  load_object, load_config_object, unknown_keys, no_keys, db_path_in, default_config_path,
  validate_config_file, project_file, choose_path, from_file, project_config,
  resolve_effective_config, EffectiveConfig, ConfigValidation,
}

checked_path :
    (j : Json)
    → is_value (check_db_path (some j)) ≡ true
    → is_value (validate_db_path_value j) ≡ true
unfolding check_db_path
checked_path j e = by_result (validate_db_path_value j) e
  where
    by_result : (r : Parsed Word) → is_value (r >> value tt) ≡ true → is_value r ≡ true
    by_result (value a) e = refl
    by_result (refused hint) e = cc e
    by_result raised e = cc e

-- A loaded object, or none where there is no file.
abbrev Loaded : Type 0
Loaded = Option (List (Word × Json)) × Bool

after_check :
    (r : Parsed (Unit {0})) (x l : Loaded)
    → (r >> value x) ≡ value l
    → (is_value r ≡ true) × (x ≡ l)
after_check (value u) x l e = (refl, cc e)
after_check (refused hint) x l e = cc e
after_check raised x l e = cc e

abbrev IsChecked : Loaded → Type 0
IsChecked l = is_value (check_db_path (db_path_in l.0)) ≡ true

no_file-IsChecked : IsChecked (none, false)
unfolding check_db_path
no_file-IsChecked = refl

loaded-IsChecked : (c : FileContents) (l : Loaded) → load_config_object c ≡ value l → IsChecked l
unfolding load_config_object load_object
loaded-IsChecked absent l e =
    let same : (none, false) ≡ l = cc e in subst IsChecked same no_file-IsChecked
loaded-IsChecked (object raw) l e =
    let (_, rest) = passed (is_version (lookup version_key raw)) none _ e in
    let (good, same) =
      after_check (check_db_path (lookup db_path_key raw)) (some raw, true) l rest in
    subst IsChecked same good
loaded-IsChecked malformed l e = cc e
loaded-IsChecked unreadable l e = cc e
loaded-IsChecked not_utf8 l e = cc e
loaded-IsChecked not_an_object l e = cc e

then_value :
    {A B : Type 0} (r : Parsed A) (f : A → B) → is_value (r >>= λ a. value (f a)) ≡ is_value r
then_value (value a) f = refl
then_value (refused hint) f = refl
then_value raised f = refl

module _ (os : PathLibrary) (contents : Word → FileContents) (base : Word) where
  abbrev validated : Word → Parsed Loaded → Parsed ConfigValidation
  validated path r = do
    loaded ← r
    require (no_keys (unknown_keys loaded.0)) none
    value (record { config_path = path; exists = loaded.1 })

  abbrev strictly : Parsed Loaded → Parsed Loaded
  strictly r = do loaded ← r; require (no_keys (unknown_keys loaded.0)) none; value loaded

  abbrev resolved : Parsed Loaded → Parsed EffectiveConfig
  resolved r = do
    loaded ← strictly r
    chosen ← choose_path os contents none none (some base) none none (db_path_in loaded.0)
    value (record {
      config_path = some (default_config_path os contents base);
      config_exists = loaded.1;
      db_path = chosen.0;
      db_source = chosen.1;
      ignored_keys = unknown_keys loaded.0;
    })

  choose-checked :
      (j : Option Json)
      → is_value (check_db_path j) ≡ true
      → is_value (choose_path os contents none none (some base) none none j) ≡ true
  unfolding choose_path
  choose-checked none e = refl
  choose-checked (some j) e =
      then_value (validate_db_path_value j)
        (λ path. (os.realpath (from_file os contents none none (some base) path), project_config))
      ∙ checked_path j e

  -- The two verbs after the file is loaded.
  agree_on :
      (path : Word) (r : Parsed Loaded)
      → ((l : Loaded) → r ≡ value l → IsChecked l)
      → is_value (validated path r) ≡ is_value (resolved r)
  agree_on path (refused hint) h = refl
  agree_on path raised h = refl
  agree_on path (value l) h = elim (Bool-cases (no_keys (unknown_keys l.0))) [
    | inr t ↦ rw t refl
    | inl t ↦ rw t (
        sym (
          then_value (choose_path os contents none none (some base) none none (db_path_in l.0)) _
          ∙ choose-checked (db_path_in l.0) (h l refl)))
  ]

pub validate_config_file-agrees :
    (os : PathLibrary) (contents : Word → FileContents) (base : Word)
    → ((p : Word) → os.realpath (os.realpath p) ≡ os.realpath p)
    → is_value (validate_config_file os contents (default_config_path os contents base))
      ≡ is_value (resolve_effective_config os contents none none (some base) true)
unfolding validate_config_file resolve_effective_config project_file
validate_config_file-agrees os contents base stable =
    rw (stable (os.join base (os.join (codes ".spoolctl") (codes "config.json")))) (
      agree_on os contents base (default_config_path os contents base)
        (load_config_object (contents (default_config_path os contents base)))
        (loaded-IsChecked (contents (default_config_path os contents base))))
