-- ===== src/Config.antt =====
-- spoolctl/config.py: where the database is, by flag, environment, project file or default.
pub mod Agreement
use spoolctl.Base.{
  ℕ, Bool, true, false, not, ◌&&◌, ◌||◌, List, [], ◌∷◌, Option, none, some, leb, length, any,
  if◌then◌else◌,
}
use spoolctl.Base.Int.{ℤ, pos, eq_ℤ}
use spoolctl.Sql.{select, order_by}
use spoolctl.Models.Suggest.{Word, codes, word_eq, word_lt}
use spoolctl.Validation.{Parsed, value, refused, raised, ◌>>=◌, ◌>>◌, require, contains}
use spoolctl.Validation.Names.{is_empty, max_path_chars}

abbrev pub is_value : {A : Type 0} → Parsed A → Bool
is_value (value a) = true
is_value (refused hint) = false
is_value raised = false

-- A value of the file, as json.load gives it; `other` is a float, null, a list or an object.
pub data Json : Type 0 where
  text : Word → Json
  whole : ℤ → Json
  truth : Bool → Json
  other : Json

-- What open and json.load do with a path: FileNotFoundError, JSONDecodeError, another OSError,
-- UnicodeDecodeError (a ValueError that nothing catches), or a value, which may be an object.
pub data FileContents : Type 0 where
  absent malformed unreadable not_utf8 not_an_object : FileContents
  object : List (Word × Json) → FileContents

-- The functions of os.path, and os.getcwd.
pub record PathLibrary : Type 0 where
  pub realpath : Word → Word
  pub join : Word → Word → Word
  pub is_abs : Word → Bool
  pub dirname : Word → Word
  pub cwd : Word

pub data Source : Type 0 where
  flag environment project_config default : Source

pub record EffectiveConfig : Type 0 where
  pub config_path : Option Word
  pub config_exists : Bool
  pub db_path : Word
  pub db_source : Source
  pub ignored_keys : List Word

pub record ConfigValidation : Type 0 where
  pub config_path : Word
  pub exists : Bool

-- raw.get(key)
unfoldable pub lookup : Word → List (Word × Json) → Option Json
unfolding word_eq
lookup key [] = none
lookup key ((k, v) ∷ raw) = let rest = lookup key raw in if word_eq k key then some v else rest

abbrev pub version_key : Word
version_key = codes "version"

abbrev pub db_path_key : Word
db_path_key = codes "db_path"

unfoldable pub validate_db_path_text : Word → Parsed Word
unfolding contains
validate_db_path_text raw = do
  require (not (is_empty raw)) none
  require (not (contains 0 raw)) none
  require (leb (length raw) max_path_chars) none
  value raw

unfoldable pub validate_db_path_value : Json → Parsed Word
unfolding validate_db_path_text
validate_db_path_value (text raw) = validate_db_path_text raw
validate_db_path_value _ = refused none

-- The version may be left out, and is the integer 1 otherwise.
abbrev pub is_version : Option Json → Bool
is_version none = true
is_version (some (whole v)) = eq_ℤ v (pos 1)
is_version (some _) = false

-- The check of db_path, where the object has it.
unfoldable pub check_db_path : Option Json → Parsed (Unit {0})
unfolding validate_db_path_value
check_db_path none = value tt
check_db_path (some raw) = validate_db_path_value raw >> value tt

unfoldable pub load_object : List (Word × Json) → Parsed (Option (List (Word × Json)) × Bool)
unfolding lookup check_db_path
load_object raw = do
  require (is_version (lookup version_key raw)) none
  check_db_path (lookup db_path_key raw)
  value (some raw, true)

unfoldable pub load_config_object : FileContents → Parsed (Option (List (Word × Json)) × Bool)
unfolding load_object
load_config_object absent = value (none, false)
load_config_object (object raw) = load_object raw
load_config_object not_utf8 = raised
load_config_object _ = refused none

abbrev pub keys_of : Option (List (Word × Json)) → List Word
keys_of none = []
keys_of (some []) = []
keys_of (some ((k, v) ∷ raw)) = k ∷ keys_of (some raw)

abbrev pub is_supported : Word → Bool
is_supported k = word_eq k version_key || word_eq k db_path_key

-- sorted(set(data or {}) - set(SUPPORTED_KEYS))
unfoldable pub unknown_keys : Option (List (Word × Json)) → List Word
unfolding word_eq word_lt
unknown_keys config = order_by word_lt (select (λ k. not (is_supported k)) (keys_of config))

abbrev pub no_keys : List Word → Bool
no_keys [] = true
no_keys (k ∷ ks) = false

-- config_obj.get(db_path) of an object that may be missing.
abbrev pub db_path_in : Option (List (Word × Json)) → Option Json
db_path_in none = none
db_path_in (some raw) = lookup db_path_key raw

module _ (os : PathLibrary) (contents : Word → FileContents) where
  abbrev pub default_config_path : Word → Word
  default_config_path base =
      os.realpath (os.join base (os.join (codes ".spoolctl") (codes "config.json")))

  unfoldable pub validate_config_file : Word → Parsed ConfigValidation
  unfolding load_config_object unknown_keys
  validate_config_file path = do
    let config_path = os.realpath path
    loaded ← load_config_object (contents config_path)
    require (no_keys (unknown_keys loaded.0)) none
    value (record { config_path = config_path; exists = loaded.1 })

  -- What is known of the project file: nothing without a base directory.
  unfoldable pub project_file : Option Word → Bool → Parsed (Option (List (Word × Json)) × Bool)
  unfolding load_config_object unknown_keys
  project_file none strict = value (none, false)
  project_file (some base) strict = do
    loaded ← load_config_object (contents (default_config_path base))
    require (not strict || no_keys (unknown_keys loaded.0)) none
    value loaded

  module _ (flag_path environment_path base : Option Word) where
    abbrev pub config_path : Option Word → Option Word
    config_path none = none
    config_path (some dir) = some (default_config_path dir)

    abbrev pub base_or_cwd : Option Word → Word
    base_or_cwd none = os.cwd
    base_or_cwd (some dir) = dir

    abbrev pub config_dir : Option Word → Word
    config_dir none = []
    config_dir (some dir) = os.dirname (default_config_path dir)

    -- A path of the file that is not absolute is taken from the directory of the file.
    abbrev pub from_file : Word → Word
    from_file raw = if os.is_abs raw then raw else os.join (config_dir base) raw

    abbrev pub default_path : Word
    default_path = os.join (base_or_cwd base) (codes ".spoolctl/queue.db")

    -- The validated path with its source.
    unfoldable pub choose_path : Option Word → Option Word → Option Json → Parsed (Word × Source)
    unfolding validate_db_path_text validate_db_path_value
    choose_path (some raw) env config = do
      path ← validate_db_path_text raw
      value (os.realpath path, flag)
    choose_path none (some raw) config = do
      path ← validate_db_path_text raw
      value (os.realpath path, environment)
    choose_path none none (some raw) = do
      path ← validate_db_path_value raw
      value (os.realpath (from_file path), project_config)
    choose_path none none none = value (os.realpath default_path, default)

    unfoldable pub resolve_effective_config : Bool → Parsed EffectiveConfig
    unfolding project_file choose_path unknown_keys
    resolve_effective_config strict = do
      loaded ← project_file base strict
      chosen ← choose_path flag_path environment_path (db_path_in loaded.0)
      value (record {
        config_path = config_path base;
        config_exists = loaded.1;
        db_path = chosen.0;
        db_source = chosen.1;
        ignored_keys = unknown_keys loaded.0;
      })
