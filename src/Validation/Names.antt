-- ===== src/Validation/Names.antt =====
-- validation._normalize_key, _parse_tag_key, _parse_worker_id, _parse_queue and _parse_job_cwd.
pub mod Accepted
use spoolctl.Base.{
  ℕ, Bool, true, false, not, ◌&&◌, ◌||◌, List, [], ◌∷◌, Option, none, some, ltb, leb, any, all,
  ◌==◌, length, if◌then◌else◌,
}
use spoolctl.Models.Suggest.{Word, word_eq}
use spoolctl.Validation.{Python, Parsed, value, refused, ◌>>=◌, ◌>>◌, require, contains, strip}

-- c in [lo-hi]
abbrev pub in_range : ℕ → ℕ → ℕ → Bool
in_range lo hi c = leb lo c && leb c hi

-- [A-Za-z0-9]
abbrev pub is_alnum : ℕ → Bool
is_alnum c = in_range 65 90 c || (in_range 97 122 c || in_range 48 57 c)

-- [A-Za-z0-9._-]
abbrev pub is_queue_char : ℕ → Bool
is_queue_char c = is_alnum c || (c == 46 || (c == 95 || c == 45))

-- [A-Za-z0-9_.:-]
abbrev pub is_tag_char : ℕ → Bool
is_tag_char c = is_queue_char c || c == 58

-- QUEUE_RE.fullmatch
unfoldable pub matches_queue : Word → Bool
matches_queue [] = false
matches_queue (c ∷ w) = is_alnum c && all is_queue_char w

-- TAG_KEY_RE.fullmatch
unfoldable pub matches_tag_key : Word → Bool
matches_tag_key [] = false
matches_tag_key (c ∷ w) = all is_tag_char (c ∷ w)

abbrev pub is_empty : Word → Bool
is_empty [] = true
is_empty (c ∷ w) = false

unfoldable pub parse_tag_key : Word → Parsed Word
unfolding matches_tag_key
parse_tag_key raw = do
  require (not (is_empty raw) && matches_tag_key raw) none
  require (leb (length raw) 128) none
  value raw

-- What os.path says of paths, and the directory of the process.
pub record Paths : Type 0 where
  pub is_abs : Word → Bool
  pub join : Word → Word → Word
  pub abspath : Word → Word
  pub cwd : Word

-- A given text is parsed, an absent one stays absent.
abbrev pub optional : (Word → Parsed Word) → Option Word → Parsed (Option Word)
optional parse none = value none
optional parse (some raw) = parse raw >>= λ w. value (some w)

abbrev pub base_or : Word → Option Word → Word
base_or cwd none = cwd
base_or cwd (some base) = base

abbrev pub max_path_chars : ℕ
max_path_chars = 4096

module _ (paths : Paths) (base : Option Word) where
  unfoldable pub parse_cwd_text : Word → Parsed Word
  unfolding contains
  parse_cwd_text raw = do
    require (not (is_empty raw)) none
    require (not (contains 0 raw)) none
    require (leb (length raw) max_path_chars) none
    value
        (paths.abspath (if paths.is_abs raw then raw else paths.join (base_or paths.cwd base) raw))

  unfoldable pub parse_job_cwd : Option Word → Parsed (Option Word)
  unfolding parse_cwd_text
  parse_job_cwd raw = optional parse_cwd_text raw

module _ (py : Python) where
  unfoldable pub parse_queue : Word → Parsed Word
  unfolding strip word_eq matches_queue
  parse_queue raw = do
    require (word_eq (strip py raw) raw) none
    require (leb 1 (length raw) && leb (length raw) 64 && matches_queue raw) none
    value raw

  unfoldable pub normalize_key_text : Word → Parsed Word
  unfolding strip
  normalize_key_text raw = do
    let key = strip py raw
    require (not (is_empty key)) none
    require (leb (length key) 256) none
    require (all py.is_printable key) none
    value key

  unfoldable pub normalize_key : Option Word → Parsed (Option Word)
  unfolding normalize_key_text
  normalize_key raw = optional normalize_key_text raw

  unfoldable pub parse_worker_text : Word → Parsed Word
  parse_worker_text raw = do
    require (not (is_empty raw)) none
    require (leb (length raw) 256) none
    require (all py.is_printable raw) none
    value raw

  unfoldable pub parse_worker_id : Option Word → Parsed (Option Word)
  unfolding parse_worker_text
  parse_worker_id raw = optional parse_worker_text raw
