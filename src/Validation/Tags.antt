-- ===== src/Validation/Tags.antt =====
-- validation._parse_add_tags and _parse_list_tags: `--tag KEY=VALUE`.
pub mod Given
use spoolctl.Base.{
  ℕ, Bool, true, false, not, List, [], ◌∷◌, ◌++◌, Option, none, some, leb, any, length,
  if◌then◌else◌,
}
use spoolctl.Models.Suggest.{Word, word_eq}
use spoolctl.Validation.{
  Parsed, value, refused, ◌>>=◌, ◌>>◌, require, contains, equals_sign, split_once,
}
use spoolctl.Validation.Names.{parse_tag_key}

-- `key in tags`
unfoldable pub has_key : Word → List (Word × Word) → Bool
unfolding word_eq
has_key key tags = any (λ (k, v). word_eq k key) tags

-- One round of the loop; a dictionary keeps its items in the order in which they were put in.
unfoldable pub add_tag : Word → List (Word × Word) → Parsed (List (Word × Word))
unfolding contains split_once parse_tag_key has_key
add_tag raw tags = do
  require (contains equals_sign raw) none
  let parts = split_once equals_sign raw
  key ← parse_tag_key parts.0
  require (not (has_key key tags)) none
  require (leb (length parts.1) 1024) none
  value (tags ++ (key, parts.1) ∷ [])

unfoldable pub add_tags : List Word → List (Word × Word) → Parsed (List (Word × Word))
unfolding add_tag
add_tags [] tags = value tags
add_tags (raw ∷ raws) tags = do more ← add_tag raw tags; add_tags raws more

unfoldable pub parse_add_tags : List Word → Parsed (List (Word × Word))
unfolding add_tags
parse_add_tags raw_tags = do require (leb (length raw_tags) 16) none; add_tags raw_tags []

-- A predicate of list: KEY, or KEY=VALUE.
unfoldable pub tag_predicate : Word → Word × Option Word
unfolding contains split_once
tag_predicate raw =
    let (key, after) = split_once equals_sign raw in
    if contains equals_sign raw then (key, some after) else (raw, none)

unfoldable pub parse_list_tags : List Word → Parsed (List (Word × Option Word))
unfolding tag_predicate parse_tag_key
parse_list_tags [] = value []
parse_list_tags (raw ∷ raws) = do
  let parts = tag_predicate raw
  key ← parse_tag_key parts.0
  rest ← parse_list_tags raws
  value ((key, parts.1) ∷ rest)
