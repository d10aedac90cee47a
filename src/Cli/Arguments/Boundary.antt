-- ===== src/Cli/Arguments/Boundary.antt =====
-- The arguments behind "--" belong to the job.
use spoolctl.Base.{◌≡◌, refl, inl, inr, false, List, [], ◌∷◌, ◌++◌, any, arith, Bool-cases}
use spoolctl.Models.Suggest.{Word, word_eq}
use spoolctl.Cli.Arguments.{boundary, holds_word, is_json, json_requested}

-- The arguments in front of the first "--" decide alone: whatever stands behind it, --json is requested
-- exactly when one of those in front is --json or starts with "--json=".
pub json_requested-boundary :
    (before after : List Word)
    → holds_word boundary before ≡ false
    → (json_requested (before ++ boundary ∷ after) ≡ any is_json before)
      × (json_requested before ≡ any is_json before)
unfolding json_requested word_eq
json_requested-boundary [] after h = (refl, refl)
json_requested-boundary (tok ∷ before) after h = elim (Bool-cases (word_eq tok boundary)) [
  | inl t ↦ absurd (ground (arith, h, t))
  | inr t ↦
      let (a, b) = json_requested-boundary before after (ground (arith, h)) in
      rw t (ground (arith, a), ground (arith, b))
]
