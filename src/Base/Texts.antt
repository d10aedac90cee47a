-- ===== src/Base/Texts.antt =====
-- Equality of texts, and dictionaries of texts as association lists.
use Prim.Native.String.{String}
use mathlib.Core.Bool.{Bool, true, false, ◌&&◌}
use mathlib.Core.Option.{Option, none, some}
use mathlib.Core.List.{List, [], ◌∷◌}
use spoolctl.Base.Tests.{if◌then◌else◌, sql_eq}
use spoolctl.Base.Lists.{all}
pub use text.Mathlib.Text.{◌==◌ as str_eq}
pub use text.Mathlib.TextEquality.{eq_iff as str_eq_iff}
pub use text.Mathlib.TextPositions.{eq_refl as str_eq_refl}

-- A dict[str, str]: keys are unique, and their order does not count.
abbrev pub Dict : Type 0
Dict = List (String × String)

unfoldable pub dict_get : String → Dict → Option String
dict_get k [] = none
dict_get k ((j, v) ∷ d) = if str_eq j k then some v else dict_get k d

-- `d == e` on dictionaries: each has the items of the other.
unfoldable pub dict_eq : Dict → Dict → Bool
unfolding dict_get
dict_eq d e =
    all (λ (k, v). sql_eq str_eq (dict_get k e) v) d
    && all (λ (k, v). sql_eq str_eq (dict_get k d) v) e

-- `xs == ys` on lists of texts.
unfoldable pub texts_eq : List String → List String → Bool
texts_eq [] [] = true
texts_eq (x ∷ xs) (y ∷ ys) = str_eq x y && texts_eq xs ys
texts_eq [] (y ∷ ys) = false
texts_eq (x ∷ xs) [] = false
