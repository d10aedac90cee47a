-- ===== src/Examples/Parsed.antt =====
-- The theorems on the texts of a command line.
use spoolctl.Base.{
  ◌≡◌, ◌≢◌, ◌↔◌, ◌⊎◌, refl, arith, true, List, [], ◌∷◌, ◌&&◌, ◌||◌, none, some, All, leb,
  if◌then◌else◌, ◌-◌, ◌==◌,
}
use spoolctl.Base.Int.{pos, negsuc}
use spoolctl.Models.Suggest.{Word, codes, levenshtein_leq1}
use spoolctl.Models.Suggest.Nearness.{OneEdit, levenshtein_leq1_iff}
use spoolctl.Validation.{Python, value}
use spoolctl.Validation.Ints.{parse_int_bound}
use spoolctl.Validation.Ints.Printed.{ReadsNumerals, str_int, decimal, parse_int_bound-str_int}
use spoolctl.Validation.Names.{is_tag_char, parse_queue}
use spoolctl.Validation.Names.Accepted.{KeepsNames, all-All, QueueName, parse_queue_iff}
use spoolctl.Validation.Tags.{parse_add_tags}
use spoolctl.Validation.Tags.Given.{TagOk, parse_add_tags-spelled}
use spoolctl.Validation.Envs.{parse_job_env, get}
use spoolctl.Validation.Envs.Overrides.{VariableOk, last_given, parse_job_env-last}

-- An interpreter that knows ASCII only.
abbrev pub ascii : Python
ascii = record {
  digit_value = λ c. if leb 48 c && leb c 57 then some (c - 48) else none;
  is_space = λ c. c == 32 || (leb 9 c && leb c 13);
  is_printable = λ c. leb 32 c && leb c 126;
  max_digits = some 4300;
}

ascii-ReadsNumerals : ReadsNumerals ascii
ascii-ReadsNumerals d h = ground (arith, h)

ascii-KeepsNames : KeepsNames ascii
ascii-KeepsNames c h = ground (arith, h)

levenshtein_leq1_iff_example :
    (levenshtein_leq1 (codes "quued") (codes "queued") ≡ true)
    ↔ ((codes "quued" ≡ codes "queued") ⊎ OneEdit (codes "quued") (codes "queued"))
levenshtein_leq1_iff_example = levenshtein_leq1_iff (codes "quued") (codes "queued")

parse_int_bound-str_int_example :
    parse_int_bound ascii (negsuc 99) (pos 99) (str_int (negsuc 41)) ≡ value (negsuc 41)
unfolding decimal
parse_int_bound-str_int_example =
    parse_int_bound-str_int ascii ascii-ReadsNumerals (negsuc 99) (pos 99) (negsuc 41) refl

parse_queue_iff_example :
    (parse_queue ascii (codes "gpu-1") ≡ value (codes "gpu-1"))
    ↔ ((codes "gpu-1" ≡ codes "gpu-1") × QueueName (codes "gpu-1"))
parse_queue_iff_example = parse_queue_iff ascii ascii-KeepsNames (codes "gpu-1") (codes "gpu-1")

abbrev two_tags : List (Word × Word)
two_tags = (codes "owner", codes "agent") ∷ (codes "rule", codes "a=b") ∷ []

two_tags-TagOk : All TagOk two_tags
two_tags-TagOk = (
  record {
    some_key = cc;
    key_chars = (all-All is_tag_char (codes "owner")).0 refl;
    key_fits = omega arith;
    value_fits = omega arith;
  },
  (
    record {
      some_key = cc;
      key_chars = (all-All is_tag_char (codes "rule")).0 refl;
      key_fits = omega arith;
      value_fits = omega arith;
    },
    tt,
  ),
)

owner_ne_rule : codes "owner" ≢ codes "rule"
owner_ne_rule e = cc e

parse_add_tags-spelled_example :
    parse_add_tags (codes "owner=agent" ∷ codes "rule=a=b" ∷ []) ≡ value two_tags
parse_add_tags-spelled_example =
    parse_add_tags-spelled two_tags two_tags-TagOk ((owner_ne_rule, tt), (tt, tt)) (omega arith)

abbrev settings : List Word
settings = codes "A=1" ∷ codes "B=2" ∷ codes "A=3" ∷ []

parse_job_env-last_example :
    All VariableOk settings
    × ((key : Word)
        → get key ((codes "A", codes "3") ∷ (codes "B", codes "2") ∷ [])
          ≡ last_given key settings none)
unfolding parse_job_env
parse_job_env-last_example =
    parse_job_env-last settings ((codes "A", codes "3") ∷ (codes "B", codes "2") ∷ []) refl
