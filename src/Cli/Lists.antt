-- ===== src/Cli/Lists.antt =====
-- cli.cmd_list: from its arguments to the listing.
pub mod Complete
use spoolctl.Base.{
  ℕ, ◌-◌, ◌^◌, Bool, List, [], ◌∷◌, Option, none, some, String, ◌==◌, if◌then◌else◌,
}
use spoolctl.Base.Int.{ℤ, pos}
use spoolctl.Models.Suggest.{Word}
use spoolctl.Store.Db.{Db}
use spoolctl.Operations.Listing.{ListInput, Listing, list_operation}
use spoolctl.Validation.{Python, Parsed, value, ◌>>=◌, ◌>>◌}
use spoolctl.Validation.Ints.{parse_int_bound, parse_priority}
use spoolctl.Validation.Names.{optional, parse_queue}
use spoolctl.Validation.States.{parse_states}
use spoolctl.Validation.Tags.{parse_list_tags}
use spoolctl.Cli.Verbs.{nat_of}

abbrev pub list_limit_max : ℕ
list_limit_max = 1000

pub record ListArgs : Type 0 where
  pub state : Option Word
  pub tag : List Word
  pub queue : Option Word
  pub priority_min : Option Word
  pub limit : Word

abbrev pub effective : ℤ → ℕ
effective limit = if nat_of limit == 0 then list_limit_max else nat_of limit

module _ (text : Word → String) where
  abbrev pub texts : List (Word × Option Word) → List (String × Option String)
  texts [] = []
  texts ((key, none) ∷ tags) = (text key, none) ∷ texts tags
  texts ((key, some v) ∷ tags) = (text key, some (text v)) ∷ texts tags

  abbrev pub text_of : Option Word → Option String
  text_of none = none
  text_of (some w) = some (text w)

  module _ (py : Python) where
    abbrev pub optional_priority : Option Word → Parsed (Option ℤ)
    optional_priority none = value none
    optional_priority (some raw) = do v ← parse_priority py raw; value (some v)

    unfoldable pub list_input : ListArgs → Parsed ListInput
    list_input args = do
      states ← parse_states py args.state
      tag_predicates ← parse_list_tags args.tag
      queue ← optional (parse_queue py) args.queue
      priority_min ← optional_priority args.priority_min
      limit ← parse_int_bound py (pos 0) (pos list_limit_max) args.limit
      value (record {
        states = states;
        tag_predicates = texts tag_predicates;
        queue = text_of queue;
        priority_min = priority_min;
        effective_limit = effective limit;
      })

    unfoldable pub cmd_list : ListArgs → Db → Parsed Listing
    unfolding list_input list_operation
    cmd_list args db = do input ← list_input args; value (list_operation input db)
