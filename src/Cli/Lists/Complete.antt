-- ===== src/Cli/Lists/Complete.antt =====
-- What cli.cmd_list lists.
use spoolctl.Base.{◌≡◌, ◌≤◌, subst, arith, String}
use spoolctl.Base.Int.{ℤ, pos}
use spoolctl.Models.{tag_filter_scan_limit}
use spoolctl.Models.Suggest.{Word}
use spoolctl.Store.Db.{Db}
use spoolctl.Operations.Listing.{ListInput, Listing, IsComplete, list_operation-IsComplete}
use spoolctl.Validation.{Python, value, bound}
use spoolctl.Validation.Ints.{parse_int_bound}
use spoolctl.Validation.Names.{optional, parse_queue}
use spoolctl.Validation.States.{parse_states}
use spoolctl.Validation.Tags.{parse_list_tags}
use spoolctl.Cli.Verbs.{nat_of}
use spoolctl.Cli.Events.Accepted.{value_injective, bounds_nat, parse_int_bound-bounds}
use spoolctl.Cli.Lists.{
  ListArgs, list_limit_max, effective, optional_priority, list_input, cmd_list,
}

effective-bounds :
    (n : ℤ) → nat_of n ≤ list_limit_max → (1 ≤ effective n) × (effective n ≤ list_limit_max)
effective-bounds n h = ground (arith, h)

module _ (text : Word → String) (py : Python) (args : ListArgs) where
  list_input-bounds :
      (input : ListInput)
      → list_input text py args ≡ value input
      → (1 ≤ input.effective_limit) × (input.effective_limit ≤ list_limit_max)
  unfolding list_input
  list_input-bounds input e =
      let (states, e1, k1) = bound (parse_states py args.state) _ e in
      let (tags, e2, k2) = bound (parse_list_tags args.tag) _ k1 in
      let (queue, e3, k3) = bound (optional (parse_queue py) args.queue) _ k2 in
      let (priority, e4, k4) = bound (optional_priority text py args.priority_min) _ k3 in
      let (limit, e5, k5) =
        bound (parse_int_bound py (pos 0) (pos list_limit_max) args.limit) _ k4 in
      let same = value_injective k5 in
      subst (λ (i : ListInput). (1 ≤ i.effective_limit) × (i.effective_limit ≤ list_limit_max)) same
        (effective-bounds limit
          (bounds_nat py 0 list_limit_max limit
            (parse_int_bound-bounds py _ _ limit args.limit e5)).1)

  -- When list's arguments are accepted: it lists at most as many jobs as the limit that they give, which
  -- is between 1 and 1000 (a limit of 0 stands for 1000); where the listing says that it is not
  -- truncated it is exactly the jobs of the table that pass the filters and the tag predicates, newest
  -- first; and where it says that it is, more jobs match than the limit, or more rows pass the filters
  -- than a scan may look at.
  pub cmd_list-IsComplete :
      (db : Db) (l : Listing)
      → cmd_list text py args db ≡ value l
      → (input : ListInput) × (list_input text py args ≡ value input)
        × (1 ≤ input.effective_limit)
        × (input.effective_limit ≤ list_limit_max)
        × IsComplete input db tag_filter_scan_limit l
  unfolding cmd_list
  cmd_list-IsComplete db l e =
      let (input, accepted, k) = bound (list_input text py args) _ e in
      let (least, most) = list_input-bounds input accepted in
      (
        input,
        accepted,
        least,
        most,
        subst (IsComplete input db tag_filter_scan_limit) (value_injective k)
            (list_operation-IsComplete input db),
      )
