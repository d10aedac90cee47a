-- ===== src/Operations/Listing.antt =====
-- operations._tags_match and list_operation: the newest jobs that pass the filters, up to a limit;
-- tags are matched after the query, on at most `tag_filter_scan_limit` rows.
use spoolctl.Base.{
  ℕ, suc, ◌+◌, ◌≤◌, ◌<◌, ◌≡◌, refl, ap, sym, subst, ◌∙◌, min, Bool, true, false, ◌&&◌, ◌||◌, List,
  [], ◌∷◌, Option, none, some, take, length, last?, ltb, arith, String, Dict, dict_get, str_eq,
  Bool-cases, inl, inr, ◌⊎◌, if◌then◌else◌,
}
use mathlib.Core.List.{reverse}
use spoolctl.Base.Int.{ℤ}
use spoolctl.Models.{Job, JobState, tag_filter_scan_limit}
use spoolctl.Sql.{select}
use spoolctl.Sql.Limit.{
  take-all, length-take_more, take-take_more, length-take, length-take_whole, select-All,
}
use spoolctl.Sql.Laws.{All-of}
use spoolctl.Store.Db.{Db}
use spoolctl.Store.Queries.{is_listed, list_jobs, first_job_id}
use spoolctl.Store.Queries.Limited.{limited_more}
use spoolctl.Operations.Requests.{WarningCode, tag_filter_scan_capped}

abbrev pub tag_holds : Option String → Option String → Bool
tag_holds none value = false
tag_holds (some v) none = true
tag_holds (some v) (some value) = str_eq v value

unfoldable pub tags_match : Dict → List (String × Option String) → Bool
tags_match tags [] = true
tags_match tags ((key, value) ∷ predicates) =
    tag_holds (dict_get key tags) value && tags_match tags predicates

pub record ListInput : Type 0 where
  pub states : Option (List JobState)
  pub tag_predicates : List (String × Option String)
  pub queue : Option String
  pub priority_min : Option ℤ
  pub effective_limit : ℕ

pub record Listing : Type 0 where
  pub jobs : List Job
  pub cursor : ℕ
  pub first_id : Option ℕ
  pub truncated : Bool
  pub scanned : Option ℕ
  pub warnings : List WarningCode

abbrev last_id : Option Job → ℕ
last_id none = 0
last_id (some j) = j.id

abbrev pub matches : ListInput → Job → Bool
matches input j = tags_match j.tags input.tag_predicates

-- The listing made of the rows read where there are no tag predicates.
unfoldable pub plain_listing : ListInput → List Job → Db → Listing
plain_listing input jobs db =
    let limit = input.effective_limit in
    record {
      jobs = take limit jobs;
      cursor = last_id (last? (take limit jobs));
      first_id = first_job_id db;
      truncated = ltb limit (length jobs);
      scanned = none;
      warnings = [];
    }

-- The listing made of the rows read where there are some; `scan` is the limit of the scan.
unfoldable pub tagged_listing : ℕ → ListInput → List Job → Db → Listing
tagged_listing scan input jobs db =
    let limit = input.effective_limit in
    let scan_truncated = ltb scan (length jobs) in
    let filtered = select (matches input) (take scan jobs) in
    record {
      jobs = take limit filtered;
      cursor = last_id (last? (take limit filtered));
      first_id = first_job_id db;
      truncated = scan_truncated || ltb limit (length filtered);
      scanned = some (min (length jobs) scan);
      warnings = if scan_truncated then tag_filter_scan_capped ∷ [] else [];
    }

-- The query reads one row more than it shows, or one more than the scan may look at.
unfoldable list_by : List (String × Option String) → ListInput → Db → Listing
unfolding plain_listing tagged_listing
list_by [] input db =
    plain_listing input
      (list_jobs input.states (input.effective_limit + 1) input.queue input.priority_min db) db
list_by (p ∷ ps) input db =
    tagged_listing tag_filter_scan_limit input
      (list_jobs input.states (tag_filter_scan_limit + 1) input.queue input.priority_min db) db

unfoldable pub list_operation : ListInput → Db → Listing
unfolding list_by
list_operation input db = list_by input.tag_predicates input db

more_than : (n : ℕ) (js : List Job) → ltb n (length (take (suc n) js)) ≡ true → n < length js
more_than n js t = ground (arith, t, length-take_whole (suc n) js)

module _ (input : ListInput) (db : Db) where
  -- The jobs that pass the filters of the query, newest first.
  abbrev pub listed : List Job
  listed = reverse (select (is_listed input.states input.queue input.priority_min) db.jobs)

  -- What a listing promises, where a scan may look at `scan` rows.
  pub record IsComplete (scan : ℕ) (l : Listing) : Type 0 where
    pub bounded : length l.jobs ≤ input.effective_limit
    pub whole : l.truncated ≡ false → l.jobs ≡ select (matches input) listed
    pub cut :
        l.truncated ≡ true
        → (input.effective_limit < length (select (matches input) listed)) ⊎ (scan < length listed)

  read_rows :
      (limit : ℕ)
      → list_jobs input.states (limit + 1) input.queue input.priority_min db
        ≡ take (suc limit) listed
  unfolding list_jobs
  read_rows limit = limited_more limit listed

  all_match : input.tag_predicates ≡ [] → select (matches input) listed ≡ listed
  unfolding tags_match
  all_match e =
      select-All (matches input) listed
        (All-of (λ j. matches input j ≡ true) (λ j. ap (tags_match j.tags) e) listed)

  module _ (scan : ℕ) where
    plain-IsComplete :
        input.tag_predicates ≡ []
        → IsComplete scan (plain_listing input (take (suc input.effective_limit) listed) db)
    unfolding plain_listing
    plain-IsComplete e =
        let n = input.effective_limit in
        record {
          bounded = length-take n (take (suc n) listed);
          whole = λ f.
              take-take_more n listed
              ∙ take-all n listed (length-take_more n listed (ground (arith, f)))
              ∙ sym (all_match e);
          cut = λ t. inl (rw (all_match e) (more_than n listed t));
        }

    abbrev found : List Job
    found = select (matches input) (take scan (take (suc scan) listed))

    found_all :
        ltb scan (length (take (suc scan) listed)) ≡ false → found ≡ select (matches input) listed
    found_all f =
        let few : length listed ≤ scan = length-take_more scan listed (ground (arith, f)) in
        ap (select (matches input)) (take-take_more scan listed ∙ take-all scan listed few)

    tagged-IsComplete : IsComplete scan (tagged_listing scan input (take (suc scan) listed) db)
    unfolding tagged_listing
    tagged-IsComplete =
        let n = input.effective_limit in
        record {
          bounded = length-take n found;
          whole = λ f. take-all n found (ground (arith, f)) ∙ found_all (ground (arith, f));
          cut = λ t. elim (Bool-cases (ltb scan (length (take (suc scan) listed)))) [
            | inl capped ↦ inr (more_than scan listed capped)
            | inr all_seen ↦ inl (ground (arith, t, all_seen, ap length (found_all all_seen)))
          ];
        }

  abbrev read : ℕ → List Job
  read limit = list_jobs input.states (limit + 1) input.queue input.priority_min db

  plain_run :
      input.tag_predicates ≡ []
      → list_operation input db ≡ plain_listing input (read input.effective_limit) db
  unfolding list_operation
  plain_run e = ap (λ ps. list_by ps input db) e

  tagged_run :
      {p : String × Option String} {ps : List (String × Option String)}
      → input.tag_predicates ≡ p ∷ ps
      → list_operation input db
        ≡ tagged_listing tag_filter_scan_limit input (read tag_filter_scan_limit) db
  unfolding list_operation
  tagged_run e = ap (λ ps. list_by ps input db) e

  -- A listing holds at most the limit asked for; where it says that it is not truncated it is exactly
  -- the jobs of the table that pass the filters and the tag predicates, newest first; and where it says
  -- that it is, more jobs match than the limit, or more rows pass the filters than a scan may look at.
  pub list_operation-IsComplete : IsComplete tag_filter_scan_limit (list_operation input db)
  unfolding list_operation
  list_operation-IsComplete = by_predicates input.tag_predicates refl
    where
      by_predicates :
          (ps : List (String × Option String))
          → input.tag_predicates ≡ ps
          → IsComplete tag_filter_scan_limit (list_operation input db)
      by_predicates [] e =
          subst (IsComplete tag_filter_scan_limit)
            (sym (
              plain_run e
              ∙ ap (λ rows. plain_listing input rows db) (read_rows input.effective_limit)))
            (plain-IsComplete tag_filter_scan_limit e)
      by_predicates (p ∷ ps) e =
          subst (IsComplete tag_filter_scan_limit)
            (sym (
              tagged_run e
              ∙ ap (λ rows. tagged_listing tag_filter_scan_limit input rows db)
                  (read_rows tag_filter_scan_limit)))
            (tagged-IsComplete tag_filter_scan_limit)
