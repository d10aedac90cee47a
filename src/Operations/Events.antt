-- ===== src/Operations/Events.antt =====
-- operations._event_page and the wait of operations.events_operation: pages of the ledger by a
-- cursor. A wait is given the list of its polls: what each reads from the database, and the clock.
use spoolctl.Base.{
  ◌⊎◌, zero, ℕ, suc, ◌+◌, ◌≤◌, ◌<◌, ◌≡◌, ◌≢◌, refl, sym, ap, subst, ◌∙◌, max, Bool, true, false,
  ◌&&◌, List, [], ◌∷◌, Option, some, All, take, length, last?, leb, ltb, ◌==◌, arith, Bool-cases,
  Option-cases, inl, inr, if◌then◌else◌,
}
use mathlib.Core.Option
use spoolctl.Models.{Event}
use spoolctl.Sql.{select}
use spoolctl.Sql.Laws.{All-imp, max_of_bound}
use spoolctl.Sql.Order.{All-select}
use spoolctl.Sql.Keys.{Ascending}
use spoolctl.Sql.Limit.{
  Ascending-select, Ascending-from, take-all, length-take_more, take-take_more, select-select,
  select-All, take-by_key, length-take, last-take-none,
}
use spoolctl.Store.Db.{Db}
use spoolctl.Store.Queries.{limited, list_events, event_high_water, first_event_id, is_after}
use spoolctl.Store.Queries.Limited.{limited-take}
use spoolctl.Store.Invariant.{Inv}

pub record EventPage : Type 0 where
  pub events : List Event
  pub cursor : ℕ
  pub first_id : Option ℕ

-- The page made of the rows read, or `none` where events[-1] would raise. The high water and the first
-- id are reads of their own: others may commit before each of them.
unfoldable pub page_of : ℕ → Option ℕ → ℕ → List Event → Db → Db → Option EventPage
page_of since_id job_id limit rows at_mark at_first =
    let truncated = ltb 0 limit && ltb limit (length rows) in
    let events = if truncated then take limit rows else rows in
    let cursor =
      if truncated
      then Option.map (λ e. e.id) (last? events)
      else some (max since_id (event_high_water at_mark)) in
    Option.map
      (λ c. record { events = events; cursor = c; first_id = first_event_id job_id at_first })
      cursor

-- `db`, `at_mark` and `at_first` are what the three reads of the page see.
unfoldable pub event_page : ℕ → Option ℕ → ℕ → Db → Db → Db → Option EventPage
unfolding page_of
event_page since_id job_id limit db at_mark at_first =
    let fetch_limit = if limit == 0 then 0 else limit + 1 in
    page_of since_id job_id limit (list_events since_id job_id fetch_limit db) at_mark at_first

All-events : (es : List Event) → All (λ e. Unit {0}) es
All-events [] = tt
All-events (e ∷ es) = (tt, All-events es)

zero_or : (n : ℕ) → (n ≡ 0) ⊎ (0 < n)
zero_or zero = inl refl
zero_or (suc n) = inr (omega arith)

zero_rows :
    (limit : ℕ) (es : List Event)
    → limit ≡ 0
    → limited (if limit == 0 then 0 else limit + 1) es ≡ es
unfolding limited
zero_rows limit es z = rw z refl

limit_rows :
    (limit : ℕ) (es : List Event)
    → 0 < limit
    → limited (if limit == 0 then 0 else limit + 1) es ≡ take (suc limit) es
unfolding limited
limit_rows zero es h = absurd (omega (arith, h))
limit_rows (suc n) es h =
    limited-take (if suc n == 0 then 0 else suc n + 1) es (ground arith)
    ∙ ap (λ m. take m es) {y = suc (suc n)} (ground arith)

below_high_water : (db : Db) → All (λ e. e.id ≤ event_high_water db) db.events
unfolding event_high_water
below_high_water db =
    All-imp (λ e. true ≡ true → e.id ≤ event_high_water db) _ (λ e h. h refl) db.events
      (max_of_bound (λ e. e.id) (λ e. true) (event_high_water db) db.events (omega arith))

module _ (since_id : ℕ) (job_id : Option ℕ) (limit : ℕ) (db at_mark at_first : Db) where
  abbrev pub is_on_page : ℕ → Event → Bool
  is_on_page cursor e = is_after since_id job_id e && leb e.id cursor

  -- What a page is: the events after `since_id` up to its cursor.
  pub record ExactPage : Type 0 where
    pub page : EventPage
    pub answered : event_page since_id job_id limit db at_mark at_first ≡ some page
    pub forward : since_id ≤ page.cursor
    pub exact : page.events ≡ select (is_on_page page.cursor) db.events
    pub progress : All (λ e. is_after since_id job_id e ≡ true → since_id < page.cursor) db.events
    pub bounded : limit ≢ 0 → length page.events ≤ limit

  abbrev later : List Event
  later = select (is_after since_id job_id) db.events

  module _ (v : Inv db) (grown : event_high_water db ≤ event_high_water at_mark) where
    later-Ascending : Ascending (λ e. e.id) since_id later
    later-Ascending =
        Ascending-from (λ e. e.id) since_id 0 later
          (All-imp (λ e. (is_after since_id job_id e ≡ true) × Unit {0}) _
            (λ e h. ground (arith, h.0)) later
            (All-select (λ e. Unit {0}) (is_after since_id job_id) db.events
              (All-events db.events)))
          (Ascending-select (λ e. e.id) (is_after since_id job_id) 0 db.events v.event_ids)

    -- The last page of the ledger: there is no limit, or there are no more events than it.
    module _ (few : limit ≢ 0 → length later ≤ limit) where
      whole_rows : list_events since_id job_id (if limit == 0 then 0 else limit + 1) db ≡ later
      unfolding list_events limited
      whole_rows = elim (zero_or limit) [
        | inl z ↦ zero_rows limit later z
        | inr h ↦
            limit_rows limit later h
            ∙ take-all (suc limit) later (omega (arith, few (λ z. omega (arith, z, h))))
      ]

      not_cut : (ltb 0 limit && ltb limit (length later)) ≡ false
      not_cut = elim (zero_or limit) [
        | inl z ↦ ground (arith, z)
        | inr h ↦ ground (arith, few (λ z. omega (arith, z, h)))
      ]

      whole_page : ExactPage
      unfolding event_page
      whole_page = record {
        page = record {
          events = later;
          cursor = max since_id (event_high_water at_mark);
          first_id = first_event_id job_id at_first;
        };
        answered =
            ap (λ rows. page_of since_id job_id limit rows at_mark at_first) whole_rows
            ∙ rw (not_cut, page_of) refl;
        forward = omega arith;
        exact =
            sym (
              select-All (λ e. leb e.id (max since_id (event_high_water at_mark))) later
                (All-imp (λ e. (is_after since_id job_id e ≡ true) × (e.id ≤ event_high_water db)) _
                  (λ e h. ground (arith, h.1, grown)) later
                  (All-select (λ e. e.id ≤ event_high_water db) (is_after since_id job_id) db.events
                    (below_high_water db))))
            ∙ select-select _ (is_after since_id job_id) db.events;
        progress =
            All-imp (λ e. e.id ≤ event_high_water db) _ (λ e h t. ground (arith, h, t, grown))
              db.events (below_high_water db);
        bounded = few;
      }

    -- A page that was cut: one row more than the limit was read.
    module _ (some_limit : 0 < limit) (many : limit < length later) where
      cut_rows :
          list_events since_id job_id (if limit == 0 then 0 else limit + 1) db
          ≡ take (suc limit) later
      unfolding list_events limited
      cut_rows = limit_rows limit later some_limit

      is_cut : (ltb 0 limit && ltb limit (length (take (suc limit) later))) ≡ true
      is_cut = ground (arith, length-take_more limit later, some_limit, many)

      module _ (last : Event) (at_last : last? (take limit later) ≡ some last) where
        cut_page : ExactPage
        unfolding event_page
        cut_page =
            let (above, exact) =
              take-by_key (λ e. e.id) limit since_id later last later-Ascending at_last in
            record {
              page = record {
                events = take limit later;
                cursor = last.id;
                first_id = first_event_id job_id at_first;
              };
              answered =
                  ap (λ rows. page_of since_id job_id limit rows at_mark at_first) cut_rows
                  ∙ rw (is_cut, take-take_more limit later, at_last, page_of) refl;
              forward = omega (arith, above);
              exact = sym exact ∙ select-select _ (is_after since_id job_id) db.events;
              progress =
                  All-imp (λ e. e.id ≤ event_high_water db) _ (λ e h t. above) db.events
                    (below_high_water db);
              bounded = λ _. length-take limit later;
            }

    -- In a well-formed database, and where the newest event is not pruned between the first read of a page
    -- and the second, of the high water: the page is never refused, and it is exactly what the first read
    -- finds in the ledger (of the job asked for) with an id above `since_id` and up to the page's cursor,
    -- in order; what others commit after that read is not on it, even with an id up to the cursor. The
    -- cursor never goes back, it moves on while the first read finds a later event, and a limit that is
    -- not 0 bounds the page.
    pub event_page-ExactPage : ExactPage
    event_page-ExactPage = elim (zero_or limit) [
      | inl z ↦ whole_page (λ n. absurd (n z))
      | inr h ↦ elim (Bool-cases (ltb limit (length later))) [
        | inr few ↦ whole_page (λ _. ground (arith, few))
        | inl many ↦ elim (Option-cases (last? (take limit later))) [
          | inl n ↦ absurd (last-take-none limit later h (ground (arith, many)) n)
          | inr (last, e) ↦ cut_page h (ground (arith, many)) last e
        ]
      ]
    ]

-- The events of a page do not depend on the two later reads.
page_of-events :
    (since_id : ℕ) (job_id : Option ℕ) (limit : ℕ) (rows : List Event) (m f m' f' : Db)
    (p : EventPage)
    → page_of since_id job_id limit rows m f ≡ some p
    → (q : EventPage) × (page_of since_id job_id limit rows m' f' ≡ some q) × (q.events ≡ p.events)
unfolding page_of
page_of-events since_id job_id limit rows m f m' f' p e =
    elim (Bool-cases (ltb 0 limit && ltb limit (length rows))) [
      | inl t ↦ elim (Option-cases (last? (take limit rows))) [
        | inl n ↦ cc (rw (t, n, page_of) at e)
        | inr (last, n) ↦
            let same : record {
              events = take limit rows;
              cursor = last.id;
              first_id = first_event_id job_id f;
            }
                ≡ p =
              cc (rw (t, n, page_of) at e) in
            (
              record {
                events = take limit rows;
                cursor = last.id;
                first_id = first_event_id job_id f';
              },
              rw (t, n, page_of) refl,
              ap (λ (r : EventPage). r.events) same,
            )
      ]
      | inr t ↦
          let same : record {
            events = rows;
            cursor = max since_id (event_high_water m);
            first_id = first_event_id job_id f;
          }
              ≡ p =
            cc (rw (t, page_of) at e) in
          (
            record {
              events = rows;
              cursor = max since_id (event_high_water m');
              first_id = first_event_id job_id f';
            },
            rw (t, page_of) refl,
            ap (λ (r : EventPage). r.events) same,
          )
    ]

-- In a well-formed database a limit that is not 0 bounds the page, whatever is committed meanwhile.
pub event_page-bounded :
    (since_id : ℕ) (job_id : Option ℕ) (limit : ℕ) (db at_mark at_first : Db)
    → Inv db
    → (q : EventPage) × (event_page since_id job_id limit db at_mark at_first ≡ some q)
      × (limit ≢ 0 → length q.events ≤ limit)
unfolding event_page
event_page-bounded since_id job_id limit db at_mark at_first v =
    let alone = event_page-ExactPage since_id job_id limit db db db v (omega arith) in
    let (q, made, same) =
      page_of-events since_id job_id limit _ db db at_mark at_first alone.page alone.answered in
    (q, made, λ some_limit. subst (λ es. length es ≤ limit) (sym same) (alone.bounded some_limit))
