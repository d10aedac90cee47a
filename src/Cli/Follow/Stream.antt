-- ===== src/Cli/Follow/Stream.antt =====
-- The stream of cli._run_events_follow against the ledger, through whatever other processes do to the
-- queue between its looks.
use spoolctl.Base.{
  ℕ, ◌≤◌, ◌≡◌, refl, sym, subst, inl, inr, max, Bool, true, false, List, [], ◌∷◌, ◌++◌, Option,
  none, some, All, arith, leb, Bool-cases,
}
use mathlib.Core.List.{append-nil}
use spoolctl.Models.{Time, Event}
use spoolctl.Sql.{select}
use spoolctl.Sql.Keys.{Ascending}
use spoolctl.Sql.Laws.{All-imp, All-append, All-of}
use spoolctl.Sql.Limit.{Ascending-select, Ascending-from}
use spoolctl.Sql.Order.{All-select, All-unselect}
use spoolctl.Store.Db.{Db}
use spoolctl.Store.Queries.{limited, list_events, is_after, event_of}
use spoolctl.Store.Invariant.{Inv}
use spoolctl.Store.History.{Reach, Reach-Inv}
use spoolctl.Store.Lease.Steps.{Reach-append}
use spoolctl.Store.Ledger.{Extends, Reach-Extends}
use spoolctl.Operations.Waiting.{Any}
use spoolctl.Cli.Follow.{
  FollowEnd, Look, Batch, Progress, Followed, write_rows, follow_first, ends, is_idle, after_rows,
  follow_rows, follow_db, follow_look, follow_loop, run_events_follow, start_cursor,
}
use spoolctl.Cli.Follow.Written.{IsPrefix, write_rows-IsPrefix}

-- The database that a look leaves known: what it reads, if it reads anything.
abbrev pub seen : Db → Option Db → Db
seen db none = db
seen db (some db') = db'

-- Between the looks, and after the last one, other processes do any of their transactions.
abbrev pub Linked : Db → Db → List Look → Type 0
Linked final db [] = Reach db final
Linked final db (l ∷ ls) = Reach db (seen db l.db) × Linked final (seen db l.db) ls

Linked-Reach : (final db : Db) (ls : List Look) → Linked final db ls → Reach db final
Linked-Reach final db [] h = h
Linked-Reach final db (l ∷ ls) h = Reach-append h.0 (Linked-Reach final (seen db l.db) ls h.1)

Any-left : (P : Event → Type 0) (xs ys : List Event) → Any P xs → Any P (xs ++ ys)
Any-left P [] ys h = elim h [ ]
Any-left P (x ∷ xs) ys (inl h) = inl h
Any-left P (x ∷ xs) ys (inr h) = inr (Any-left P xs ys h)

Any-right : (P : Event → Type 0) (xs ys : List Event) → Any P ys → Any P (xs ++ ys)
Any-right P [] ys h = h
Any-right P (x ∷ xs) ys h = inr (Any-right P xs ys h)

All-and : (P Q : Event → Type 0) (xs : List Event) → All P xs → All Q xs → All (λ x. P x × Q x) xs
All-and P Q [] p q = tt
All-and P Q (x ∷ xs) p q = ((p.0, q.0), All-and P Q xs p.1 q.1)

module _ (job_id : Option ℕ) (final : Db) where
  -- What a stream from the cursor `c` shows of the ledger as it is at the end.
  pub record Carries (c : ℕ) (f : Followed) : Type 0 where
    pub forward : c ≤ f.cursor
    pub ordered : Ascending (λ e. e.id) c f.events
    pub of_job : All (λ e. event_of job_id e ≡ true) f.events
    pub reached : All (λ e. e.id ≤ f.cursor) f.events
    pub complete :
        All
          (λ e. is_after c job_id e ≡ true → e.id ≤ f.cursor → Any (λ x. x ≡ e) f.events)
          final.events

  ends-Carries : (c : ℕ) (r : FollowEnd) → Carries c (ends c r)
  ends-Carries c r = record {
    forward = omega arith;
    ordered = tt;
    of_job = tt;
    reached = tt;
    complete = All-of _ (λ e t l. absurd (ground (arith, t, l))) final.events;
  }

  module _ (c : ℕ) (db : Db) (v : Inv db) (x : Extends db final) where
    abbrev rows : List Event
    rows = select (is_after c job_id) db.events

    rows_after : All (λ e. (is_after c job_id e ≡ true) × (e.id ≤ db.last_event)) rows
    rows_after = All-select (λ e. e.id ≤ db.last_event) (is_after c job_id) db.events v.events_below

    rows-Ascending : Ascending (λ e. e.id) c rows
    rows-Ascending =
        Ascending-from (λ e. e.id) c 0 rows
          (All-imp _ _ (λ e h. ground (arith, h.0)) rows rows_after)
          (Ascending-select (λ e. e.id) (is_after c job_id) 0 db.events v.event_ids)

    list_events-rows : list_events c job_id 0 db ≡ rows
    unfolding list_events limited
    list_events-rows = refl

    -- The rows written now, and a stream that goes on behind them.
    joined-Carries :
        (b : Batch) (f : Followed)
        → IsPrefix rows c b
        → Carries b.cursor f
        → Carries c (follow_first b.events f)
    joined-Carries b f p g = record {
      forward = omega (arith, p.forward, g.forward);
      ordered = p.joins f.events g.ordered;
      of_job =
          All-append _ b.events f.events
            (p.keeps (λ e. event_of job_id e ≡ true)
              (All-imp _ _ (λ e h. ground (arith, h.0)) rows rows_after))
            g.of_job;
      reached =
          All-append _ b.events f.events
            (All-imp (λ e. e.id ≤ b.cursor) _ (λ e h. omega (arith, h, g.forward)) b.events
              p.reached)
            g.reached;
      complete =
          All-imp _ _
            (λ e h t l. elim (Bool-cases (leb e.id b.cursor)) [
              | inl in' ↦ Any-left (λ x. x ≡ e) b.events f.events (h.0 t (ground (arith, in')))
              | inr out ↦ Any-right (λ x. x ≡ e) b.events f.events (h.1 (ground (arith, t, out)) l)
            ])
            final.events (All-and _ _ final.events written g.complete);
    }
      where
        low : b.cursor ≤ max c db.last_event
        low =
            p.bound (max c db.last_event) (All-imp _ _ (λ e h. omega (arith, h.1)) rows rows_after)
              (omega arith)

        written :
            All
              (λ e. is_after c job_id e ≡ true → e.id ≤ b.cursor → Any (λ x. x ≡ e) b.events)
              final.events
        written =
            x.rows (λ e. is_after c job_id e ≡ true → e.id ≤ b.cursor → Any (λ x. x ≡ e) b.events)
              (All-unselect (λ e. e.id ≤ b.cursor → Any (λ x. x ≡ e) b.events) (is_after c job_id)
                db.events p.complete)
              (λ e l t k. absurd (ground (arith, l, t, k, low)))

  module _ (idle_timeout : Option Time) (max_events : Option ℕ) (go_on : Progress → Followed) where
    after_rows-Carries :
        (l : Look) (c : ℕ) (db : Db) (b : Batch) (o : Option FollowEnd)
        → Inv db
        → Extends db final
        → IsPrefix (select (is_after c job_id) db.events) c b
        → ((q : Progress) → Carries q.cursor (go_on q))
        → Carries c (after_rows job_id idle_timeout max_events l b go_on o)
    after_rows-Carries l c db b none v x p g = joined-Carries c db v x b _ p (g _)
    after_rows-Carries l c db b (some ended) v x p g =
        let done =
          joined-Carries c db v x b (ends b.cursor ended) p (ends-Carries b.cursor ended) in
        subst (λ es. Carries c (record { events = es; cursor = b.cursor; ended = ended }))
          (append-nil b.events) done

    follow_rows-Carries :
        (l : Look) (p : Progress) (db : Db) (es : List Event)
        → Inv db
        → Extends db final
        → select (is_after p.cursor job_id) db.events ≡ es
        → ((q : Progress) → Carries q.cursor (go_on q))
        → Carries p.cursor (follow_rows job_id idle_timeout max_events l p go_on es)
    follow_rows-Carries l p db [] v x same g =
        elim (Bool-cases (is_idle idle_timeout l.clock p.idle_started)) [
          | inl t ↦ rw t (ends-Carries p.cursor FollowEnd.idle_timeout)
          | inr t ↦ rw t (g p)
        ]
    follow_rows-Carries l p db (e ∷ es) v x same g =
        let b = write_rows max_events l.interrupt (e ∷ es) p.cursor p.emitted in
        after_rows-Carries l p.cursor db b b.ended v x
          (subst (λ rs. IsPrefix rs p.cursor b) (sym same)
            (write_rows-IsPrefix max_events l.interrupt (e ∷ es) p.cursor p.emitted
              (subst (Ascending (λ x. x.id) p.cursor) same (rows-Ascending p.cursor db v x))))
          g

    follow_db-Carries :
        (l : Look) (p : Progress) (db : Db) (o : Option Db)
        → Inv db
        → Reach db (seen db o)
        → Extends (seen db o) final
        → ((q : Progress) → Carries q.cursor (go_on q))
        → Carries p.cursor (follow_db job_id idle_timeout max_events l p go_on o)
    follow_db-Carries l p db none v r x g = ends-Carries p.cursor FollowEnd.sqlite_error
    follow_db-Carries l p db (some db') v r x g =
        follow_rows-Carries l p db' (list_events p.cursor job_id 0 db') (Reach-Inv v r) x
          (sym (list_events-rows p.cursor db' (Reach-Inv v r) x)) g

    follow_look-Carries :
        (l : Look) (p : Progress) (db : Db) (stop : Bool)
        → Inv db
        → Reach db (seen db l.db)
        → Extends (seen db l.db) final
        → ((q : Progress) → Carries q.cursor (go_on q))
        → Carries p.cursor (follow_look job_id idle_timeout max_events l p go_on stop)
    follow_look-Carries l p db true v r x g = ends-Carries p.cursor FollowEnd.stopped
    follow_look-Carries l p db false v r x g = follow_db-Carries l p db l.db v r x g

  module _ (idle_timeout : Option Time) (max_events : Option ℕ) where
    follow_loop-Carries :
        (ls : List Look) (p : Progress) (db : Db)
        → Inv db
        → Linked final db ls
        → Carries p.cursor (follow_loop job_id idle_timeout max_events ls p)
    unfolding follow_loop
    follow_loop-Carries [] p db v h = ends-Carries p.cursor FollowEnd.following
    follow_loop-Carries (l ∷ ls) p db v h =
        follow_look-Carries idle_timeout max_events
          (λ q. follow_loop job_id idle_timeout max_events ls q) l p db l.stopped v h.0
          (Reach-Extends (Linked-Reach final (seen db l.db) ls h.1))
          (λ q. follow_loop-Carries ls q (seen db l.db) (Reach-Inv v h.0) h.1)

    -- From a well-formed database, with other processes doing any of their transactions before each look
    -- and after the last: what the stream writes stands in the order of the ids, each event once, all of
    -- the job asked for, above the cursor that the stream starts from and up to the one that it has
    -- reached at its end; and of the ledger as it is at the end, every event of that job between the
    -- two cursors has been written.
    pub run_events_follow-Carries :
        (since_id : Option ℕ) (started : Time) (db : Db) (looks : List Look)
        → Inv db
        → Linked final db looks
        → Carries
            (start_cursor since_id db)
            (run_events_follow job_id idle_timeout max_events since_id started db looks)
    unfolding run_events_follow
    run_events_follow-Carries since_id started db looks v h = follow_loop-Carries looks _ db v h
