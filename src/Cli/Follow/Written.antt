-- ===== src/Cli/Follow/Written.antt =====
-- The rows of one look that cli._run_events_follow writes.
use spoolctl.Base.{
  ℕ, ◌+◌, ◌≤◌, ◌<◌, ◌≡◌, ◌≢◌, refl, inl, inr, Bool, true, false, List, [], ◌∷◌, ◌++◌, Option, none,
  some, All, length, arith, leb, if◌then◌else◌, Bool-cases,
}
use spoolctl.Models.{Event}
use spoolctl.Sql.Keys.{Ascending, Ascending-above}
use spoolctl.Sql.Laws.{All-imp}
use spoolctl.Operations.Waiting.{Any}
use spoolctl.Cli.Follow.{
  Interrupt, undisturbed, signalled, broken, FollowEnd, Batch, interrupted, one_later, is_reached,
  write_first, write_rows,
}

-- What is written of the rows: the first of them, up to the cursor.
pub record IsPrefix (rows : List Event) (cursor : ℕ) (b : Batch) : Type 1 where
  pub forward : cursor ≤ b.cursor
  pub reached : All (λ e. e.id ≤ b.cursor) b.events
  pub complete : All (λ e. e.id ≤ b.cursor → Any (λ x. x ≡ e) b.events) rows
  pub joins :
      (ys : List Event)
      → Ascending (λ e. e.id) b.cursor ys
      → Ascending (λ e. e.id) cursor (b.events ++ ys)
  pub keeps : (P : Event → Type 0) → All P rows → All P b.events
  pub bound : (m : ℕ) → All (λ e. e.id ≤ m) rows → cursor ≤ m → b.cursor ≤ m

-- How many are written, in all, against the number asked for.
pub record IsLimited (m emitted : ℕ) (b : Batch) : Type 0 where
  pub counted : b.emitted ≡ emitted + length b.events
  pub at_most : b.emitted ≤ m
  pub more : b.ended ≡ none → b.emitted < m
  pub exact : b.ended ≡ some FollowEnd.max_events → b.emitted ≡ m

abbrev none_written : ℕ → ℕ → Option FollowEnd → Batch
none_written cursor emitted ended = record {
  events = [];
  cursor = cursor;
  emitted = emitted;
  ended = ended;
}

beyond :
    (c : ℕ) (rows : List Event)
    → All (λ e. c < e.id) rows
    → All (λ e. e.id ≤ c → Any (λ x. x ≡ e) []) rows
beyond c rows h = All-imp (λ e. c < e.id) _ (λ e l k. absurd (omega (arith, l, k))) rows h

none_written-IsPrefix :
    (rows : List Event) (c n : ℕ) (o : Option FollowEnd)
    → All (λ e. c < e.id) rows
    → IsPrefix rows c (none_written c n o)
none_written-IsPrefix rows c n o above = record {
  forward = omega arith;
  reached = tt;
  complete = beyond c rows above;
  joins = λ ys h. h;
  keeps = λ P h. tt;
  bound = λ m h l. l;
}

first_written-IsPrefix :
    (e : Event) (es : List Event) (c : ℕ) (b : Batch)
    → c < e.id
    → IsPrefix es e.id b
    → IsPrefix (e ∷ es) c (write_first e b)
first_written-IsPrefix e es c b above p = record {
  forward = omega (arith, p.forward, above);
  reached = (p.forward, p.reached);
  complete = (λ _. inl refl, All-imp _ _ (λ x h l. inr (h l)) es p.complete);
  joins = λ ys h. (above, p.joins ys h);
  keeps = λ P h. (h.0, p.keeps P h.1);
  bound = λ m h l. p.bound m h.1 h.0;
}

interrupted-ne-max : (i : Interrupt) → interrupted i ≢ some FollowEnd.max_events
interrupted-ne-max undisturbed e = cc
interrupted-ne-max (signalled n) e = ground (arith, e)
interrupted-ne-max (broken n) e = ground (arith, e)

module _ (max_events : Option ℕ) where
  -- One event, unless something intervenes, and then the rest.
  abbrev row_written : Event → ℕ → ℕ → Option FollowEnd → Bool → Batch → Batch
  row_written e c n o last rest = elim o [
    | some ended ↦ none_written c n (some ended)
    | none ↦
        if last
        then record {
          events = e ∷ [];
          cursor = e.id;
          emitted = n + 1;
          ended = some FollowEnd.max_events;
        }
        else write_first e rest
  ]

  row_written-IsPrefix :
      (e : Event) (es : List Event) (c n : ℕ) (b : Batch) (o : Option FollowEnd) (last : Bool)
      → Ascending (λ x. x.id) c (e ∷ es)
      → IsPrefix es e.id b
      → IsPrefix (e ∷ es) c (row_written e c n o last b)
  row_written-IsPrefix e es c n b (some ended) last h p =
      none_written-IsPrefix (e ∷ es) c n (some ended) (Ascending-above (λ x. x.id) c (e ∷ es) h)
  row_written-IsPrefix e es c n b none true h p =
      first_written-IsPrefix e es c (none_written e.id (n + 1) (some FollowEnd.max_events)) h.0
        (none_written-IsPrefix es e.id (n + 1) _ (Ascending-above (λ x. x.id) e.id es h.1))
  row_written-IsPrefix e es c n b none false h p = first_written-IsPrefix e es c b h.0 p

  pub write_rows-IsPrefix :
      (i : Interrupt) (rows : List Event) (c n : ℕ)
      → Ascending (λ e. e.id) c rows
      → IsPrefix rows c (write_rows max_events i rows c n)
  unfolding write_rows
  write_rows-IsPrefix i [] c n h = none_written-IsPrefix [] c n none tt
  write_rows-IsPrefix i (e ∷ es) c n h =
      row_written-IsPrefix e es c n (write_rows max_events (one_later i) es e.id (n + 1))
        (interrupted i) (is_reached max_events (n + 1)) h
        (write_rows-IsPrefix (one_later i) es e.id (n + 1) h.1)

module _ (m : ℕ) where
  row_written-IsLimited :
      (e : Event) (c n : ℕ) (b : Batch) (o : Option FollowEnd)
      → o ≢ some FollowEnd.max_events
      → n < m
      → (n + 1 < m → IsLimited m (n + 1) b)
      → IsLimited m n (row_written (some m) e c n o (leb m (n + 1)) b)
  row_written-IsLimited e c n b (some ended) ne l rest = record {
    counted = omega arith;
    at_most = omega arith;
    more = λ _. l;
    exact = λ t. absurd (ne t);
  }
  row_written-IsLimited e c n b none ne l rest = elim (Bool-cases (leb m (n + 1))) [
    | inl t ↦ rw t (record {
      counted = omega arith;
      at_most = omega arith;
      more = λ u. cc;
      exact = λ u. ground (arith, t, l);
    })
    | inr t ↦
        let r = rest (ground (arith, t)) in
        rw t (record {
          counted = omega (arith, r.counted);
          at_most = r.at_most;
          more = r.more;
          exact = r.exact;
        })
  ]

  pub write_rows-IsLimited :
      (i : Interrupt) (rows : List Event) (c n : ℕ)
      → n < m
      → IsLimited m n (write_rows (some m) i rows c n)
  unfolding write_rows
  write_rows-IsLimited i [] c n l = record {
    counted = omega arith;
    at_most = omega arith;
    more = λ _. l;
    exact = λ t. cc;
  }
  write_rows-IsLimited i (e ∷ es) c n l =
      row_written-IsLimited e c n (write_rows (some m) (one_later i) es e.id (n + 1))
        (interrupted i) (interrupted-ne-max i) l
        (write_rows-IsLimited (one_later i) es e.id (n + 1))
