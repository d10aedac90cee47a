-- ===== src/Cli/Follow.antt =====
-- cli._run_events_follow: the ledger as a stream. It is given the list of its looks at the database:
-- what each reads, the clock, and the signals; the sleeps between are left out.
pub mod Written
pub mod Stream
pub mod Bounded
use spoolctl.Base.{
  ℕ, zero, suc, ◌+◌, ◌-◌, Bool, true, false, List, [], ◌∷◌, ◌++◌, Option, none, some, leb,
  if◌then◌else◌,
}
use spoolctl.Models.{Time, Event}
use spoolctl.Store.Db.{Db}
use spoolctl.Store.Queries.{list_events, event_high_water}
use spoolctl.Operations.Errors.{exit_environment}

-- What ends the writing of the rows of one look: nothing, a signal that is seen, or BrokenPipeError,
-- each after so many events.
pub data Interrupt : Type 0 where
  undisturbed : Interrupt
  signalled broken : ℕ → Interrupt

-- `db` is none where list_events raises sqlite3.Error; `clock` is read where there are no rows, and
-- `written_at` after the last event that is written.
pub record Look : Type 0 where
  pub stopped : Bool
  pub db : Option Db
  pub clock : Time
  pub written_at : Time
  pub interrupt : Interrupt

-- `following` is a stream that the looks given do not end.
pub data FollowEnd : Type 0 where
  following stopped idle_timeout max_events pipe_closed sqlite_error : FollowEnd

pub record Followed : Type 0 where
  pub events : List Event
  pub cursor : ℕ
  pub ended : FollowEnd

pub data ControlFrame : Type 0 where
  end error : FollowEnd → ControlFrame

-- The frame behind the events, with --json.
unfoldable pub control_frame : Bool → FollowEnd → Option ControlFrame
control_frame true FollowEnd.idle_timeout = some (end FollowEnd.idle_timeout)
control_frame true FollowEnd.max_events = some (end FollowEnd.max_events)
control_frame true FollowEnd.sqlite_error = some (error FollowEnd.sqlite_error)
control_frame json ended = none

unfoldable pub follow_exit : FollowEnd → ℕ
follow_exit FollowEnd.sqlite_error = exit_environment
follow_exit ended = 0

abbrev pub interrupted : Interrupt → Option FollowEnd
interrupted (signalled zero) = some FollowEnd.stopped
interrupted (broken zero) = some FollowEnd.pipe_closed
interrupted i = none

abbrev pub one_later : Interrupt → Interrupt
one_later undisturbed = undisturbed
one_later (signalled n) = signalled (n - 1)
one_later (broken n) = broken (n - 1)

abbrev pub is_reached : Option ℕ → ℕ → Bool
is_reached none n = false
is_reached (some m) n = leb m n

pub record Batch : Type 0 where
  pub events : List Event
  pub cursor : ℕ
  pub emitted : ℕ
  pub ended : Option FollowEnd

pub record Progress : Type 0 where
  pub cursor : ℕ
  pub emitted : ℕ
  pub idle_started : Time

abbrev pub write_first : Event → Batch → Batch
write_first e b = record b { events = e ∷ b.events }

abbrev pub follow_first : List Event → Followed → Followed
follow_first es f = record f { events = es ++ f.events }

module _ (max_events : Option ℕ) where
  -- for event in rows
  unfoldable pub write_rows : Interrupt → List Event → ℕ → ℕ → Batch
  write_rows i [] cursor emitted = record {
    events = [];
    cursor = cursor;
    emitted = emitted;
    ended = none;
  }
  write_rows i (e ∷ es) cursor emitted =
      let rest = write_first e (write_rows (one_later i) es e.id (emitted + 1)) in
      elim (interrupted i) [
        | some ended ↦ record {
          events = [];
          cursor = cursor;
          emitted = emitted;
          ended = some ended;
        }
        | none ↦
            if is_reached max_events (emitted + 1)
            then record {
              events = e ∷ [];
              cursor = e.id;
              emitted = emitted + 1;
              ended = some FollowEnd.max_events;
            }
            else rest
      ]

abbrev pub start_cursor : Option ℕ → Db → ℕ
start_cursor none db = event_high_water db
start_cursor (some since_id) db = since_id

abbrev pub is_idle : Option Time → Time → Time → Bool
is_idle none clock idle_started = false
is_idle (some limit) clock idle_started = leb limit (clock - idle_started)

abbrev pub ends : ℕ → FollowEnd → Followed
ends cursor ended = record { events = []; cursor = cursor; ended = ended }

module _ (job_id : Option ℕ) (idle_timeout : Option Time) (max_events : Option ℕ) where
  -- Behind the rows of a look: the stream ends, or goes on.
  abbrev pub after_rows : Look → Batch → (Progress → Followed) → Option FollowEnd → Followed
  after_rows l b go_on (some ended) = record { events = b.events; cursor = b.cursor; ended = ended }
  after_rows l b go_on none =
      follow_first b.events
        (go_on (record { cursor = b.cursor; emitted = b.emitted; idle_started = l.written_at }))

  abbrev pub follow_rows : Look → Progress → (Progress → Followed) → List Event → Followed
  follow_rows l p go_on [] =
      if is_idle idle_timeout l.clock p.idle_started
      then ends p.cursor FollowEnd.idle_timeout
      else go_on p
  follow_rows l p go_on (e ∷ es) =
      let b = write_rows max_events l.interrupt (e ∷ es) p.cursor p.emitted in
      after_rows l b go_on b.ended

  abbrev pub follow_db : Look → Progress → (Progress → Followed) → Option Db → Followed
  follow_db l p go_on none = ends p.cursor FollowEnd.sqlite_error
  follow_db l p go_on (some db) = follow_rows l p go_on (list_events p.cursor job_id 0 db)

  -- while not stop
  abbrev pub follow_look : Look → Progress → (Progress → Followed) → Bool → Followed
  follow_look l p go_on true = ends p.cursor FollowEnd.stopped
  follow_look l p go_on false = follow_db l p go_on l.db

  unfoldable pub follow_loop : List Look → Progress → Followed
  unfolding write_rows
  follow_loop [] p = ends p.cursor FollowEnd.following
  follow_loop (l ∷ ls) p = follow_look l p (λ q. follow_loop ls q) l.stopped

  unfoldable pub run_events_follow : Option ℕ → Time → Db → List Look → Followed
  unfolding follow_loop
  run_events_follow since_id started db looks =
      follow_loop looks
        (record { cursor = start_cursor since_id db; emitted = 0; idle_started = started })
