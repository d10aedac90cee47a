-- ===== src/Store/Db.antt =====
-- The database of spoolctl/store.py: the tables jobs, attempts and job_events, each as the list of
-- its rows in the order of their ids, with the high-water marks of AUTOINCREMENT (sqlite_sequence).
-- A transaction is a function to the new database; ROLLBACK gives the old one.
use spoolctl.Base.{
  ℕ, suc, String, Bool, ◌&&◌, List, [], ◌∷◌, ◌++◌, Option, ltb, ◌==◌, sql_eq, str_eq,
}
use spoolctl.Models.{Time, Job, Attempt, Event, EventType, Detail, is_running, is_att_running}
use spoolctl.Sql.{select, first, order_by}

pub record Db : Type 0 where
  pub jobs : List Job
  pub attempts : List Attempt
  pub events : List Event
  pub last_job : ℕ
  pub last_attempt : ℕ
  pub last_event : ℕ

abbrev pub empty : Db
empty = record {
  jobs = [];
  attempts = [];
  events = [];
  last_job = 0;
  last_attempt = 0;
  last_event = 0;
}

-- WHERE id=?
abbrev pub has_id : ℕ → Job → Bool
has_id k j = j.id == k

-- WHERE job_id=?, on attempts and on job_events.
abbrev pub of_job : ℕ → Attempt → Bool
of_job k a = a.job_id == k

abbrev pub event_of_job : ℕ → Event → Bool
event_of_job k e = e.job_id == k

-- WHERE job_id=? AND state='running'
abbrev pub running_of_job : ℕ → Attempt → Bool
running_of_job k a = of_job k a && is_att_running a.state

-- _OWNERSHIP_GUARD: WHERE id=? AND state='running' AND locked_by=? AND locked_pid=?
abbrev pub owned_by : ℕ → String → ℕ → Job → Bool
owned_by k worker_id worker_pid j =
    has_id k j
    && (is_running j.state
        && (sql_eq str_eq j.locked_by worker_id && sql_eq ◌==◌ j.locked_pid worker_pid))

unfoldable pub get_job : ℕ → Db → Option Job
get_job k db = first (has_id k) db.jobs

abbrev pub by_attempt_no : Attempt → Attempt → Bool
by_attempt_no a b = ltb a.attempt_no b.attempt_no

-- SELECT * FROM attempts WHERE id=?
unfoldable pub get_attempt : ℕ → Db → Option Attempt
get_attempt k db = first (λ a. a.id == k) db.attempts

-- ... WHERE job_id=? ORDER BY attempt_no
unfoldable pub get_attempts : ℕ → Db → List Attempt
get_attempts k db = order_by by_attempt_no (select (of_job k) db.attempts)

unfoldable pub get_events : ℕ → Db → List Event
get_events k db = select (event_of_job k) db.events

unfoldable pub add_event : ℕ → Time → EventType → Option String → Option Detail → Db → Db
add_event job_id at event worker_id detail db = record db {
  events = db.events ++ row ∷ [];
  last_event = suc db.last_event;
}
  where
    row : Event
    row = record {
      id = suc db.last_event;
      job_id = job_id;
      at = at;
      event = event;
      worker_id = worker_id;
      detail = detail;
    }
