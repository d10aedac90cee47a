-- ===== src/Cli/Follow/Bounded.antt =====
-- How much cli._run_events_follow writes, and when it gives up.
use spoolctl.Base.{
  ℕ, ◌+◌, ◌≤◌, ◌<◌, ◌≡◌, refl, inl, inr, Bool, true, false, List, [], ◌∷◌, Option, none, some,
  length, length-append, arith, Bool-cases,
}
use spoolctl.Models.{Time, Event}
use spoolctl.Store.Db.{Db}
use spoolctl.Store.Queries.{list_events}
use spoolctl.Cli.Follow.{
  FollowEnd, Look, Batch, Progress, Followed, is_idle, after_rows, follow_rows, follow_db,
  follow_look, follow_loop, run_events_follow,
}
use spoolctl.Cli.Follow.Written.{IsLimited, write_rows-IsLimited}

module _ (job_id : Option ℕ) (idle_timeout : Option Time) (m : ℕ) where
  -- At most so many events in all, and exactly so many where the stream says so.
  pub record IsBounded (emitted : ℕ) (f : Followed) : Type 0 where
    pub at_most : emitted + length f.events ≤ m
    pub exact : f.ended ≡ FollowEnd.max_events → emitted + length f.events ≡ m

  module _ (go_on : Progress → Followed)
      (g : (q : Progress) → q.emitted < m → IsBounded q.emitted (go_on q)) where
    after_rows-IsBounded :
        (l : Look) (n : ℕ) (b : Batch) (o : Option FollowEnd)
        → b.ended ≡ o
        → IsLimited m n b
        → IsBounded n (after_rows job_id idle_timeout (some m) l b go_on o)
    after_rows-IsBounded l n b none e h =
        let r =
          g (record { cursor = b.cursor; emitted = b.emitted; idle_started = l.written_at })
            (h.more e) in
        record {
          at_most = omega (arith, r.at_most, h.counted, length-append {0} b.events _);
          exact = λ t. omega (arith, r.exact t, h.counted, length-append {0} b.events _);
        }
    after_rows-IsBounded l n b (some ended) e h = record {
      at_most = omega (arith, h.counted, h.at_most);
      exact = λ t. omega (arith, h.counted, h.exact (cc (e, t)));
    }

    follow_rows-IsBounded :
        (l : Look) (p : Progress) (es : List Event)
        → p.emitted < m
        → IsBounded p.emitted (follow_rows job_id idle_timeout (some m) l p go_on es)
    follow_rows-IsBounded l p [] less =
        elim (Bool-cases (is_idle idle_timeout l.clock p.idle_started)) [
          | inl t ↦ rw t (record { at_most = omega arith; exact = λ t. cc })
          | inr t ↦ rw t (g p less)
        ]
    follow_rows-IsBounded l p (e ∷ es) less =
        after_rows-IsBounded l p.emitted _ _ refl
          (write_rows-IsLimited m l.interrupt (e ∷ es) p.cursor p.emitted less)

    follow_db-IsBounded :
        (l : Look) (p : Progress) (o : Option Db)
        → p.emitted < m
        → IsBounded p.emitted (follow_db job_id idle_timeout (some m) l p go_on o)
    follow_db-IsBounded l p none less = record { at_most = omega arith; exact = λ t. cc }
    follow_db-IsBounded l p (some db) less =
        follow_rows-IsBounded l p (list_events p.cursor job_id 0 db) less

    follow_look-IsBounded :
        (l : Look) (p : Progress) (stop : Bool)
        → p.emitted < m
        → IsBounded p.emitted (follow_look job_id idle_timeout (some m) l p go_on stop)
    follow_look-IsBounded l p true less = record { at_most = omega arith; exact = λ t. cc }
    follow_look-IsBounded l p false less = follow_db-IsBounded l p l.db less

  follow_loop-IsBounded :
      (ls : List Look) (p : Progress)
      → p.emitted < m
      → IsBounded p.emitted (follow_loop job_id idle_timeout (some m) ls p)
  unfolding follow_loop
  follow_loop-IsBounded [] p less = record { at_most = omega arith; exact = λ t. cc }
  follow_loop-IsBounded (l ∷ ls) p less =
      follow_look-IsBounded (λ q. follow_loop job_id idle_timeout (some m) ls q)
        (λ q h. follow_loop-IsBounded ls q h) l p l.stopped less

  -- With --max-events of at least one, the stream writes at most so many events, whatever its looks
  -- find; and it ends with the frame "max_events" only when it has written exactly so many.
  pub run_events_follow-IsBounded :
      (since_id : Option ℕ) (started : Time) (db : Db) (looks : List Look)
      → 0 < m
      → IsBounded 0 (run_events_follow job_id idle_timeout (some m) since_id started db looks)
  unfolding run_events_follow
  run_events_follow-IsBounded since_id started db looks h = follow_loop-IsBounded looks _ h
