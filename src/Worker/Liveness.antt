-- ===== src/Worker/Liveness.antt =====
-- worker.is_worker_pid_dead: proof that the owner of a lock is dead. The answers of os.kill and of
-- `ps` are arguments.
use spoolctl.Base.{
  ℕ, ◌≡◌, refl, Bool, true, false, not, String, arith, ◌==◌, if◌then◌else◌, str_eq, ◌↔◌, is_some,
}
use text.Mathlib.Text.{find?}

-- os.kill(pid, 0): ProcessLookupError, PermissionError, or no error.
pub data Kill : Type 0 where
  no_process not_permitted alive : Kill

-- The run of `ps`: OSError or SubprocessError (other exceptions, which is_worker_pid_dead does not catch,
-- are not modelled), or its exit code with the stripped output.
pub data Ps : Type 0 where
  ps_raised : Ps
  ps_ended : ℕ → String → Ps

pub record Probe : Type 0 where
  pub kill : Kill
  pub ps : Ps

-- WORKER_CMDLINE_MARKER in cmdline
unfoldable pub mentions : String → Bool
mentions cmdline = is_some (find? cmdline "spoolctl")

unfoldable pub judge_cmdline : ℕ → String → Bool
judge_cmdline returncode cmdline =
    if not (returncode == 0)
    then false
    else if str_eq cmdline ""
    then false
    else not (mentions cmdline)

unfoldable pub is_worker_pid_dead : Probe → Bool
unfolding judge_cmdline
is_worker_pid_dead p = elim p.kill [
  | no_process ↦ true
  | not_permitted ↦ false
  | alive ↦ elim p.ps [
    | ps_raised ↦ false
    | ps_ended returncode cmdline ↦ judge_cmdline returncode cmdline
  ]
]

-- What counts as proof of death: there is no such process, or `ps` succeeds and shows a command
-- line, not empty, that is not a worker's.
pub data Dead (p : Probe) : Type 0 where
  gone : p.kill ≡ no_process → Dead p
  recycled :
      (cmdline : String)
      → p.kill ≡ alive
      → p.ps ≡ ps_ended 0 cmdline
      → str_eq cmdline "" ≡ false
      → mentions cmdline ≡ false
      → Dead p

judge_cmdline_lem :
    (returncode : ℕ) (cmdline : String)
    → judge_cmdline returncode cmdline ≡ true
    → (returncode ≡ 0) × (str_eq cmdline "" ≡ false) × (mentions cmdline ≡ false)
unfolding judge_cmdline
judge_cmdline_lem returncode cmdline e = ground arith

Dead-of :
    (kill : Kill) (ps : Ps)
    → is_worker_pid_dead (record { kill = kill; ps = ps }) ≡ true
    → Dead (record { kill = kill; ps = ps })
unfolding is_worker_pid_dead
Dead-of no_process ps e = gone refl
Dead-of not_permitted ps e = cc
Dead-of alive ps_raised e = cc
Dead-of alive (ps_ended returncode cmdline) e =
    let (zero_code, shown, other) = judge_cmdline_lem returncode cmdline e in
    recycled cmdline refl (rw zero_code refl) shown other

-- The probe says "dead" exactly on proof; anything inconclusive (no permission, a failing or
-- silent `ps`) counts as alive.
pub is_worker_pid_dead-iff-Dead : (p : Probe) → (is_worker_pid_dead p ≡ true) ↔ Dead p
unfolding is_worker_pid_dead
is_worker_pid_dead-iff-Dead p = (Dead-of p.kill p.ps, back)
  where
    back : Dead p → is_worker_pid_dead p ≡ true
    back (gone e) = rw e refl
    back (recycled cmdline e f shown other) = rw (e, f) (rw (shown, other) refl)
