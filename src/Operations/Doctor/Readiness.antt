-- ===== src/Operations/Doctor/Readiness.antt =====
-- What the doctor's report says.
use spoolctl.Base.{
  ℕ, ◌+◌, ◌≡◌, refl, sym, ◌∙◌, inl, inr, Bool-cases, Bool, true, false, ◌&&◌, List, [], ◌∷◌, ◌++◌,
  map, Option, none, some, ◌==◌, arith,
}
use spoolctl.Models.{schema_version}
use spoolctl.Operations.Doctor.{
  CheckId, CheckStatus, Check, ConfigAnswer, OpenAnswer, FileAnswer, Answers, Report, is_writable,
  doctor_check, no_database, not_opened, opened, skipped_all, passed_if, version_status,
  open_checks, database_checks, doctor_summary, report_of, doctor_after, doctor_operation,
}

-- The seven checks, in their order.
abbrev pub all_checks : List CheckId
all_checks =
    CheckId.config_valid ∷ CheckId.db_path_resolved ∷ CheckId.spool_directory_writable
    ∷ CheckId.database_exists ∷ CheckId.sqlite_open_readwrite ∷ CheckId.schema_version_known
    ∷ CheckId.contract_metadata ∷ []

abbrev pub is_current : FileAnswer → Bool
is_current (FileAnswer.file (OpenAnswer.version found)) = found == schema_version
is_current _ = false

abbrev pub is_resolved : ConfigAnswer → Bool
is_resolved ConfigAnswer.resolved = true
is_resolved _ = false

-- Everything that a queue needs: a good configuration, a writable directory, a database of this
-- version, and a contract that serialises.
abbrev pub is_ready : Answers → Bool
is_ready a =
    is_resolved a.config && (is_writable a.directory && (is_current a.database && a.contract))

-- What a report says.
pub record Sound (a : Answers) (r : Report) : Type 0 where
  pub ids : map (λ c. c.id) r.checks ≡ all_checks
  pub ready : r.ready ≡ is_ready a
  pub counts : r.summary.passed + r.summary.warnings + r.summary.failed + r.summary.skipped ≡ 7

pub data DoctorMeans (a : Answers) : Option Report → Type 0 where
  reported : (r : Report) → Sound a r → DoctorMeans a (some r)
  raised : a.config ≡ ConfigAnswer.bad_flag → DoctorMeans a none
  uncaught : a.config ≡ ConfigAnswer.escaped → DoctorMeans a none

-- All the checks where the configuration is resolved, about the three of the database.
abbrev completed : List Check → Bool → Bool → List Check
completed three writes builds =
    doctor_check CheckId.config_valid CheckStatus.pass
    ∷ doctor_check CheckId.db_path_resolved CheckStatus.pass
    ∷ passed_if CheckId.spool_directory_writable writes
    ∷ (three ++ passed_if CheckId.contract_metadata builds ∷ [])

-- A sound report that says whether the queue is ready.
record Says (ok : Bool) (r : Report) : Type 0 where
  ids : map (λ c. c.id) r.checks ≡ all_checks
  ready : r.ready ≡ ok
  counts : r.summary.passed + r.summary.warnings + r.summary.failed + r.summary.skipped ≡ 7

-- The checks of the database, which all pass exactly when `ok`.
abbrev Decide : Bool → List Check → Type 0
Decide ok three =
    (writes builds : Bool)
    → Says (writes && (ok && builds)) (report_of (completed three writes builds))

no_database-Decide : Decide false no_database
unfolding report_of doctor_summary
no_database-Decide true true = record { ids = refl; ready = refl; counts = refl }
no_database-Decide true false = record { ids = refl; ready = refl; counts = refl }
no_database-Decide false true = record { ids = refl; ready = refl; counts = refl }
no_database-Decide false false = record { ids = refl; ready = refl; counts = refl }

not_opened-Decide :
    Decide false (doctor_check CheckId.database_exists CheckStatus.pass ∷ not_opened)
unfolding report_of doctor_summary
not_opened-Decide true true = record { ids = refl; ready = refl; counts = refl }
not_opened-Decide true false = record { ids = refl; ready = refl; counts = refl }
not_opened-Decide false true = record { ids = refl; ready = refl; counts = refl }
not_opened-Decide false false = record { ids = refl; ready = refl; counts = refl }

bad_version-Decide :
    Decide false (doctor_check CheckId.database_exists CheckStatus.pass ∷ opened CheckStatus.fail)
unfolding report_of doctor_summary
bad_version-Decide true true = record { ids = refl; ready = refl; counts = refl }
bad_version-Decide true false = record { ids = refl; ready = refl; counts = refl }
bad_version-Decide false true = record { ids = refl; ready = refl; counts = refl }
bad_version-Decide false false = record { ids = refl; ready = refl; counts = refl }

good_version-Decide :
    Decide true (doctor_check CheckId.database_exists CheckStatus.pass ∷ opened CheckStatus.pass)
unfolding report_of doctor_summary
good_version-Decide true true = record { ids = refl; ready = refl; counts = refl }
good_version-Decide true false = record { ids = refl; ready = refl; counts = refl }
good_version-Decide false true = record { ids = refl; ready = refl; counts = refl }
good_version-Decide false false = record { ids = refl; ready = refl; counts = refl }

version-Decide :
    (found : ℕ)
    → Decide
        (found == schema_version)
        (doctor_check CheckId.database_exists CheckStatus.pass ∷ opened (version_status found))
version-Decide found = elim (Bool-cases (found == schema_version)) [
  | inl t ↦
      let status : version_status found ≡ CheckStatus.pass =
        unfold version_status in ground (arith, t) in
      rw (t, status) good_version-Decide
  | inr t ↦
      let status : version_status found ≡ CheckStatus.fail =
        unfold version_status in ground (arith, t) in
      rw (t, status) bad_version-Decide
]

database-Decide : (database : FileAnswer) → Decide (is_current database) (database_checks database)
unfolding database_checks open_checks
database-Decide FileAnswer.missing = no_database-Decide
database-Decide FileAnswer.not_a_file = no_database-Decide
database-Decide (FileAnswer.file OpenAnswer.cannot_open) = not_opened-Decide
database-Decide (FileAnswer.file OpenAnswer.unreadable) = not_opened-Decide
database-Decide (FileAnswer.file OpenAnswer.not_an_integer) = bad_version-Decide
database-Decide (FileAnswer.file OpenAnswer.no_version) = bad_version-Decide
database-Decide (FileAnswer.file (OpenAnswer.version found)) = version-Decide found

skipped-Says :
    (builds : Bool)
    → Says false (report_of (skipped_all ++ passed_if CheckId.contract_metadata builds ∷ []))
unfolding report_of doctor_summary
skipped-Says true = record { ids = refl; ready = refl; counts = refl }
skipped-Says false = record { ids = refl; ready = refl; counts = refl }

module _ (a : Answers) where
  Says-DoctorMeans : (ok : Bool) (r : Report) → is_ready a ≡ ok → Says ok r → DoctorMeans a (some r)
  Says-DoctorMeans ok r e h =
      reported r (record { ids = h.ids; ready = h.ready ∙ sym e; counts = h.counts })

  doctor_after-Means : (c : ConfigAnswer) → a.config ≡ c → DoctorMeans a (doctor_after c a)
  unfolding doctor_after
  doctor_after-Means ConfigAnswer.bad_flag e = raised e
  doctor_after-Means ConfigAnswer.escaped e = uncaught e
  doctor_after-Means ConfigAnswer.bad_config e =
      Says-DoctorMeans false _ (rw e refl) (skipped-Says a.contract)
  doctor_after-Means ConfigAnswer.resolved e =
      Says-DoctorMeans (is_writable a.directory && (is_current a.database && a.contract)) _
        (rw e refl) (database-Decide a.database (is_writable a.directory) a.contract)

-- The doctor raises only for a bad --db flag, or where the reading of the configuration raises an
-- exception that is no CliError, as it does for a project file that is not UTF-8. Otherwise its report has the seven checks in their order; the counts of the summary add up to seven; and it says `ready` exactly when the configuration is
-- good, the directory is writable, the database is a file that can be read and whose version is the
-- current one, and the contract serialises.
pub doctor_operation-Means : (a : Answers) → DoctorMeans a (doctor_operation a)
unfolding doctor_operation
doctor_operation-Means a = doctor_after-Means a a.config refl
