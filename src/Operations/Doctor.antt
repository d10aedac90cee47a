-- ===== src/Operations/Doctor.antt =====
-- operations.doctor_operation: the checks of a queue's readiness and their summary. What the file
-- system, SQLite and the builders of the contract answer is given; texts are left out.
pub mod Readiness
use spoolctl.Base.{
  ℕ, ◌+◌, Bool, true, false, List, [], ◌∷◌, ◌++◌, Option, none, some, ltb, ◌==◌, if◌then◌else◌,
}
use spoolctl.Models.{schema_version}

pub data CheckId : Type 0 where
  config_valid db_path_resolved spool_directory_writable database_exists : CheckId
  sqlite_open_readwrite schema_version_known contract_metadata : CheckId

pub data CheckStatus : Type 0 where
  pass warn fail skip : CheckStatus

pub record Check : Type 0 where
  pub id : CheckId
  pub status : CheckStatus
  pub blocked_by : Option CheckId

abbrev pub doctor_check : CheckId → CheckStatus → Check
doctor_check id status = record { id = id; status = status; blocked_by = none }

abbrev pub doctor_skip : CheckId → CheckId → Check
doctor_skip id blocker = record { id = id; status = CheckStatus.skip; blocked_by = some blocker }

abbrev pub passed_if : CheckId → Bool → Check
passed_if id true = doctor_check id CheckStatus.pass
passed_if id false = doctor_check id CheckStatus.fail

-- How resolve_effective_config ends: with CliError about the flag --db that was given, with another
-- CliError, with an exception that is no CliError (a project file that is not UTF-8), or with a path.
pub data ConfigAnswer : Type 0 where
  bad_flag bad_config escaped resolved : ConfigAnswer

-- os.path.isdir and os.access on the directory.
pub data DirectoryAnswer : Type 0 where
  no_directory read_only writable : DirectoryAnswer

-- _read_schema_version_non_mutating: sqlite3.connect raises, the query raises, the value is no integer,
-- there is no row, or a version.
pub data OpenAnswer : Type 0 where
  cannot_open unreadable not_an_integer no_version : OpenAnswer
  version : ℕ → OpenAnswer

-- os.path.exists and os.path.isfile on the database, and what opening it gives.
pub data FileAnswer : Type 0 where
  missing not_a_file : FileAnswer
  file : OpenAnswer → FileAnswer

pub record Answers : Type 0 where
  pub config : ConfigAnswer
  pub directory : DirectoryAnswer
  pub database : FileAnswer
  pub contract : Bool

pub record Summary : Type 0 where
  pub passed : ℕ
  pub warnings : ℕ
  pub failed : ℕ
  pub skipped : ℕ

pub record Report : Type 0 where
  pub ready : Bool
  pub summary : Summary
  pub checks : List Check

abbrev pub is_writable : DirectoryAnswer → Bool
is_writable DirectoryAnswer.writable = true
is_writable _ = false

unfoldable pub version_status : ℕ → CheckStatus
version_status found =
    if ltb found schema_version
    then CheckStatus.fail
    else if ltb schema_version found
    then CheckStatus.fail
    else CheckStatus.pass

abbrev pub opened : CheckStatus → List Check
opened status =
    doctor_check CheckId.sqlite_open_readwrite CheckStatus.pass
    ∷ doctor_check CheckId.schema_version_known status
    ∷ []

abbrev pub not_opened : List Check
not_opened =
    doctor_check CheckId.sqlite_open_readwrite CheckStatus.fail
    ∷ doctor_skip CheckId.schema_version_known CheckId.sqlite_open_readwrite
    ∷ []

unfoldable pub open_checks : OpenAnswer → List Check
unfolding version_status
open_checks OpenAnswer.cannot_open = not_opened
open_checks OpenAnswer.unreadable = not_opened
open_checks OpenAnswer.not_an_integer = opened CheckStatus.fail
open_checks OpenAnswer.no_version = opened CheckStatus.fail
open_checks (OpenAnswer.version found) = opened (version_status found)

abbrev pub no_database : List Check
no_database =
    doctor_check CheckId.database_exists CheckStatus.fail
    ∷ doctor_skip CheckId.sqlite_open_readwrite CheckId.database_exists
    ∷ doctor_skip CheckId.schema_version_known CheckId.database_exists
    ∷ []

unfoldable pub database_checks : FileAnswer → List Check
unfolding open_checks
database_checks FileAnswer.missing = no_database
database_checks FileAnswer.not_a_file = no_database
database_checks (FileAnswer.file answer) =
    doctor_check CheckId.database_exists CheckStatus.pass ∷ open_checks answer

abbrev pub skipped_all : List Check
skipped_all =
    doctor_check CheckId.config_valid CheckStatus.fail
    ∷ doctor_skip CheckId.db_path_resolved CheckId.config_valid
    ∷ doctor_skip CheckId.spool_directory_writable CheckId.config_valid
    ∷ doctor_skip CheckId.database_exists CheckId.config_valid
    ∷ doctor_skip CheckId.sqlite_open_readwrite CheckId.config_valid
    ∷ doctor_skip CheckId.schema_version_known CheckId.config_valid
    ∷ []

abbrev pub path_checks : DirectoryAnswer → List Check
path_checks directory =
    doctor_check CheckId.config_valid CheckStatus.pass
    ∷ doctor_check CheckId.db_path_resolved CheckStatus.pass
    ∷ passed_if CheckId.spool_directory_writable (is_writable directory)
    ∷ []

abbrev pub tally : CheckStatus → Summary → Summary
tally CheckStatus.pass s = record s { passed = s.passed + 1 }
tally CheckStatus.warn s = record s { warnings = s.warnings + 1 }
tally CheckStatus.fail s = record s { failed = s.failed + 1 }
tally CheckStatus.skip s = record s { skipped = s.skipped + 1 }

-- _doctor_summary
unfoldable pub doctor_summary : List Check → Summary
doctor_summary [] = record { passed = 0; warnings = 0; failed = 0; skipped = 0 }
doctor_summary (c ∷ checks) = tally c.status (doctor_summary checks)

unfoldable pub report_of : List Check → Report
unfolding doctor_summary
report_of checks =
    let summary = doctor_summary checks in
    record { ready = summary.failed == 0; summary = summary; checks = checks }

-- `none`: the CliError about the flag is raised again, or another exception is not caught.
unfoldable pub doctor_after : ConfigAnswer → Answers → Option Report
unfolding report_of database_checks
doctor_after ConfigAnswer.bad_flag a = none
doctor_after ConfigAnswer.escaped a = none
doctor_after ConfigAnswer.bad_config a =
    some (report_of (skipped_all ++ passed_if CheckId.contract_metadata a.contract ∷ []))
doctor_after ConfigAnswer.resolved a = some (
    report_of (
      path_checks a.directory
      ++ (database_checks a.database ++ passed_if CheckId.contract_metadata a.contract ∷ [])))

unfoldable pub doctor_operation : Answers → Option Report
unfolding doctor_after
doctor_operation a = doctor_after a.config a
