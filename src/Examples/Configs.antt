-- ===== src/Examples/Configs.antt =====
-- The theorems on the project file and on the doctor.
use spoolctl.Base.{◌≡◌, refl, true, false, [], ◌∷◌, ◌++◌, none, some}
use spoolctl.Models.Suggest.{Word, codes}
use spoolctl.Config.{
  text, FileContents, object, PathLibrary, is_value, default_config_path, validate_config_file,
  resolve_effective_config,
}
use spoolctl.Operations.Doctor.{
  ConfigAnswer, DirectoryAnswer, OpenAnswer, FileAnswer, Answers, doctor_operation,
}
use spoolctl.Operations.Doctor.Readiness.{DoctorMeans, doctor_operation-Means}
use spoolctl.Config.Agreement.{validate_config_file-agrees}

-- Paths as they are, without links.
abbrev plain_paths : PathLibrary
plain_paths = record {
  realpath = λ p. p;
  join = λ a b. a ++ 47 ∷ b;
  is_abs = λ p. false;
  dirname = λ p. p;
  cwd = codes "/";
}

abbrev one_file : Word → FileContents
one_file p = object ((codes "db_path", text (codes "q.db")) ∷ [])

validate_config_file-agrees_example :
    is_value (
      validate_config_file plain_paths one_file
        (default_config_path plain_paths one_file (codes "/work")))
    ≡ is_value (resolve_effective_config plain_paths one_file none none (some (codes "/work")) true)
validate_config_file-agrees_example =
    validate_config_file-agrees plain_paths one_file (codes "/work") (λ p. refl)

-- A queue whose database is of an older version.
abbrev outdated : Answers
outdated = record {
  config = ConfigAnswer.resolved;
  directory = DirectoryAnswer.writable;
  database = FileAnswer.file (OpenAnswer.version 5);
  contract = true;
}

doctor_operation-Means_example : DoctorMeans outdated (doctor_operation outdated)
doctor_operation-Means_example = doctor_operation-Means outdated
