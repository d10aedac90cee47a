-- ===== src/Examples/Prunes.antt =====
-- The prune, and the totals of a status, at the small queue with its job done.
use spoolctl.Base.{
  ℕ, ◌≡◌, ◌≢◌, ◌⊎◌, ◌∙◌, refl, sym, ap, inl, inr, Bool, true, false, ◌&&◌, List, [], ◌∷◌, Option,
  none, some, All, is_some, str_eq, str_eq_iff, ==_iff, ◌==◌, and_true, if◌then◌else◌, Bool-cases,
}
use spoolctl.Models.{JobState, FilePath, PathPart, text, number}
use spoolctl.Store.Prune.{still_prunable}
use spoolctl.Store.Queries.Totals.{TotalsAgree, status_counts-TotalsAgree}
use spoolctl.Operations.Pruning.{FileCalls, prune_operation}
use spoolctl.Operations.Pruning.Announced.{AsAnnounced, prune_operation-AsAnnounced}
use spoolctl.Operations.Pruning.Spared.{prune_operation-spares}
use spoolctl.Examples.Lives.{finished, finished-Inv}

abbrev pub part_eq : PathPart → PathPart → Bool
part_eq (text s) (text t) = str_eq s t
part_eq (number m) (number n) = m == n
part_eq (text s) (number n) = false
part_eq (number m) (text t) = false

abbrev pub parts_eq : List PathPart → List PathPart → Bool
parts_eq [] [] = true
parts_eq (p ∷ ps) (q ∷ qs) = part_eq p q && parts_eq ps qs
parts_eq [] (q ∷ qs) = false
parts_eq (p ∷ ps) [] = false

part_eq_sound : (p q : PathPart) → part_eq p q ≡ true → p ≡ q
part_eq_sound (text s) (text t) h = ap text ((str_eq_iff s t).0 h)
part_eq_sound (number m) (number n) h = ap number ((==_iff m n).0 h)
part_eq_sound (text s) (number n) h = cc
part_eq_sound (number m) (text t) h = cc

parts_eq_sound : (ps qs : List PathPart) → parts_eq ps qs ≡ true → ps ≡ qs
parts_eq_sound [] [] h = refl
parts_eq_sound (p ∷ ps) (q ∷ qs) h =
    let (a, b) = and_true (part_eq p q) (parts_eq ps qs) h in
    cc (part_eq_sound p q a, parts_eq_sound ps qs b)
parts_eq_sound [] (q ∷ qs) h = cc
parts_eq_sound (p ∷ ps) [] h = cc

-- Files of known sizes under one root, without directories to remove.
abbrev pub Sizes : Type 0
Sizes = List PathPart → Option ℕ

abbrev pub without : FilePath → Sizes → Sizes
without p files ps = if parts_eq p.parts ps then none else files ps

abbrev pub sizes : FileCalls Sizes
sizes = record {
  stat_size = λ p files. files p.parts;
  unlink = λ p files. if is_some (files p.parts) then some (without p files) else none;
  rmdir = λ d files. none;
  dirname = λ p. p;
}

abbrev size_at : FilePath → Sizes → Option ℕ
size_at p files = files p.parts

unlink-spares :
    (p q : FilePath) (files files' : Sizes)
    → sizes.unlink p files ≡ some files'
    → p.parts ≢ q.parts
    → size_at q files' ≡ size_at q files
unlink-spares p q files files' e ne = elim (Bool-cases (is_some (files p.parts))) [
  | inr t ↦ cc (rw t at e)
  | inl t ↦
      let same : without p files ≡ files' = cc (rw t at e) in
      sym (ap (λ (fs : Sizes). fs q.parts) same) ∙ kept (Bool-cases (parts_eq p.parts q.parts))
]
  where
    kept :
        (parts_eq p.parts q.parts ≡ true) ⊎ (parts_eq p.parts q.parts ≡ false)
        → without p files q.parts ≡ files q.parts
    kept (inl t) = absurd (ne (parts_eq_sound p.parts q.parts t))
    kept (inr t) = rw t refl

rmdir-spares :
    (d q : FilePath) (files files' : Sizes)
    → sizes.rmdir d files ≡ some files'
    → size_at q files' ≡ size_at q files
rmdir-spares d q files files' e = cc e

abbrev pub small_files : Sizes
small_files ps = some 10

prune_operation-AsAnnounced_example :
    AsAnnounced sizes (JobState.done ∷ []) 1000 finished small_files
prune_operation-AsAnnounced_example =
    prune_operation-AsAnnounced sizes (JobState.done ∷ []) 1000 finished small_files finished-Inv

prune_operation-spares_example :
    All
      (λ a.
        still_prunable (JobState.done ∷ []) 1000 a.job_id finished ≡ false
        → (size_at a.stdout_path
              (prune_operation sizes
                (JobState.done ∷ [])
                1000
                false
                (λ d. d)
                finished
                small_files).0.1
            ≡ some 10)
          × (size_at a.stderr_path
                (prune_operation sizes
                  (JobState.done ∷ [])
                  1000
                  false
                  (λ d. d)
                  finished
                  small_files).0.1
              ≡ some 10))
      finished.attempts
prune_operation-spares_example =
    prune_operation-spares sizes size_at unlink-spares rmdir-spares (JobState.done ∷ []) 1000 false
      (λ d. d) finished small_files finished-Inv

status_counts-TotalsAgree_example : TotalsAgree 500 finished
status_counts-TotalsAgree_example = status_counts-TotalsAgree 500 finished
