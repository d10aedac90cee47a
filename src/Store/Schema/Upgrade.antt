-- ===== src/Store/Schema/Upgrade.antt =====
-- An older database becomes one of version 6, and keeps what it held.
use spoolctl.Base.{
  ℕ, suc, ◌≤◌, ◌<◌, ◌≡◌, zero, refl, ap, sym, subst, ◌∙◌, inl, inr, false, some, arith, leb, ◌⊎◌,
}
use spoolctl.Base.Int.{pos}
use spoolctl.Store.Schema.{
  null, number, content, Table, OldDb, migrate_v1_to_v2, migrate_v2_to_v3, migrate_v3_to_v4,
  migrate_v4_to_v5, migrate_v5_to_v6, crashes_of, reason_of, newer, current, v1, v2, v3, v4, v5,
  strange, found_of, Outcome, ready, too_new, unsupported, broken, checked, ensure_loop,
  ensure_schema,
}
use spoolctl.Store.Schema.Kept.{
  KeptTable, KeptTable-refl, KeptTable-trans, add_column-KeptTable, set_column-KeptTable,
  rebuild_table-KeptTable,
}

-- The jobs and the attempts are kept, and the version is the one named.
pub record Upgraded (v : ℕ) (db db' : OldDb) : Type 0 where
  pub version : db'.version ≡ v
  pub jobs : KeptTable db.jobs db'.jobs
  pub attempts : KeptTable db.attempts db'.attempts

infixl 5 ◌▸◌
◌▸◌ : {a b c : Table} → KeptTable a b → KeptTable b c → KeptTable a c
h ▸ k = KeptTable-trans h k

module _ (db : OldDb) where
  v1-Upgraded : db.version ≡ 1 → Upgraded 2 db (migrate_v1_to_v2 db)
  unfolding migrate_v1_to_v2
  v1-Upgraded e =
      let low : leb 2 db.version ≡ false = ap (leb 2) e in
      rw low (record {
        version = refl;
        jobs = rebuild_table-KeptTable db.jobs;
        attempts = rebuild_table-KeptTable db.attempts;
      })

  v2-Upgraded : db.version ≡ 2 → Upgraded 3 db (migrate_v2_to_v3 db)
  unfolding migrate_v2_to_v3
  v2-Upgraded e =
      let low : leb 3 db.version ≡ false = ap (leb 3) e in
      rw low (record {
        version = refl;
        jobs =
            add_column-KeptTable "idempotency_key" null _ refl
            ▸ add_column-KeptTable "tags_json" (content "{}") _ refl
            ▸ add_column-KeptTable "note" null _ refl;
        attempts = KeptTable-refl db.attempts;
      })

  v3-Upgraded : db.version ≡ 3 → Upgraded 4 db (migrate_v3_to_v4 db)
  unfolding migrate_v3_to_v4
  v3-Upgraded e =
      let low : leb 4 db.version ≡ false = ap (leb 4) e in
      rw low (record {
        version = refl;
        jobs =
            add_column-KeptTable "priority" (number (pos 0)) _ refl
            ▸ add_column-KeptTable "queue" (content "default") _ refl;
        attempts = KeptTable-refl db.attempts;
      })

  v4-Upgraded : db.version ≡ 4 → Upgraded 5 db (migrate_v4_to_v5 db)
  unfolding migrate_v4_to_v5
  v4-Upgraded e =
      let low : leb 5 db.version ≡ false = ap (leb 5) e in
      rw low (record {
        version = refl;
        jobs =
            add_column-KeptTable "cwd" null _ refl
            ▸ add_column-KeptTable "env_json" (content "{}") _ refl
            ▸ add_column-KeptTable "crashes" (number (pos 0)) _ refl
            ▸ add_column-KeptTable "max_crashes" null _ refl
            ▸ set_column-KeptTable "crashes" (crashes_of db.attempts) _ refl;
        attempts = KeptTable-refl db.attempts;
      })

  v5-Upgraded : db.version ≡ 5 → Upgraded 6 db (migrate_v5_to_v6 db)
  unfolding migrate_v5_to_v6
  v5-Upgraded e =
      let low : leb 6 db.version ≡ false = ap (leb 6) e in
      rw low (record {
        version = refl;
        jobs = KeptTable-refl db.jobs;
        attempts =
            add_column-KeptTable "failure_reason" null _ refl
            ▸ set_column-KeptTable "failure_reason" reason_of _ refl;
      })

-- The answer of PRAGMA foreign_key_check.
module _ (violations : OldDb → ℕ) where
  -- The loop comes to an end with the database upgraded.
  abbrev Reaches : ℕ → OldDb → Type 0
  Reaches fuel db = (db' : OldDb) × (ensure_loop violations fuel db ≡ ready db') × Upgraded 6 db db'

  climb :
      {v : ℕ} (fuel : ℕ) (db mid : OldDb)
      → ensure_loop violations (suc fuel) db ≡ ensure_loop violations fuel mid
      → Upgraded v db mid
      → Reaches fuel mid
      → Reaches (suc fuel) db
  climb fuel db mid e up (db', f, rest) = (
    db',
    e ∙ f,
    record {
      version = rest.version;
      jobs = KeptTable-trans up.jobs rest.jobs;
      attempts = KeptTable-trans up.attempts rest.attempts;
    },
  )

  module _ (fuel : ℕ) (db : OldDb) where
    from_6 : db.version ≡ 6 → Reaches (suc fuel) db
    unfolding ensure_loop found_of
    from_6 e =
        let found : found_of db.version ≡ current = ap found_of e in
        (
          db,
          rw (found, ensure_loop) refl,
          record {
            version = e;
            jobs = KeptTable-refl db.jobs;
            attempts = KeptTable-refl db.attempts;
          },
        )

  -- One round of the loop, at each of the older versions.
  module _ (fuel : ℕ) (db : OldDb) where
    round_1 :
        db.version ≡ 1
        → ensure_loop violations (suc fuel) db
          ≡ checked
              (violations (migrate_v1_to_v2 db))
              (migrate_v1_to_v2 db)
              (ensure_loop violations fuel (migrate_v1_to_v2 db))
    unfolding ensure_loop found_of
    round_1 e = let found : found_of db.version ≡ v1 = ap found_of e in rw (found, ensure_loop) refl

    round_2 :
        db.version ≡ 2
        → ensure_loop violations (suc fuel) db ≡ ensure_loop violations fuel (migrate_v2_to_v3 db)
    unfolding ensure_loop found_of
    round_2 e = let found : found_of db.version ≡ v2 = ap found_of e in rw (found, ensure_loop) refl

    round_3 :
        db.version ≡ 3
        → ensure_loop violations (suc fuel) db ≡ ensure_loop violations fuel (migrate_v3_to_v4 db)
    unfolding ensure_loop found_of
    round_3 e = let found : found_of db.version ≡ v3 = ap found_of e in rw (found, ensure_loop) refl

    round_4 :
        db.version ≡ 4
        → ensure_loop violations (suc fuel) db ≡ ensure_loop violations fuel (migrate_v4_to_v5 db)
    unfolding ensure_loop found_of
    round_4 e = let found : found_of db.version ≡ v4 = ap found_of e in rw (found, ensure_loop) refl

    round_5 :
        db.version ≡ 5
        → ensure_loop violations (suc fuel) db ≡ ensure_loop violations fuel (migrate_v5_to_v6 db)
    unfolding ensure_loop found_of
    round_5 e = let found : found_of db.version ≡ v5 = ap found_of e in rw (found, ensure_loop) refl

  from_5 : (fuel : ℕ) (db : OldDb) → db.version ≡ 5 → Reaches (suc (suc fuel)) db
  from_5 fuel db e =
      let up = v5-Upgraded db e in
      climb (suc fuel) db (migrate_v5_to_v6 db) (round_5 (suc fuel) db e) up
        (from_6 fuel (migrate_v5_to_v6 db) up.version)

  from_4 : (fuel : ℕ) (db : OldDb) → db.version ≡ 4 → Reaches (suc (suc (suc fuel))) db
  from_4 fuel db e =
      let up = v4-Upgraded db e in
      climb (suc (suc fuel)) db (migrate_v4_to_v5 db) (round_4 (suc (suc fuel)) db e) up
        (from_5 fuel (migrate_v4_to_v5 db) up.version)

  from_3 : (fuel : ℕ) (db : OldDb) → db.version ≡ 3 → Reaches (suc (suc (suc (suc fuel)))) db
  from_3 fuel db e =
      let up = v3-Upgraded db e in
      climb (suc (suc (suc fuel))) db (migrate_v3_to_v4 db) (round_3 (suc (suc (suc fuel))) db e) up
        (from_4 fuel (migrate_v3_to_v4 db) up.version)

  from_2 : (fuel : ℕ) (db : OldDb) → db.version ≡ 2 → Reaches (suc (suc (suc (suc (suc fuel))))) db
  from_2 fuel db e =
      let up = v2-Upgraded db e in
      climb (suc (suc (suc (suc fuel)))) db (migrate_v2_to_v3 db)
        (round_2 (suc (suc (suc (suc fuel)))) db e) up
        (from_3 fuel (migrate_v2_to_v3 db) up.version)

  -- After the first migration the foreign keys are checked: the loop goes on only where no row breaks one.
  from_1 :
      (fuel : ℕ) (db : OldDb)
      → db.version ≡ 1
      → violations (migrate_v1_to_v2 db) ≡ 0
      → Reaches (suc (suc (suc (suc (suc (suc fuel)))))) db
  from_1 fuel db e clean =
      let up = v1-Upgraded db e in
      climb (suc (suc (suc (suc (suc fuel))))) db (migrate_v1_to_v2 db)
        (round_1 (suc (suc (suc (suc (suc fuel))))) db e
          ∙ ap
              (λ n.
                checked n (migrate_v1_to_v2 db)
                  (ensure_loop violations (suc (suc (suc (suc (suc fuel))))) (migrate_v1_to_v2 db)))
              clean)
        up (from_2 fuel (migrate_v1_to_v2 db) up.version)

  -- What _ensure_schema makes of a database.
  pub data EnsureMeans (db : OldDb) : Outcome → Type 0 where
    upgraded :
        (db' : OldDb)
        → 1 ≤ db.version
        → db.version ≤ 6
        → (db.version ≡ 1 → violations (migrate_v1_to_v2 db) ≡ 0)
        → Upgraded 6 db db'
        → EnsureMeans db (ready db')
    dangling :
        db.version ≡ 1
        → 0 < violations (migrate_v1_to_v2 db)
        → Upgraded 2 db (migrate_v1_to_v2 db)
        → EnsureMeans db (broken (migrate_v1_to_v2 db))
    refused : 6 < db.version → EnsureMeans db (too_new db.version)
    unknown : db.version ≡ 0 → EnsureMeans db (unsupported db.version)

  reached :
      (db : OldDb)
      → 1 ≤ db.version
      → db.version ≤ 6
      → (db.version ≡ 1 → violations (migrate_v1_to_v2 db) ≡ 0)
      → Reaches 6 db
      → EnsureMeans db (ensure_loop violations 6 db)
  reached db low high clean (db', e, up) = rw e (upgraded db' low high clean up)

  from_oldest :
      (db : OldDb)
      → db.version ≡ 1
      → (violations (migrate_v1_to_v2 db) ≡ 0) ⊎ (0 < violations (migrate_v1_to_v2 db))
      → EnsureMeans db (ensure_loop violations 6 db)
  from_oldest db e (inl clean) =
      reached db (omega (arith, e)) (omega (arith, e)) (λ _. clean) (from_1 0 db e clean)
  from_oldest db e (inr some_rows) =
      subst (EnsureMeans db)
        (sym (round_1 5 db e ∙ stops (violations (migrate_v1_to_v2 db)) some_rows))
        (dangling e some_rows (v1-Upgraded db e))
    where
      stops :
          (n : ℕ)
          → 0 < n
          → checked n (migrate_v1_to_v2 db) (ensure_loop violations 5 (migrate_v1_to_v2 db))
            ≡ broken (migrate_v1_to_v2 db)
      stops zero h = absurd (omega (arith, h))
      stops (suc n) h = refl

  by_version :
      (v : ℕ)
      → (v ≡ 0) ⊎ ((v ≡ 1) ⊎ ((v ≡ 2) ⊎ ((v ≡ 3) ⊎ ((v ≡ 4) ⊎ ((v ≡ 5) ⊎ ((v ≡ 6) ⊎ (6 < v)))))))
  by_version v = omega arith

  -- The loop of _ensure_schema comes to an end on every database: one of version 1 to 6 is brought to
  -- version 6, with every job and every attempt in its place, under its id and with its values in the
  -- columns that version 1 had, and with no id mark lowered; but one of version 1 in which the check of
  -- the foreign keys after the first migration lists a row is left, so kept, at version 2, with an
  -- IntegrityError. One of a later version is refused as too new, and one of version 0 as unsupported.
  pub ensure_schema-EnsureMeans : (db : OldDb) → EnsureMeans db (ensure_schema violations (some db))
  unfolding ensure_schema
  ensure_schema-EnsureMeans db = elim (by_version db.version) [
    | inl e ↦
        let found : found_of db.version ≡ strange = unfold found_of in ap found_of e in
        unfold ensure_loop in rw (found, ensure_loop) (unknown e)
    | inr (inl e) ↦ from_oldest db e (omega arith)
    | inr (inr (inl e)) ↦
        reached db (omega (arith, e)) (omega (arith, e)) (λ v. absurd (omega (arith, e, v)))
          (from_2 1 db e)
    | inr (inr (inr (inl e))) ↦
        reached db (omega (arith, e)) (omega (arith, e)) (λ v. absurd (omega (arith, e, v)))
          (from_3 2 db e)
    | inr (inr (inr (inr (inl e)))) ↦
        reached db (omega (arith, e)) (omega (arith, e)) (λ v. absurd (omega (arith, e, v)))
          (from_4 3 db e)
    | inr (inr (inr (inr (inr (inl e))))) ↦
        reached db (omega (arith, e)) (omega (arith, e)) (λ v. absurd (omega (arith, e, v)))
          (from_5 4 db e)
    | inr (inr (inr (inr (inr (inr (inl e)))))) ↦
        reached db (omega (arith, e)) (omega (arith, e)) (λ v. absurd (omega (arith, e, v)))
          (from_6 5 db e)
    | inr (inr (inr (inr (inr (inr (inr e)))))) ↦
        let found : found_of db.version ≡ newer = unfold found_of in ground (arith, e) in
        unfold ensure_loop in rw (found, ensure_loop) (refused e)
  ]
