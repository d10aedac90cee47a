-- ===== src/Validation/Floats/Units.antt =====
-- The units of durations.
use spoolctl.Base.{ℕ, ◌≡◌, refl, sym, subst, inl, inr, some, arith, ◌==◌, ==_iff, Bool-cases}
use spoolctl.Validation.Floats.{multiplier}

-- The units s, m, h and d, by their code points, and the seconds that each stands for.
pub data IsUnit : ℕ → ℕ → Type 0 where
  in_seconds : IsUnit 115 1
  in_minutes : IsUnit 109 60
  in_hours : IsUnit 104 3600
  in_days : IsUnit 100 86400

carried : {a b c d : ℕ} → a ≡ c → b ≡ d → IsUnit a b → IsUnit c d
carried {a} {b} {c} {d} e f u = subst (λ x. IsUnit x d) e (subst (IsUnit a) f u)

pub multiplier-IsUnit : (c factor : ℕ) → multiplier c ≡ some factor → IsUnit c factor
unfolding multiplier
multiplier-IsUnit c factor e = elim (Bool-cases (c == 115)) [
  | inl t ↦ carried (sym ((==_iff c 115).0 t)) (ground (arith, e, t)) in_seconds
  | inr no_s ↦ elim (Bool-cases (c == 109)) [
    | inl t ↦ carried (sym ((==_iff c 109).0 t)) (ground (arith, e, t)) in_minutes
    | inr no_m ↦ elim (Bool-cases (c == 104)) [
      | inl t ↦ carried (sym ((==_iff c 104).0 t)) (ground (arith, e, t)) in_hours
      | inr no_h ↦ elim (Bool-cases (c == 100)) [
        | inl t ↦ carried (sym ((==_iff c 100).0 t)) (ground (arith, e, t)) in_days
        | inr no_d ↦ absurd (ground (arith, e, no_s, no_m, no_h, no_d))
      ]
    ]
  ]
]

pub IsUnit-multiplier : (c factor : ℕ) → IsUnit c factor → multiplier c ≡ some factor
unfolding multiplier
IsUnit-multiplier c factor in_seconds = refl
IsUnit-multiplier c factor in_minutes = refl
IsUnit-multiplier c factor in_hours = refl
IsUnit-multiplier c factor in_days = refl
