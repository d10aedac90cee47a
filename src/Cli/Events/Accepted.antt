-- ===== src/Cli/Events/Accepted.antt =====
-- What cli._validate_events_args has checked of the values that it accepts.
use spoolctl.Base.{
  ℕ, ◌≤◌, ◌≡◌, refl, ap, subst, ◌∙◌, Bool, true, false, List, Option, none, some, arith, ◌&&◌, not,
  is_some,
}
use spoolctl.Base.Int.{ℤ, pos, negsuc, leb_ℤ}
use spoolctl.Models.Suggest.{Word}
use spoolctl.Validation.{Python, value, refused, require, passed, bound, ◌>>=◌}
use spoolctl.Validation.Ints.{parse_int_bound, in_bounds, some_digits, digits_of, sign_of, int_of}
use spoolctl.Validation.Floats.{
  Floats, parse_positive_float, max_wait_seconds, max_poll_interval_seconds,
}
use spoolctl.Cli.Verbs.{nat_of, optional_float}
use spoolctl.Cli.Events.{
  EventsArgs, EventsValues, event_limit_max, optional_int, events_values, events_checks,
  validate_events_args, holds_at_least,
}

pub value_injective : {A : Type 0} {a b : A} → value a ≡ value b → a ≡ b
value_injective e = cc e

in_bounds_lem : (lo hi u v : ℤ) → in_bounds lo hi u ≡ value v → (leb_ℤ lo v && leb_ℤ v hi) ≡ true
in_bounds_lem lo hi u v e =
    let (t, same) = passed (leb_ℤ lo u && leb_ℤ u hi) none (value u) e in
    subst (λ w. (leb_ℤ lo w && leb_ℤ w hi) ≡ true) (value_injective same) t

module _ (py : Python) where
  digits-bounds :
      (lo hi v : ℤ) (negative : Bool) (o : Option (List ℕ))
      → (elim o [ none ↦ refused none | some ds ↦ int_of py negative ds >>= in_bounds lo hi ])
        ≡ value v
      → (leb_ℤ lo v && leb_ℤ v hi) ≡ true
  digits-bounds lo hi v negative none e = cc e
  digits-bounds lo hi v negative (some ds) e =
      let (u, read, kept) = bound (int_of py negative ds) (in_bounds lo hi) e in
      in_bounds_lem lo hi u v kept

  pub parse_int_bound-bounds :
      (lo hi v : ℤ) (raw : Word)
      → parse_int_bound py lo hi raw ≡ value v
      → (leb_ℤ lo v && leb_ℤ v hi) ≡ true
  unfolding parse_int_bound
  parse_int_bound-bounds lo hi v raw e =
      digits-bounds lo hi v (sign_of raw).0 (some_digits (digits_of py (sign_of raw).1)) e

  pub bounds_nat :
      (lo hi : ℕ) (v : ℤ)
      → (leb_ℤ (pos lo) v && leb_ℤ v (pos hi)) ≡ true
      → (lo ≤ nat_of v) × (nat_of v ≤ hi)
  bounds_nat lo hi (pos n) e = ground (arith, e)
  bounds_nat lo hi (negsuc n) e = ground (arith, e)

  pub optional_int-bounds :
      (lo hi : ℕ) (raw : Option Word) (v : ℤ)
      → optional_int py lo hi raw ≡ value (some v)
      → (lo ≤ nat_of v) × (nat_of v ≤ hi)
  optional_int-bounds lo hi none v e = cc e
  optional_int-bounds lo hi (some raw) v e =
      let (u, read, same) =
        bound (parse_int_bound py (pos lo) (pos hi) raw) (λ v. value (some v)) e in
      bounds_nat lo hi v (
        subst (λ w. (leb_ℤ (pos lo) w && leb_ℤ w (pos hi)) ≡ true) {x = u} (cc same)
          (parse_int_bound-bounds (pos lo) (pos hi) u raw read))

  module _ {F : Type 0} (fl : Floats F) (args : EventsArgs) where
    pub events_values-bounds :
        (v : EventsValues F)
        → events_values py fl args ≡ value v
        → (optional_int py 0 event_limit_max args.limit ≡ value v.limit)
          × (optional_int py 1 event_limit_max args.max_events ≡ value v.max_events)
    unfolding events_values
    events_values-bounds v e =
        let (job, e1, k1) = bound (optional_int py 1 _ args.job) _ e in
        let (since_id, e2, k2) = bound (optional_int py 0 _ args.since_id) _ k1 in
        let (limit, e3, k3) = bound (optional_int py 0 _ args.limit) _ k2 in
        let (max_events, e4, k4) = bound (optional_int py 1 _ args.max_events) _ k3 in
        let (idle, e5, k5) = bound (optional_float py fl _ args.idle_timeout) _ k4 in
        let (poll, e6, k6) =
          bound (parse_positive_float py fl max_poll_interval_seconds args.poll_interval) _ k5 in
        let (wait, e7, k7) =
          bound (parse_positive_float py fl max_wait_seconds args.wait_timeout) _ k6 in
        let same = value_injective k7 in
        (
          e3 ∙ ap (λ (w : EventsValues F). value w.limit) same,
          e4 ∙ ap (λ (w : EventsValues F). value w.max_events) same,
        )

    -- The options that exclude each other.
    abbrev pub IsExclusive : EventsValues F → Type 0
    IsExclusive v =
        ((args.follow && args.wait) ≡ false)
        × ((args.follow && is_some v.limit) ≡ false)
        × ((not args.follow && is_some v.max_events) ≡ false)
        × ((not args.follow && is_some v.idle_timeout) ≡ false)

    refuted : (b : Bool) → not b ≡ true → b ≡ false
    refuted b h = ground (arith, h)

    required : (b : Bool) → require b none ≡ value tt → b ≡ true
    required true e = refl
    required false e = cc e

    events_checks-IsExclusive :
        (v : EventsValues F) → events_checks py fl args v ≡ value tt → IsExclusive v
    unfolding events_checks
    events_checks-IsExclusive v e =
        let (t1, k1) = passed (holds_at_least (pos 1) v.job) none _ e in
        let (t2, k2) = passed (holds_at_least (pos 0) v.since_id) none _ k1 in
        let (t3, k3) = passed (holds_at_least (pos 0) v.limit) none _ k2 in
        let (t4, k4) = passed (not (fl.leq v.poll_interval (fl.whole 0))) none _ k3 in
        let (t5, k5) = passed (not (fl.leq v.wait_timeout (fl.whole 0))) none _ k4 in
        let (t6, k6) = passed (not (args.follow && args.wait)) none _ k5 in
        let (t7, k7) = passed (not (args.follow && is_some v.limit)) none _ k6 in
        let (t8, k8) = passed (not (not args.follow && is_some v.max_events)) none _ k7 in
        (refuted _ t6, refuted _ t7, refuted _ t8, refuted _ (required _ k8))

    pub accepted-checked :
        (v : EventsValues F)
        → validate_events_args py fl args ≡ value v
        → (events_values py fl args ≡ value v) × IsExclusive v
    unfolding validate_events_args
    accepted-checked v e =
        let (w, read, k) = bound (events_values py fl args) _ e in
        let (u, checked, same) = bound (events_checks py fl args w) _ k in
        (
          read ∙ same,
          subst IsExclusive (value_injective same) (events_checks-IsExclusive w checked),
        )
