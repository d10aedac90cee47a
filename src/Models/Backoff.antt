-- ===== src/Models/Backoff.antt =====
-- The retry backoff of spoolctl/models.py.
use spoolctl.Base.{ℕ, zero, suc, ◌*◌, ◌-◌, ◌^◌, ◌≤◌, ◌<◌, ◌≡◌, arith}
use native.Mathlib.Nat.{pow-suc, pow-le-pow_right, one-le-pow}
use spoolctl.Models.{backoff_seconds}

pow_pos : (n : ℕ) → 1 ≤ 2 ^ n
pow_pos n = one-le-pow n 2 (omega arith)

double : (n : ℕ) → 2 ^ suc n ≡ 2 * 2 ^ n
double n = omega (arith, pow-suc 2 n)

-- Delays grow with the number of attempts, and lie between two seconds and a minute.
pub backoff_seconds_mono :
    (m n : ℕ)
    → m ≤ n
    → (backoff_seconds m ≤ backoff_seconds n) × (2 ≤ backoff_seconds m) × (backoff_seconds n ≤ 60)
unfolding backoff_seconds
backoff_seconds_mono m n h =
    let grows : 2 ^ (m - 1) ≤ 2 ^ (n - 1) = pow-le-pow_right {n = 2} (omega arith) (omega arith) in
    (omega (arith, grows), omega (arith, pow_pos (m - 1)), omega arith)

-- The delay doubles for the first five failures, and is a minute from the sixth on.
pub backoff_seconds_doubles :
    (n : ℕ) → (0 < n → n ≤ 5 → backoff_seconds n ≡ 2 ^ n) × (6 ≤ n → backoff_seconds n ≡ 60)
unfolding backoff_seconds
backoff_seconds_doubles zero = (λ h _. absurd (omega arith), λ h. absurd (omega arith))
backoff_seconds_doubles (suc n) =
    let back : suc n - 1 ≡ n = omega arith in
    (
      λ _ h.
          let small : 2 ^ n ≤ 2 ^ 4 =
            pow-le-pow_right {n = 2} (omega arith) {j = 4} (omega arith) in
          rw back (omega (arith, double n, small)),
      λ h.
          let large : 2 ^ 5 ≤ 2 ^ n =
            pow-le-pow_right {n = 2} (omega arith) {i = 5} (omega arith) in
          rw back (omega (arith, large)),
    )
