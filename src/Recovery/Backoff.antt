-- ===== src/Recovery/Backoff.antt =====
-- src/cockpit/ops/services/recovery_policy_service.py: the backoff and the cooldown that an
-- evaluation gives.
use cockpit_cli.Prelude.{
  All, All-weaken, List, Option, String, [], arith, length, max, min, some, suc, true, zero, ℕ, ◌*◌,
  ◌+◌, ◌<◌, ◌^◌, ◌∷◌, ◌≡◌, ◌≤◌,
}
use cockpit_cli.Recovery.{
  ComponentHealthState, RecoveryAttempt, RecoveryPolicy, backoff_for, evaluate, evaluate_attempts,
  in_window, last_attempt_number, seconds,
}
use native.Mathlib.Nat.{pow-suc, mul_assoc}

max-zero : (n : ℕ) → max 0 n ≡ n
max-zero n = omega arith

min_double : (top x : ℕ) → min top (x * 2) ≡ min top (2 * min top x)
min_double top x = omega arith

-- The backoff starts at the base, or at the maximum if that is less, and doubles with each attempt
-- used until it reaches the maximum.
pub backoff_for-doubles :
    (policy : RecoveryPolicy) (n : ℕ)
    → (backoff_for policy 0 ≡ min policy.max_backoff_seconds policy.base_backoff_seconds)
      × (backoff_for policy (suc n) ≡ min policy.max_backoff_seconds (2 * backoff_for policy n))
unfolding backoff_for
backoff_for-doubles policy n = (
  omega arith,
  simp (max-zero, pow-suc, ← mul_assoc)
      (min_double policy.max_backoff_seconds (policy.base_backoff_seconds * 2 ^ n)),
)

backoff_for_bounds :
    (policy : RecoveryPolicy) (n : ℕ)
    → policy.base_backoff_seconds ≤ policy.max_backoff_seconds
    → (policy.base_backoff_seconds ≤ backoff_for policy n)
      × (backoff_for policy n ≤ policy.max_backoff_seconds)
backoff_for_bounds policy zero le = omega (arith, (backoff_for-doubles policy 0).0)
backoff_for_bounds policy (suc n) le =
    omega (arith, (backoff_for-doubles policy n).1, backoff_for_bounds policy n le)

-- A scheduled attempt waits at most the policy's maximum, and at least its base if that is not
-- above the maximum.
pub evaluate_backoff_bounds :
    (policy : RecoveryPolicy) (state : Option ComponentHealthState) (recent : List RecoveryAttempt)
    (reason : String) (now : ℕ)
    → policy.base_backoff_seconds ≤ policy.max_backoff_seconds
    → let e = evaluate policy state recent reason now in
      e.should_schedule_attempt ≡ true
      → (policy.base_backoff_seconds ≤ e.backoff_seconds)
        × (e.backoff_seconds ≤ policy.max_backoff_seconds)
unfolding evaluate evaluate_attempts
evaluate_backoff_bounds policy state recent reason now le h =
    ground (arith, backoff_for_bounds policy (length (in_window policy now recent)) le)

number-le-last :
    (recent : List RecoveryAttempt)
    → All (λ a. a.attempt_number ≤ last_attempt_number recent) recent
unfolding last_attempt_number
number-le-last recent = go recent (last_attempt_number recent) (omega arith)
  where
    go :
        (xs : List RecoveryAttempt) (n : ℕ)
        → last_attempt_number xs ≤ n
        → All (λ a. a.attempt_number ≤ n) xs
    go [] n le = tt
    go (x ∷ xs) n le = (omega arith, go xs n (omega arith))

pub evaluate-number :
    (policy : RecoveryPolicy) (state : Option ComponentHealthState) (recent : List RecoveryAttempt)
    (reason : String) (now : ℕ)
    → let e = evaluate policy state recent reason now in
      (e.should_schedule_attempt ≡ true → e.attempt_number ≡ last_attempt_number recent + 1)
      × (last_attempt_number recent ≤ e.attempt_number)
unfolding evaluate evaluate_attempts
evaluate-number policy state recent reason now = (λ h. ground arith, ground arith)

-- A scheduled attempt has a number above that of every recent attempt; in every other case the
-- number is one that no recent attempt is above.
pub evaluate-attempt_number :
    (policy : RecoveryPolicy) (state : Option ComponentHealthState) (recent : List RecoveryAttempt)
    (reason : String) (now : ℕ)
    → let e = evaluate policy state recent reason now in
      (e.should_schedule_attempt ≡ true → All (λ a. a.attempt_number < e.attempt_number) recent)
      × All (λ a. a.attempt_number ≤ e.attempt_number) recent
evaluate-attempt_number policy state recent reason now = (
  λ h.
      All-weaken recent
        (λ a le. omega (arith, (evaluate-number policy state recent reason now).0 h))
        (number-le-last recent),
  All-weaken recent (λ a le. omega (arith, (evaluate-number policy state recent reason now).1))
      (number-le-last recent),
)

-- A new cooldown ends at least a second after `now`, and a cooldown that is still running is kept.
pub evaluate-cooldown_until :
    (policy : RecoveryPolicy) (state : Option ComponentHealthState) (recent : List RecoveryAttempt)
    (reason : String) (now : ℕ)
    → (let e = evaluate policy state recent reason now in
        e.should_enter_cooldown ≡ true
        → (until : ℕ) × (e.cooldown_until ≡ some until) × (now + seconds 1 ≤ until))
unfolding evaluate evaluate_attempts
evaluate-cooldown_until policy state recent reason now h =
    (now + seconds (max 1 policy.cooldown_seconds), ground arith, omega arith)
