-- ===== src/Healing/Budget.antt =====
-- src/cockpit/ops/services/self_healing_service.py: how many attempts a component has, pending and in the
-- retry window, and what the saves of attempts make of these numbers.
pub mod Saves
pub mod Queries
pub mod Failures
pub mod Ends
pub mod Reports
pub mod Tracking
pub mod Runs
pub mod Traces
use cockpit_cli.Prelude.{
  Bool, Dict, List, String, [], arith, keep, length, nat_eq, not, string_eq, true, ℕ, ◌&&◌, ◌+◌,
  ◌∷◌, ◌≡◌, ◌≤◌,
}
use cockpit_cli.Recovery.{RecoveryAttempt, RecoveryPolicy, is_in_window}
use cockpit_cli.Recovery.Window.{is_in_window_antitone}
use cockpit_cli.Healing.Store.{is_attempt_of, is_attempt_pending, is_pending_of, stored_rows}
use cockpit_cli.Healing.Attempts.{IsTable, count_of}

-- An attempt of the component that is over and still in the retry window
abbrev pub is_spent : String → RecoveryPolicy → ℕ → RecoveryAttempt → Bool
is_spent c policy now a =
    is_attempt_of c a && (not (is_attempt_pending a.status) && is_in_window policy now a)

-- At most one attempt of the component is pending, and with it at most as many count in the retry
-- window as the policy allows.
pub record IsWithinBudget (c : String) (policy : RecoveryPolicy) (now : ℕ)
    (d : Dict String RecoveryAttempt) : Type 0 where
  pub table : IsTable d
  pub alone : count_of (is_pending_of c) d ≤ 1
  pub within :
      count_of (is_spent c policy now) d + count_of (is_pending_of c) d ≤ policy.max_attempts

module _ {A : Type 0} (p q r : A → Bool) where
  pub length-keep_mono :
      (xs : List A) → ((a : A) → p a ≡ true → q a ≡ true) → length (keep p xs) ≤ length (keep q xs)
  length-keep_mono [] h = omega arith
  length-keep_mono (x ∷ xs) h = ground (arith, h x, length-keep_mono xs h)

  pub length-keep-keep_mono :
      (xs : List A)
      → ((a : A) → p a ≡ true → (q a ≡ true) × (r a ≡ true))
      → length (keep p xs) ≤ length (keep q (keep r xs))
  length-keep-keep_mono [] h = omega arith
  length-keep-keep_mono (x ∷ xs) h = ground (arith, h x, length-keep-keep_mono xs h)

spent_antitone :
    (c : String) (policy : RecoveryPolicy) (now later : ℕ) (a : RecoveryAttempt)
    → now ≤ later
    → is_spent c policy later a ≡ true
    → is_spent c policy now a ≡ true
spent_antitone c policy now later a le h =
    ground (arith, is_in_window_antitone policy now later a le)

-- While time passes, the numbers only fall.
pub IsWithinBudget-later :
    (c : String) (policy : RecoveryPolicy) (now later : ℕ) (d : Dict String RecoveryAttempt)
    → now ≤ later
    → IsWithinBudget c policy now d
    → IsWithinBudget c policy later d
IsWithinBudget-later c policy now later d le h = record {
  table = h.table;
  alone = h.alone;
  within = omega (
    arith,
    h.within,
    length-keep_mono (is_spent c policy later) (is_spent c policy now) (is_spent c policy now)
        (stored_rows d) (λ a. spent_antitone c policy now later a le),
  );
}
