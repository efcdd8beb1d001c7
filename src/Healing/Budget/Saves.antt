-- ===== src/Healing/Budget/Saves.antt =====
-- src/cockpit/ops/services/self_healing_service.py: what the saves of attempts make of the budget.
use cockpit_cli.Prelude.{
  Bool, Bool-cases, Dict, String, ap, arith, false, inl, inr, insert, lookup, nat_eq, some,
  string_eq, sym, true, ℕ, ◌&&◌, ◌+◌, ◌<◌, ◌==◌, ◌∙◌, ◌≡◌, ◌≤◌,
}
use cockpit_cli.Recovery.{RecoveryAttempt, RecoveryPolicy, is_in_window}
use cockpit_cli.Healing.Store.{is_attempt_of, is_attempt_pending, is_pending_of}
use cockpit_cli.Healing.Attempts.{count_of, count_of-insert, insert-IsTable, one_for, one_if}
use cockpit_cli.Healing.Budget.{IsWithinBudget, is_spent}

finish_counts :
    (b w : Bool) (m m2 n n2 most : ℕ)
    → m2 + one_if b ≡ m
    → n2 ≡ n + one_if (b && w)
    → m ≤ 1
    → n + m ≤ most
    → (m2 ≤ 1) × (n2 + m2 ≤ most)
finish_counts true true m m2 n n2 most e1 e2 le1 le2 = omega arith
finish_counts true false m m2 n n2 most e1 e2 le1 le2 = omega arith
finish_counts false w m m2 n n2 most e1 e2 le1 le2 = omega arith

module _ (c : String) (policy : RecoveryPolicy) (now : ℕ) (a : RecoveryAttempt) where
  pending-one_if :
      is_attempt_pending a.status ≡ true
      → (one_if (is_pending_of c a) ≡ one_if (is_attempt_of c a))
        × (one_if (is_spent c policy now a) ≡ 0)
  pending-one_if e = (ground arith, ground arith)

  over-one_if :
      is_attempt_pending a.status ≡ false
      → (one_if (is_pending_of c a) ≡ 0)
        × (one_if (is_spent c policy now a)
            ≡ one_if (is_attempt_of c a && is_in_window policy now a))
  over-one_if e = (ground arith, ground arith)

module _ (c : String) (policy : RecoveryPolicy) (now : ℕ) (a a2 : RecoveryAttempt)
    (d : Dict String RecoveryAttempt) (found : lookup a2.id d ≡ some a)
    (pending : is_attempt_pending a.status ≡ true) (same : a2.component_id ≡ a.component_id) where
  replaced-count :
      (p : RecoveryAttempt → Bool)
      → count_of p (insert a2.id a2 d) + one_if (p a) ≡ count_of p d + one_if (p a2)
  replaced-count p =
      ap (λ o. count_of p (insert a2.id a2 d) + one_for p o) (sym found)
      ∙ count_of-insert p a2.id a2 d

  same-attempt_of : is_attempt_of c a2 ≡ is_attempt_of c a
  same-attempt_of = ap (λ i. i == c) same

  -- The attempt under way ends.
  pub finish-IsWithinBudget :
      is_attempt_pending a2.status ≡ false
      → IsWithinBudget c policy now d
      → IsWithinBudget c policy now (insert a2.id a2 d)
  finish-IsWithinBudget over h =
      let counts =
        finish_counts (is_attempt_of c a) (is_in_window policy now a2)
          (count_of (is_pending_of c) d) (count_of (is_pending_of c) (insert a2.id a2 d))
          (count_of (is_spent c policy now) d)
          (count_of (is_spent c policy now) (insert a2.id a2 d)) policy.max_attempts
          (omega (
            arith,
            replaced-count (is_pending_of c),
            (pending-one_if c policy now a pending).0,
            (over-one_if c policy now a2 over).0,
          ))
          (omega (
            arith,
            replaced-count (is_spent c policy now),
            (pending-one_if c policy now a pending).1,
            (over-one_if c policy now a2 over).1,
            ap (λ b. one_if (b && is_in_window policy now a2)) same-attempt_of,
          ))
          h.alone h.within in
      record { table = insert-IsTable a2 d h.table; alone = counts.0; within = counts.1 }

  -- Then none is pending.
  pub finish-none :
      is_attempt_pending a2.status ≡ false
      → is_attempt_of c a ≡ true
      → IsWithinBudget c policy now d
      → count_of (is_pending_of c) (insert a2.id a2 d) ≡ 0
  finish-none over own h = omega (
    arith,
    replaced-count (is_pending_of c),
    (pending-one_if c policy now a pending).0,
    (over-one_if c policy now a2 over).0,
    ap one_if own,
    h.alone,
  )

  -- The attempt under way starts.
  pub start-IsWithinBudget :
      is_attempt_pending a2.status ≡ true
      → IsWithinBudget c policy now d
      → IsWithinBudget c policy now (insert a2.id a2 d)
  start-IsWithinBudget still h =
      let pend : count_of (is_pending_of c) (insert a2.id a2 d) ≡ count_of (is_pending_of c) d =
        omega (
          arith,
          replaced-count (is_pending_of c),
          (pending-one_if c policy now a pending).0,
          (pending-one_if c policy now a2 still).0,
          ap one_if same-attempt_of,
        ) in
      let spent : count_of (is_spent c policy now) (insert a2.id a2 d)
          ≡ count_of (is_spent c policy now) d =
        omega (
          arith,
          replaced-count (is_spent c policy now),
          (pending-one_if c policy now a pending).1,
          (pending-one_if c policy now a2 still).1,
        ) in
      record {
        table = insert-IsTable a2 d h.table;
        alone = omega (arith, pend, h.alone);
        within = omega (arith, pend, spent, h.within);
      }

-- A new attempt: where it is of this component, none may be pending and one must be left.
pub schedule-IsWithinBudget :
    (c : String) (policy : RecoveryPolicy) (now : ℕ) (a : RecoveryAttempt)
    (d : Dict String RecoveryAttempt)
    → is_attempt_pending a.status ≡ true
    → IsWithinBudget c policy now d
    → (is_attempt_of c a ≡ true
        → (count_of (is_pending_of c) d ≡ 0)
          × (count_of (is_spent c policy now) d < policy.max_attempts))
    → IsWithinBudget c policy now (insert a.id a d)
schedule-IsWithinBudget c policy now a d pending h room =
    let p = count_of-insert (is_pending_of c) a.id a d in
    let q = count_of-insert (is_spent c policy now) a.id a d in
    let (e1, e2) = pending-one_if c policy now a pending in
    elim (Bool-cases (is_attempt_of c a)) [
      | inl own ↦
          let (none_pending, left) = room own in
          record {
            table = insert-IsTable a d h.table;
            alone = omega (arith, p, e1, ap one_if own, none_pending);
            within = omega (arith, p, q, e1, e2, ap one_if own, none_pending, left);
          }
      | inr other ↦ record {
        table = insert-IsTable a d h.table;
        alone = omega (arith, p, e1, ap one_if other, h.alone);
        within = omega (arith, p, q, e1, e2, ap one_if other, h.within);
      }
    ]

one_if-and : (b w : Bool) → one_if (b && w) ≤ one_if (b && true)
one_if-and true true = omega arith
one_if-and true false = omega arith
one_if-and false w = omega arith

-- An attempt that is over is saved as over once more.
pub overwrite-IsWithinBudget :
    (c : String) (policy : RecoveryPolicy) (now : ℕ) (x a : RecoveryAttempt)
    (d : Dict String RecoveryAttempt)
    → lookup a.id d ≡ some x
    → is_attempt_pending x.status ≡ false
    → is_in_window policy now x ≡ true
    → a.component_id ≡ x.component_id
    → is_attempt_pending a.status ≡ false
    → IsWithinBudget c policy now d
    → IsWithinBudget c policy now (insert a.id a d)
unfolding is_in_window
overwrite-IsWithinBudget c policy now x a d found was seen same over h =
    let (p, p2) = over-one_if c policy now x was in
    let (q, q2) = over-one_if c policy now a over in
    let count : (f : RecoveryAttempt → Bool)
        → count_of f (insert a.id a d) + one_if (f x) ≡ count_of f d + one_if (f a) =
      λ f.
        ap (λ o. count_of f (insert a.id a d) + one_for f o) (sym found)
        ∙ count_of-insert f a.id a d in
    let falls : one_if (is_attempt_of c a && is_in_window policy now a)
        ≤ one_if (is_attempt_of c x && is_in_window policy now x) =
      rw (same, seen) (one_if-and (is_attempt_of c x) (is_in_window policy now a)) in
    record {
      table = insert-IsTable a d h.table;
      alone = omega (arith, count (is_pending_of c), p, q, h.alone);
      within = omega (
        arith,
        count (is_pending_of c),
        count (is_spent c policy now),
        p,
        p2,
        q,
        q2,
        falls,
        h.within,
      );
    }
