-- ===== src/Healing/Refines.antt =====
-- src/cockpit/ops/services/self_healing_service.py: failures, reports and exits, as the moves of a
-- component's mode.
pub mod Failures
pub mod Reports
pub mod Restarts
pub mod Operators
pub mod Noticed
pub mod Steps
use cockpit_cli.Prelude.{
  All, All-append, Bool, Bool-cases, Dict, HoldsOf, List, Option, String, [], ap, beq_differs,
  false, if◌then◌else◌, inl, inr, insert, lookup, lookup-insert_ne, lookup-insert_self, nat_eq,
  none, refl, some, string_eq, sym, true, ◌++◌, ◌==◌, ◌∙◌, ◌∷◌, ◌≡◌, ◌≢◌,
}
use cockpit_cli.Enums.{
  HealthStatus, component_kind_eq, event_class_eq, incident_status_eq, severity_eq, target_risk_eq,
}
use cockpit_cli.Recovery.{ComponentHealthState}
use cockpit_cli.Healing.Data.{ComponentRef, HealthStore}
use cockpit_cli.Healing.Store.{save_state, stored_state}
use cockpit_cli.Healing.Failures.{new_state, state_or_new}
use cockpit_cli.Healing.Mode.{
  Cause, Concerns, Mode, Moves, Runs, Runs-append, cooling, halt, isolated, move, resting, retrying,
  unknown, up,
}

-- The mode that a status stands for, where the flag of the quarantine is not set; the status quarantined
-- does not come without the flag.
abbrev pub status_mode : HealthStatus → Mode
status_mode HealthStatus.healthy = up
status_mode HealthStatus.degraded = resting
status_mode HealthStatus.recovering = retrying
status_mode HealthStatus.failed = cooling
status_mode HealthStatus.quarantined = cooling

abbrev pub state_mode : ComponentHealthState → Mode
state_mode st = if st.quarantined then isolated else status_mode st.status

abbrev pub mode_found : Option ComponentHealthState → Mode
mode_found none = unknown
mode_found (some st) = state_mode st

-- The mode of a component in the tables
abbrev pub mode_of : String → HealthStore → Mode
mode_of c s = mode_found (stored_state c s)

-- Every state is stored under the id of its component.
abbrev pub IsKeyed : HealthStore → Type 0
IsKeyed s = All (λ (k, st). st.component_id ≡ k) s.states

-- From the one tables to the other, the mode of `c` moves as the cause on the component `id` has it.
pub record Follows (c id : String) (cause : Cause) (s s2 : HealthStore) : Type 0 where
  pub keyed : IsKeyed s2
  pub moved : Concerns c id cause (mode_of c s) (mode_of c s2)

-- From the one tables to the other, the component moves by causes of the kind that is allowed.
pub record LeadsTo (c : String) (ok : Cause → Bool) (s s2 : HealthStore) : Type 0 where
  pub keyed : IsKeyed s2
  pub causes : List Cause
  pub allowed : All (λ x. ok x ≡ true) causes
  pub runs : Runs causes (mode_of c s) (mode_of c s2)

insert-IsKeyed :
    (st : ComponentHealthState) (d : Dict String ComponentHealthState)
    → All (λ (k, st). st.component_id ≡ k) d
    → All (λ (k, st). st.component_id ≡ k) (insert st.component_id st d)
unfolding insert
insert-IsKeyed st [] h = (refl, tt)
insert-IsKeyed st ((j, w) ∷ d) (h, hs) = elim (Bool-cases (st.component_id == j)) [
  | inl e ↦ rw e ((string_eq.beq_holds st.component_id j).0 e, hs)
  | inr e ↦ rw e (h, insert-IsKeyed st d hs)
]

if-HoldsOf :
    (k j : String) (b : Bool) (w : ComponentHealthState) (o : Option ComponentHealthState)
    → (k == j) ≡ b
    → w.component_id ≡ j
    → HoldsOf (λ st. st.component_id ≡ k) o
    → HoldsOf (λ st. st.component_id ≡ k) (if b then some w else o)
if-HoldsOf k j true w o e h hs = h ∙ sym ((string_eq.beq_holds k j).0 e)
if-HoldsOf k j false w o e h hs = hs

pub stored_state-own :
    (k : String) (s : HealthStore)
    → IsKeyed s
    → HoldsOf (λ st. st.component_id ≡ k) (stored_state k s)
unfolding stored_state lookup
stored_state-own k s h = go s.states h
  where
    go :
        (d : Dict String ComponentHealthState)
        → All (λ (k, st). st.component_id ≡ k) d
        → HoldsOf (λ st. st.component_id ≡ k) (lookup k d)
    go [] hs = tt
    go ((j, w) ∷ d) (own, hs) = if-HoldsOf k j (k == j) w (lookup k d) refl own (go d hs)

module _ (c : String) where
  pub stay : (ok : Cause → Bool) (s : HealthStore) → IsKeyed s → LeadsTo c ok s s
  stay ok s h = record { keyed = h; causes = []; allowed = tt; runs = halt (mode_of c s) }

  pub same-LeadsTo :
      (ok : Cause → Bool) (s s2 s3 : HealthStore)
      → s3.states ≡ s2.states
      → LeadsTo c ok s s2
      → LeadsTo c ok s s3
  unfolding stored_state
  same-LeadsTo ok s s2 s3 e l = record {
    keyed = rw e l.keyed;
    causes = l.causes;
    allowed = l.allowed;
    runs = rw e l.runs;
  }

  pub LeadsTo-trans :
      (ok : Cause → Bool) (s s2 s3 : HealthStore)
      → LeadsTo c ok s s2
      → LeadsTo c ok s2 s3
      → LeadsTo c ok s s3
  LeadsTo-trans ok s s2 s3 l l2 = record {
    keyed = l2.keyed;
    causes = l.causes ++ l2.causes;
    allowed = All-append (λ x. ok x ≡ true) l.causes l2.causes l.allowed l2.allowed;
    runs = Runs-append l.runs l2.runs;
  }

  -- A cause that is allowed, on any component
  pub Follows-LeadsTo :
      (ok : Cause → Bool) (id : String) (cause : Cause) (s s2 : HealthStore)
      → ok cause ≡ true
      → Follows c id cause s s2
      → LeadsTo c ok s s2
  Follows-LeadsTo ok id cause s s2 fits f = elim (Bool-cases (id == c)) [
    | inl e ↦ record {
      keyed = f.keyed;
      causes = cause ∷ [];
      allowed = (fits, tt);
      runs = move (f.moved.own ((string_eq.beq_holds id c).0 e)) (halt (mode_of c s2));
    }
    | inr e ↦ record {
      keyed = f.keyed;
      causes = [];
      allowed = tt;
      runs = rw (f.moved.other (beq_differs id c e)) (halt (mode_of c s));
    }
  ]

  pub same-Follows :
      (id : String) (cause : Cause) (s s2 s3 : HealthStore)
      → s3.states ≡ s2.states
      → Follows c id cause s s2
      → Follows c id cause s s3
  unfolding stored_state
  same-Follows id cause s s2 s3 e f = record {
    keyed = rw e f.keyed;
    moved = record { own = λ p. rw e (f.moved.own p); other = λ n. rw e (f.moved.other n) };
  }

  -- The states stay as they are, and the cause allows that.
  pub stay-Follows :
      (id : String) (cause : Cause) (s : HealthStore)
      → (id ≡ c → Moves cause (mode_of c s) (mode_of c s))
      → IsKeyed s
      → Follows c id cause s s
  stay-Follows id cause s moves h = record {
    keyed = h;
    moved = record { own = moves; other = λ n. refl };
  }

  -- One state is saved: a move of its component, and of no other.
  pub save_state-Follows :
      (cause : Cause) (st : ComponentHealthState) (s : HealthStore)
      → (st.component_id ≡ c → Moves cause (mode_of c s) (state_mode st))
      → IsKeyed s
      → Follows c st.component_id cause s (save_state st s)
  unfolding save_state stored_state
  save_state-Follows cause st s moves h = record {
    keyed = insert-IsKeyed st s.states h;
    moved = record {
      own = λ p.
          rw
            (ap (λ k. lookup k (insert st.component_id st s.states)) (sym p)
              ∙ lookup-insert_self st.component_id st s.states)
            (moves p);
      other = λ n. ap mode_found (lookup-insert_ne c st.component_id st s.states (λ p. n (sym p)));
    };
  }

pub status_mode-free : (status : HealthStatus) → status_mode status ≢ isolated
status_mode-free HealthStatus.healthy e = cc e
status_mode-free HealthStatus.degraded e = cc e
status_mode-free HealthStatus.recovering e = cc e
status_mode-free HealthStatus.failed e = cc e
status_mode-free HealthStatus.quarantined e = cc e

-- A component without the flag is not isolated.
pub state_mode-free :
    (st : ComponentHealthState) → st.quarantined ≡ false → state_mode st ≢ isolated
state_mode-free st free = rw free (status_mode-free st.status)

pub state_or_new-own :
    (status : HealthStatus) (r : ComponentRef) (o : Option ComponentHealthState)
    → HoldsOf (λ st. st.component_id ≡ r.component_id) o
    → (state_or_new status r o).component_id ≡ r.component_id
unfolding state_or_new new_state
state_or_new-own status r none h = refl
state_or_new-own status r (some st) h = h
