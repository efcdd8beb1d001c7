-- ===== src/Healing/Refines/Restarts.antt =====
-- src/cockpit/ops/services/self_healing_service.py: a recovery moves components as the specification has it.
use cockpit_cli.Prelude.{
  Bool, String, [], false, nat_eq, not, refl, string_eq, strip, true, ℕ, ◌&&◌, ◌==◌,
}
use cockpit_cli.Recovery.{ComponentHealthState}
use cockpit_cli.Healing.Data.{HealthStore, Managers, left_by}
use cockpit_cli.Healing.Settle.{handle_failure}
use cockpit_cli.Healing.Reports.{
  mark_component_healthy, observe_task_snapshot, observe_tunnel_snapshot, on_event, task_ref,
  tunnel_ref,
}
use cockpit_cli.Healing.Mode.{fails, halt, reports_healthy}
use cockpit_cli.Healing.Recoveries.{RecoveryPolicies, run_recovery}
use cockpit_cli.Healing.Runs.{IsKeptBy, run_recovery-kept}
use cockpit_cli.Healing.Refines.{
  Follows-LeadsTo, IsKeyed, LeadsTo, LeadsTo-trans, mode_of, same-LeadsTo, stay,
}
use cockpit_cli.Healing.Refines.Failures.{handle_failure-Follows}
use cockpit_cli.Healing.Refines.Reports.{
  IsSeen, cause_of, cause_of-unattended, is_unattended, mark_component_healthy-Follows,
  observe_task_snapshot-Seen, observe_tunnel_snapshot-Seen, on_event-Follows, subject_of,
}

module _ (c : String) (policies : RecoveryPolicies) (now : ℕ) where
  abbrev MovesAlone : HealthStore → HealthStore → Type 0
  MovesAlone s s2 = IsKeyed s → LeadsTo c is_unattended s s2

  IsSeen-LeadsTo :
      (id : String) (sound : Bool) (s s2 : HealthStore)
      → IsSeen c id sound s s2
      → LeadsTo c is_unattended s s2
  IsSeen-LeadsTo id true s s2 (keyed, moved) =
      Follows-LeadsTo c is_unattended id reports_healthy s s2 refl
        (record { keyed = keyed; moved = moved })
  IsSeen-LeadsTo id false s s2 (keyed, same) = record {
    keyed = keyed;
    causes = [];
    allowed = tt;
    runs = rw same (halt (mode_of c s));
  }

  MovesAlone-IsKeptBy : IsKeptBy policies now MovesAlone
  MovesAlone-IsKeptBy = record {
    follows = λ s s2 s3 r r2 h. LeadsTo-trans c is_unattended s s2 s3 (r h) (r2 (r h).keyed);
    same_states = λ s s2 e h. same-LeadsTo c is_unattended s s s2 e (stay c is_unattended s h);
    event = λ made e s h.
        Follows-LeadsTo c is_unattended (subject_of e) (cause_of e) s
          (left_by (on_event policies now made e s)) (cause_of-unattended e)
          (on_event-Follows c now policies made e s h);
    failed_again = λ f s h.
        Follows-LeadsTo c is_unattended f.component.component_id fails s
          (left_by (handle_failure policies now f s)) refl
          (handle_failure-Follows c now policies f s h);
    healthy_again = λ heartbeat_at st s h.
        Follows-LeadsTo c is_unattended st.component_id reports_healthy s
          (mark_component_healthy now heartbeat_at st s) refl
          (mark_component_healthy-Follows c now heartbeat_at st s h);
    task = λ t s h.
        IsSeen-LeadsTo (task_ref t.name t.metadata).component_id (not t.stale && t.alive) s
          (observe_task_snapshot now t s) (observe_task_snapshot-Seen c now t s h);
    tunnel = λ profile_id alive s h.
        IsSeen-LeadsTo (tunnel_ref (strip profile_id)).component_id
          (not (strip profile_id == "") && alive) s (observe_tunnel_snapshot now profile_id alive s)
          (observe_tunnel_snapshot-Seen c now profile_id alive s h);
  }

  pub run_recovery-MovesAlone :
      (m : Managers) (st : ComponentHealthState) (s : HealthStore)
      → IsKeyed s
      → LeadsTo c is_unattended s (left_by (run_recovery policies m now st s))
  run_recovery-MovesAlone m st s =
      run_recovery-kept policies now MovesAlone MovesAlone-IsKeptBy m st s
