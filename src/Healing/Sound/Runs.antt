-- ===== src/Healing/Sound/Runs.antt =====
-- src/cockpit/ops/services/self_healing_service.py: the recoveries that are due leave sound states.
use cockpit_cli.Prelude.{nat_eq, string_eq, ℕ}
use cockpit_cli.Healing.Data.{HealthOutcome, HealthStore, Managers, left_by}
use cockpit_cli.Healing.Recoveries.{RecoveryPolicies, run_due_recoveries}
use cockpit_cli.Healing.Runs.{IsKeptBy, run_due_recoveries-kept}
use cockpit_cli.Healing.Sound.{AllSoundStates}
use cockpit_cli.Healing.Sound.Failures.{handle_failure-AllSound, same-AllSound}
use cockpit_cli.Healing.Sound.Reports.{
  mark_component_healthy-AllSound, observe_task_snapshot-AllSound, observe_tunnel_snapshot-AllSound,
  on_event-AllSound,
}

-- What holds of the tables that are left
abbrev pub LeavesSound : HealthOutcome → Type 0
LeavesSound o = AllSoundStates (left_by o)

abbrev KeepsSound : HealthStore → HealthStore → Type 0
KeepsSound s s2 = AllSoundStates s → AllSoundStates s2

KeepsSound-IsKeptBy : (policies : RecoveryPolicies) (now : ℕ) → IsKeptBy policies now KeepsSound
KeepsSound-IsKeptBy policies now = record {
  follows = λ s s2 s3 r r2 hs. r2 (r hs);
  same_states = same-AllSound;
  event = on_event-AllSound policies now;
  failed_again = handle_failure-AllSound policies now;
  healthy_again = mark_component_healthy-AllSound now;
  task = observe_task_snapshot-AllSound now;
  tunnel = observe_tunnel_snapshot-AllSound now;
}

pub run_due_recoveries-LeavesSound :
    (policies : RecoveryPolicies) (m : Managers) (now : ℕ) (s : HealthStore)
    → AllSoundStates s
    → LeavesSound (run_due_recoveries policies m now s)
run_due_recoveries-LeavesSound policies m now s =
    run_due_recoveries-kept policies now KeepsSound (KeepsSound-IsKeptBy policies now) m s
