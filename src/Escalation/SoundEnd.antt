-- ===== src/Escalation/SoundEnd.antt =====
-- src/cockpit/ops/services/escalation_service.py: the end of an incident keeps the stored
-- engagements sound.
use cockpit_cli.Prelude.{
  All-and, All-keep, All-kept, All-sort, All-values, All-weaken, Bool, HoldsOf, Option, String,
  false, get_elem?-HoldsOf, if◌then◌else◌, is_some, keep, map, nat_eq, none, not, refl, some,
  string_eq, sym, true, ℕ, ◌&&◌, ◌==◌, ◌≡◌,
}
use cockpit_cli.Enums.{IncidentStatus, component_kind_eq, target_risk_eq}
use cockpit_cli.OnCall.{
  EscalationTargetKind, ResolvedEscalationRecipient, is_resolved, subject_kind_eq,
}
use cockpit_cli.Escalation.{
  EngagementStatus, IncidentEngagement, IncidentRecord, Services, Store, change_incident,
  close_engagement, closed_engagement, closed_with, find_active_for_incident, incident_with,
  is_open_for, is_over, note, on_incident_status_changed, resolved_engagement, same_status,
  target_recipient,
}
use cockpit_cli.Escalation.Sound.{
  AllSound, IsSound, IsSound-IsOpen, closed_with-IsSound, implies, implies-true, is_closed,
}
use cockpit_cli.Escalation.SoundDue.{save-AllSound}

-- A sound engagement that is not over
abbrev pub IsSoundOpen : IncidentEngagement → Type 0
IsSoundOpen e = IsSound e × (is_over e.status ≡ false)

and_right : (a b : Bool) → (a && not b) ≡ true → b ≡ false
and_right true true h = sym h
and_right true false h = refl
and_right false b h = absurd (cc h)

pub find_active_for_incident-HoldsOf :
    (incident_id : String) (s : Store)
    → AllSound s
    → HoldsOf IsSoundOpen (find_active_for_incident incident_id s)
unfolding find_active_for_incident
find_active_for_incident-HoldsOf incident_id s hs =
    let es = map (λ (key, e). e) s.engagements in
    let open_ones = keep (is_open_for incident_id) es in
    get_elem?-HoldsOf IsSoundOpen _ (
      All-sort IsSoundOpen _ open_ones (
        All-and IsSound (λ e. is_over e.status ≡ false) open_ones
          (All-keep IsSound (is_open_for incident_id) es (All-values IsSound s.engagements hs))
          (All-weaken open_ones
            (λ e k. and_right (e.incident_id == incident_id) (is_over e.status) k)
            (All-kept (is_open_for incident_id) es))))

-- Who a resolved target is makes no difference to whether there is one.
pub any-HoldsOf {ℓ κ} : {A : Type ℓ} (P : A → Type κ) (o : Option A) → ((a : A) → P a) → HoldsOf P o
any-HoldsOf P none f = tt
any-HoldsOf P (some a) f = f a

abbrev pub IsTargeted : Option EscalationTargetKind → ResolvedEscalationRecipient → Type 0
IsTargeted kind r = implies (is_resolved r.outcome) (is_some kind) ≡ true

pub target_recipient-HoldsOf :
    (svc : Services) (at : ℕ) (kind : Option EscalationTargetKind) (ref : Option String)
    → HoldsOf (IsTargeted kind) (target_recipient svc at kind ref)
unfolding target_recipient
target_recipient-HoldsOf svc at none ref = refl
target_recipient-HoldsOf svc at (some kind) none = refl
target_recipient-HoldsOf svc at (some kind) (some ref) =
    any-HoldsOf (IsTargeted (some kind)) _ (λ r. implies-true (is_resolved r.outcome))

module _ (svc : Services) (now : ℕ) where
  close_engagement-AllSound :
      (status : EngagementStatus) (s : Store) (o : Option IncidentEngagement)
      → is_closed status ≡ true
      → HoldsOf IsSoundOpen o
      → AllSound s
      → AllSound (close_engagement now status s o)
  unfolding close_engagement note
  close_engagement-AllSound status s none k h hs = hs
  close_engagement-AllSound status s (some e) k (h, live) hs =
      save-AllSound svc now (closed_with now status e) s
        (closed_with-IsSound now e (IsSound-IsOpen e h live) status k) hs

  pub on_incident_status_changed-AllSound :
      (incident_id : String) (new : IncidentStatus) (s : Store)
      → AllSound s
      → AllSound (on_incident_status_changed now incident_id new s)
  unfolding on_incident_status_changed
  on_incident_status_changed-AllSound incident_id IncidentStatus.resolved s hs =
      close_engagement-AllSound resolved_engagement s _ refl
        (find_active_for_incident-HoldsOf incident_id s hs) hs
  on_incident_status_changed-AllSound incident_id IncidentStatus.closed s hs =
      close_engagement-AllSound closed_engagement s _ refl
        (find_active_for_incident-HoldsOf incident_id s hs) hs
  on_incident_status_changed-AllSound incident_id IncidentStatus.acknowledged s hs = hs
  on_incident_status_changed-AllSound incident_id IncidentStatus.open_incident s hs = hs
  on_incident_status_changed-AllSound incident_id IncidentStatus.recovering_incident s hs = hs
  on_incident_status_changed-AllSound incident_id IncidentStatus.quarantined_incident s hs = hs

  incident_with-AllSound :
      (new : IncidentStatus) (incident : IncidentRecord) (s : Store)
      → AllSound s
      → AllSound (incident_with now new incident s)
  unfolding incident_with note
  incident_with-AllSound new incident s hs = hs

  if_store-AllSound :
      (b : Bool) (s s2 : Store) → AllSound s → AllSound s2 → AllSound (if b then s else s2)
  if_store-AllSound true s s2 h k = h
  if_store-AllSound false s s2 h k = k

  pub change_incident-AllSound :
      (incident_id : String) (new : IncidentStatus) (s : Store) (o : Option IncidentRecord)
      → AllSound s
      → AllSound (change_incident now incident_id new s o)
  unfolding change_incident
  change_incident-AllSound incident_id new s none hs = hs
  change_incident-AllSound incident_id new s (some incident) hs =
      if_store-AllSound (same_status incident.status new) s _ hs (
        on_incident_status_changed-AllSound incident_id new (incident_with now new incident s)
          (incident_with-AllSound new incident s hs))
