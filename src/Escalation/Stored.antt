-- ===== src/Escalation/Stored.antt =====
-- src/cockpit/ops/services/escalation_service.py: what an operation leaves in the table of engagements.
use cockpit_cli.Prelude.{
  Bool, String, false, if◌then◌else◌, lookup, lookup-insert_self, nat_eq, refl, some, string_eq,
  true, ℕ, ◌≡◌,
}
use cockpit_cli.OnCall.{ResolvedEscalationRecipient, subject_kind_eq}
use cockpit_cli.Escalation.{
  EngagementDeliveryPurpose, IncidentEngagement, IncidentRecord, Outcome, Sent, Services, Store,
  candidate_for, finish_page, no_notification, note, page_engagement, page_failed, raised, returned,
  save, send_raised, sent, with_page,
}

-- The engagement stored under `id` has the property `P`.
abbrev pub IsStored {ℓ} : (IncidentEngagement → Type ℓ) → String → Store → Type ℓ
IsStored P id s = (e : IncidentEngagement) × (lookup id s.engagements ≡ some e) × P e

-- The operation got as far as a page, at least, and what it stored has the property. What it raises
-- before that changes nothing.
abbrev pub Leaves {ℓ} : (IncidentEngagement → Type ℓ) → String → Outcome → Type ℓ
Leaves P id (returned e s) = IsStored P id s
Leaves P id (raised page_failed s) = IsStored P id s
Leaves P id (raised _ s) = Unit

module _ {ℓ} (P : IncidentEngagement → Type ℓ) where
  pub save-IsStored : (e : IncidentEngagement) (s : Store) → P e → IsStored P e.id (save e s)
  unfolding save
  save-IsStored e s h = (e, lookup-insert_self e.id e s.engagements, h)

  finish_page-Leaves :
      (now : ℕ) (e : IncidentEngagement) (incident : IncidentRecord)
      (r : ResolvedEscalationRecipient) (purpose : EngagementDeliveryPurpose) (s : Store) (o : Sent)
      → P (with_page now e)
      → IsStored P e.id s
      → Leaves P e.id (finish_page now e incident r purpose s o)
  unfolding finish_page save note
  finish_page-Leaves now e incident r purpose s send_raised h k = k
  finish_page-Leaves now e incident r purpose s no_notification h k =
      (with_page now e, lookup-insert_self e.id (with_page now e) s.engagements, h)
  finish_page-Leaves now e incident r purpose s (sent n) h k =
      (with_page now e, lookup-insert_self e.id (with_page now e) s.engagements, h)

  -- A page changes no more than when the engagement was paged and updated.
  pub page_engagement-Leaves :
      (svc : Services) (now : ℕ) (e : IncidentEngagement) (incident : IncidentRecord)
      (r : ResolvedEscalationRecipient) (purpose : EngagementDeliveryPurpose) (s : Store)
      → P (with_page now e)
      → IsStored P e.id s
      → Leaves P e.id (page_engagement svc now e incident r purpose s)
  unfolding page_engagement
  page_engagement-Leaves svc now e incident r purpose s =
      finish_page-Leaves now e incident r purpose s (svc.send (candidate_for e incident r purpose))

  pub if-Leaves :
      (id : String) (b : Bool) (o o2 : Outcome)
      → (b ≡ true → Leaves P id o)
      → (b ≡ false → Leaves P id o2)
      → Leaves P id (if b then o else o2)
  if-Leaves id true o o2 h k = h refl
  if-Leaves id false o o2 h k = k refl
