-- ===== src/Dispatch/Announce.antt =====
-- src/cockpit/core/dispatch/command_dispatcher.py: what is announced of a command.
use cockpit_cli.Prelude.{
  Bool, List, String, [], ap, arith, beq_refl, false, if◌then◌else◌, lookup, nat_eq, not, refl,
  some, string_eq, suc, true, ℕ, ◌&&◌, ◌++◌, ◌+◌, ◌==◌, ◌∙◌, ◌∷◌, ◌≡◌,
}
use cockpit_cli.Dispatch.{
  BusEvent, Command, DispatchResult, Dispatched, Dispatcher, Outcome, Run, StatusLevel,
  command_executed, conclude, confirmation_required, context_error, dispatch, done, emit,
  error_level, executed, handling_error, info_level, is_said, notify_observers, other_error,
  policy_violation, raised, returned, settle_dispatch, status_message, text_of, unknown_command,
  warning_level,
}

abbrev same_truth : Bool → Bool → Bool
same_truth true b = b
same_truth false b = not b

-- Whether an event reports that the command `id` was executed, with this success.
abbrev pub is_report : String → Bool → BusEvent → Bool
is_report id success (status_message text level) = false
is_report id success (command_executed i n source flag text) = i == id && same_truth flag success

-- How many events report that.
abbrev pub reports : String → Bool → List BusEvent → ℕ
reports id success [] = 0
reports id success (e ∷ es) =
    let rest = reports id success es in if is_report id success e then suc rest else rest

abbrev pub wants_confirmation : Outcome → Bool
wants_confirmation (confirmation_required message payload) = true
wants_confirmation _ = false

reports-append :
    (id : String) (success : Bool) (xs ys : List BusEvent)
    → reports id success (xs ++ ys) ≡ reports id success xs + reports id success ys
reports-append id success [] ys = omega arith
reports-append id success (x ∷ xs) ys = ground (arith, reports-append id success xs ys)

-- One report with the success of the result, and none with the other.
abbrev pub one_if : Bool → ℕ
one_if true = 1
one_if false = 0

-- What a settled outcome adds to the reports of a command.
abbrev pub report_of : Outcome → DispatchResult → Bool → ℕ
report_of o r b = if wants_confirmation o then 0 else one_if (same_truth r.success b)

reports-executed :
    (c : Command) (r : DispatchResult) (b : Bool)
    → reports c.id b (executed c r ∷ []) ≡ one_if (same_truth r.success b)
reports-executed c r b = ground (arith, beq_refl c.id)

module _ {W : Type 0} where
  reports-emit :
      (id : String) (success : Bool) (d : Dispatcher W) (e : BusEvent) (s : Run W)
      → reports id success (emit d e s).events
        ≡ reports id success s.events + reports id success (e ∷ [])
  unfolding emit
  reports-emit id success d e s = reports-append id success s.events (e ∷ [])

  events-notify_observers :
      (observers : List (Command → DispatchResult → W → W)) (c : Command) (r : DispatchResult)
      (s : Run W)
      → (notify_observers observers c r s).events ≡ s.events
  unfolding notify_observers
  events-notify_observers [] c r s = refl
  events-notify_observers (observer ∷ observers) c r s =
      events-notify_observers observers c r (record s { world = observer c r s.world })

  reports-conclude :
      (d : Dispatcher W) (c : Command) (r : DispatchResult) (s : Run W) (b : Bool)
      → reports c.id b (conclude d c r s).events
        ≡ reports c.id b s.events + one_if (same_truth r.success b)
  unfolding conclude
  reports-conclude d c r s b =
      let told = notify_observers d.observers c r s in
      omega (
        arith,
        reports-emit c.id b d (executed c r) told,
        reports-executed c r b,
        ap (reports c.id b) (events-notify_observers d.observers c r s),
      )

  -- What a dispatch makes of the outcome `o`: an error outside the contract is passed on with nothing
  -- published, and else the reports of the command agree with the result.
  abbrev pub IsReported : Command → Run W → Outcome → Dispatched W → Type 0
  IsReported c s o unknown_command = ⊥
  IsReported c s o (raised s') = (o ≡ other_error) × (s'.events ≡ s.events)
  IsReported c s o (done r s') =
      ((b : Bool) → reports c.id b s'.events ≡ reports c.id b s.events + report_of o r b)
      × (r.success ≡ true → o ≡ returned r)

  reports-status :
      (id : String) (b said : Bool) (d : Dispatcher W) (text : String) (l : StatusLevel) (s : Run W)
      → reports id b (if said then emit d (status_message text l) s else s).events
        ≡ reports id b s.events
  reports-status id b false d text l s = refl
  reports-status id b true d text l s = omega (arith, reports-emit id b d (status_message text l) s)

  reports-failure :
      (d : Dispatcher W) (c : Command) (r : DispatchResult) (text : String) (l : StatusLevel)
      (s : Run W) (b : Bool)
      → reports c.id b (conclude d c r (emit d (status_message text l) s)).events
        ≡ reports c.id b s.events + one_if (same_truth r.success b)
  reports-failure d c r text l s b = omega (
    arith,
    reports-conclude d c r (emit d (status_message text l) s) b,
    reports-status c.id b true d text l s,
  )

  settle_dispatch-IsReported :
      (d : Dispatcher W) (c : Command) (o : Outcome) (s : Run W)
      → IsReported c s o (settle_dispatch d c o s)
  unfolding settle_dispatch
  settle_dispatch-IsReported d c other_error s = (refl, refl)
  settle_dispatch-IsReported d c (confirmation_required text payload) s =
      (λ b. omega (arith, reports-status c.id b true d text warning_level s), λ e. ground arith)
  settle_dispatch-IsReported d c (policy_violation text payload) s =
      (reports-failure d c _ text warning_level s, λ e. ground arith)
  settle_dispatch-IsReported d c (context_error text) s =
      (reports-failure d c _ text error_level s, λ e. ground arith)
  settle_dispatch-IsReported d c (handling_error text) s =
      (reports-failure d c _ text error_level s, λ e. ground arith)
  settle_dispatch-IsReported d c (returned r) s = (
    λ b.
        reports-status c.id b (is_said r.message) d (text_of r.message)
          (if r.success then info_level else error_level) (conclude d c r s)
        ∙ reports-conclude d c r s b,
    λ _. refl,
  )

  -- A command with a handler is reported as executed once, with the success of the result of its
  -- dispatch and never with the other one; only a command that wants confirmation is not reported at
  -- all. A result that is a success is the one that the handler returned. An error outside the
  -- contract of handlers is passed on, with nothing published.
  pub dispatch-IsReported :
      (d : Dispatcher W) (c : Command) (s : Run W) (handler : Command → W → Outcome × W)
      → lookup c.name d.handlers ≡ some handler
      → IsReported c s (handler c s.world).0 (dispatch d c s)
  unfolding dispatch
  dispatch-IsReported d c s handler known =
      rw (known, dispatch)
        (settle_dispatch-IsReported d c (handler c s.world).0
          (record s { world = (handler c s.world).1 }))
