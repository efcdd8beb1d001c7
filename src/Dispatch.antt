-- ===== src/Dispatch.antt =====
-- src/cockpit/core/dispatch/command_dispatcher.py, with the contracts of
-- src/cockpit/core/dispatch/handler_base.py. The world that handlers and observers work on is a
-- parameter `W`, and what they do to it a function; a handler may raise, an observer does not. A value
-- in a dictionary is a truth value or, as a text, anything else.
pub mod Bus
pub mod Announce
mod Tests
use cockpit_cli.Prelude.{
  Bool, Dict, List, Option, String, [], false, if◌then◌else◌, insert, lookup, nat_eq, none, not,
  some, string_eq, true, ◌++◌, ◌==◌, ◌∷◌,
}

pub data CommandSource : Type 0 where
  slash palette keybinding panel_action : CommandSource

pub data StatusLevel : Type 0 where
  info_level success_level warning_level error_level : StatusLevel

pub data Value : Type 0 where
  truth : Bool → Value
  other_value : String → Value

pub record Command : Type 0 where
  pub id : String
  pub source : CommandSource
  pub name : String
  pub args : Dict String Value
  pub context : Dict String Value
  pub is_startup : Bool

pub record DispatchResult : Type 0 where
  pub success : Bool
  pub message : Option String
  pub details : Dict String Value

-- How a call of a handler ends: it returns, or raises one of the four errors of the contract, or
-- anything else, which the dispatcher passes on.
pub data Outcome : Type 0 where
  returned : DispatchResult → Outcome
  confirmation_required policy_violation : String → Dict String Value → Outcome
  context_error handling_error : String → Outcome
  other_error : Outcome

pub data BusEvent : Type 0 where
  status_message : String → StatusLevel → BusEvent
  command_executed : String → String → CommandSource → Bool → Option String → BusEvent

-- The world, and the events published so far.
pub record Run (W : Type 0) : Type 0 where
  pub world : W
  pub events : List BusEvent

-- `deliver` is what the subscribers of the bus do about an event.
pub record Dispatcher (W : Type 0) : Type 0 where
  pub handlers : Dict String (Command → W → Outcome × W)
  pub observers : List (Command → DispatchResult → W → W)
  pub deliver : BusEvent → W → W

pub data Dispatched (W : Type 0) : Type 0 where
  unknown_command : Dispatched W
  raised : Run W → Dispatched W
  done : DispatchResult → Run W → Dispatched W

-- `{**d, **payload}`
pub merge_into : Dict String Value → Dict String Value → Dict String Value
merge_into d [] = d
merge_into d ((k, v) ∷ payload) = merge_into (insert k v d) payload

-- `if result.message`
abbrev pub is_said : Option String → Bool
is_said none = false
is_said (some text) = not (text == "")

abbrev pub text_of : Option String → String
text_of none = ""
text_of (some text) = text

abbrev pub failure : String → Dict String Value → DispatchResult
failure message payload = record { success = false; message = some message; details = payload }

abbrev pub executed : Command → DispatchResult → BusEvent
executed c r = command_executed c.id c.name c.source r.success r.message

module _ {W : Type 0} where
  -- `none` is the `ValueError` of a name that has a handler already.
  pub register : String → (Command → W → Outcome × W) → Dispatcher W → Option (Dispatcher W)
  register name handler d = elim (lookup name d.handlers) [
    | some _ ↦ none
    | none ↦ some (record d { handlers = insert name handler d.handlers })
  ]

  pub observe : (Command → DispatchResult → W → W) → Dispatcher W → Dispatcher W
  observe observer d = record d { observers = d.observers ++ (observer ∷ []) }

  pub emit : Dispatcher W → BusEvent → Run W → Run W
  emit d e s = record { world = d.deliver e s.world; events = s.events ++ (e ∷ []) }

  pub notify_observers :
      List (Command → DispatchResult → W → W) → Command → DispatchResult → Run W → Run W
  notify_observers [] c r s = s
  notify_observers (observer ∷ observers) c r s =
      notify_observers observers c r (record s { world = observer c r s.world })

  -- The observers, and the event that the command was executed
  pub conclude : Dispatcher W → Command → DispatchResult → Run W → Run W
  unfolding emit notify_observers
  conclude d c r s = emit d (executed c r) (notify_observers d.observers c r s)

  -- The branches of `dispatch` behind the call of the handler.
  pub settle_dispatch : Dispatcher W → Command → Outcome → Run W → Dispatched W
  unfolding conclude merge_into
  settle_dispatch d c (confirmation_required message payload) s =
      done (failure message (merge_into (("confirmation_required", truth true) ∷ []) payload))
        (emit d (status_message message warning_level) s)
  settle_dispatch d c (policy_violation message payload) s =
      let r = failure message (merge_into (("policy_violation", truth true) ∷ []) payload) in
      done r (conclude d c r (emit d (status_message message warning_level) s))
  settle_dispatch d c (context_error message) s =
      let r = failure message [] in
      done r (conclude d c r (emit d (status_message message error_level) s))
  settle_dispatch d c (handling_error message) s =
      let r = failure message [] in
      done r (conclude d c r (emit d (status_message message error_level) s))
  settle_dispatch d c other_error s = raised s
  settle_dispatch d c (returned r) s =
      let s' = conclude d c r s in
      done r (
        if is_said r.message
        then emit d
            (status_message (text_of r.message) (if r.success then info_level else error_level)) s'
        else s')

  pub dispatch : Dispatcher W → Command → Run W → Dispatched W
  unfolding settle_dispatch
  dispatch d c s = elim (lookup c.name d.handlers) [
    | none ↦ unknown_command
    | some handler ↦
        let (outcome, world) = handler c s.world in
        settle_dispatch d c outcome (record s { world = world })
  ]
