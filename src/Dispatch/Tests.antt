-- ===== src/Dispatch/Tests.antt =====
-- A small bus and a small dispatcher, and the theorems at these inputs.
use cockpit_cli.Prelude.{String, [], false, lookup, nat_eq, refl, string_eq, ℕ, ◌+◌, ◌∷◌, ◌≡◌}
use cockpit_cli.Dispatch.{Command, Dispatcher, Outcome, Run, dispatch, policy_violation, slash}
use cockpit_cli.Dispatch.Bus.{EventBus, publish}
use cockpit_cli.Dispatch.Announce.{IsReported, dispatch-IsReported}

abbrev empty_bus : EventBus String
empty_bus = record { subscribers = []; published = []; max_published = 1 }

-- Handler 1 is subscribed to a class of the event and to the base class, handler 2 to the base class.
abbrev bus : EventBus String
bus = record empty_bus {
  subscribers = ("CommandExecuted", 1 ∷ []) ∷ ("BaseEvent", 1 ∷ 2 ∷ []) ∷ [];
}

delivers_once :
    (publish "executed" ("CommandExecuted" ∷ "DomainEvent" ∷ "BaseEvent" ∷ []) bus).0 ≡ 1 ∷ 2 ∷ []
unfolding publish lookup
delivers_once = refl

-- A handler that counts its calls in the world, and refuses.
abbrev refuse : Command → ℕ → Outcome × ℕ
refuse c n = (policy_violation "blocked" [], n + 1)

abbrev dispatcher : Dispatcher ℕ
dispatcher = record {
  handlers = ("docker.remove", refuse) ∷ [];
  observers = (λ c r n. n + 10) ∷ [];
  deliver = λ e n. n;
}

abbrev command : Command
command = record {
  id = "cmd_1";
  source = slash;
  name = "docker.remove";
  args = [];
  context = [];
  is_startup = false;
}

abbrev start : Run ℕ
start = record { world = 0; events = [] }

dispatch-IsReported_example :
    IsReported command start (policy_violation "blocked" []) (dispatch dispatcher command start)
unfolding lookup
dispatch-IsReported_example = dispatch-IsReported dispatcher command start refuse refl
