-- ===== src/Dispatch/Bus.antt =====
-- src/cockpit/core/dispatch/event_bus.py: whom an event is delivered to. A handler is its identity, a
-- number; the classes of an event, in the order of its method resolution and down to `BaseEvent`, are
-- given by their names. What a handler does is not part of the bus.
use cockpit_cli.Prelude.{
  Dict, List, Option, String, [], any, arith, contains, drop, false, if◌then◌else◌, insert, length,
  lookup, nat_eq, none, refl, some, string_eq, suc, zero, ℕ, ◌++◌, ◌+◌, ◌-◌, ◌==◌, ◌||◌, ◌∷◌, ◌≡◌,
  ◌≤◌,
}

pub record EventBus (E : Type 0) : Type 0 where
  pub subscribers : Dict String (List ℕ)
  pub published : List E
  pub max_published : ℕ

abbrev or_none : Option (List ℕ) → List ℕ
or_none none = []
or_none (some handlers) = handlers

-- `subscribers.get(event_type, ())`
unfoldable pub handlers_of : String → Dict String (List ℕ) → List ℕ
handlers_of event_type subscribers = or_none (lookup event_type subscribers)

-- One round of the inner loop; the handlers called so far are those whose markers are in `seen`.
abbrev call_once : List ℕ → ℕ → List ℕ
call_once called h = if contains h called then called else called ++ (h ∷ [])

unfoldable pub call_all : List ℕ → List ℕ → List ℕ
call_all called [] = called
call_all called (h ∷ hs) = call_all (call_once called h) hs

unfoldable pub deliver_from : Dict String (List ℕ) → List ℕ → List String → List ℕ
unfolding call_all handlers_of
deliver_from subscribers called [] = called
deliver_from subscribers called (event_type ∷ mro) =
    deliver_from subscribers (call_all called (handlers_of event_type subscribers)) mro

module _ {E : Type 0} where
  unfoldable pub subscribe : String → ℕ → EventBus E → EventBus E
  unfolding handlers_of
  subscribe event_type h bus = record bus {
    subscribers =
        insert event_type (handlers_of event_type bus.subscribers ++ (h ∷ [])) bus.subscribers;
  }

  -- `deque(maxlen=…).append`
  unfoldable pub append_bounded : ℕ → List E → E → List E
  append_bounded max_published log e =
      let longer = log ++ (e ∷ []) in drop (length longer - max_published) longer

  -- `publish`: the handlers that are called, in order, and the bus afterwards.
  unfoldable pub publish : E → List String → EventBus E → List ℕ × EventBus E
  unfolding append_bounded deliver_from
  publish e mro bus = (
    deliver_from bus.subscribers [] mro,
    record bus { published = append_bounded bus.max_published bus.published e },
  )

abbrev pub occurrences : ℕ → List ℕ → ℕ
occurrences h [] = 0
occurrences h (x ∷ xs) = let rest = occurrences h xs in if h == x then suc rest else rest

contains-append :
    (h : ℕ) (xs ys : List ℕ) → contains h (xs ++ ys) ≡ (contains h xs || contains h ys)
contains-append h [] ys = refl
contains-append h (x ∷ xs) ys = ground (arith, contains-append h xs ys)

occurrences-append :
    (h : ℕ) (xs ys : List ℕ) → occurrences h (xs ++ ys) ≡ occurrences h xs + occurrences h ys
occurrences-append h [] ys = omega arith
occurrences-append h (x ∷ xs) ys = ground (arith, occurrences-append h xs ys)

occurrences-eq-zero : (h : ℕ) (xs : List ℕ) → contains h xs ≡ false → occurrences h xs ≡ 0
occurrences-eq-zero h [] p = refl
occurrences-eq-zero h (x ∷ xs) p = ground (arith, occurrences-eq-zero h xs)

contains-call_all :
    (h : ℕ) (called hs : List ℕ)
    → contains h (call_all called hs) ≡ (contains h called || contains h hs)
unfolding call_all
contains-call_all h called [] = ground arith
contains-call_all h called (x ∷ hs) =
    ground (arith, contains-call_all h (call_once called x) hs, contains-append h called (x ∷ []))

once-call_all :
    (h : ℕ) (called hs : List ℕ) → occurrences h called ≤ 1 → occurrences h (call_all called hs) ≤ 1
unfolding call_all
once-call_all h called [] p = p
once-call_all h called (x ∷ hs) p =
    once-call_all h (call_once called x) hs
      (ground (arith, occurrences-append h called (x ∷ []), occurrences-eq-zero h called))

contains-deliver_from :
    (h : ℕ) (subscribers : Dict String (List ℕ)) (called : List ℕ) (mro : List String)
    → contains h (deliver_from subscribers called mro)
      ≡ (contains h called || any (λ t. contains h (handlers_of t subscribers)) mro)
unfolding deliver_from
contains-deliver_from h subscribers called [] = ground arith
contains-deliver_from h subscribers called (t ∷ mro) = ground (
  arith,
  contains-deliver_from h subscribers (call_all called (handlers_of t subscribers)) mro,
  contains-call_all h called (handlers_of t subscribers),
)

once-deliver_from :
    (h : ℕ) (subscribers : Dict String (List ℕ)) (called : List ℕ) (mro : List String)
    → occurrences h called ≤ 1
    → occurrences h (deliver_from subscribers called mro) ≤ 1
unfolding deliver_from
once-deliver_from h subscribers called [] p = p
once-deliver_from h subscribers called (t ∷ mro) p =
    once-deliver_from h subscribers (call_all called (handlers_of t subscribers)) mro
      (once-call_all h called (handlers_of t subscribers) p)

length-drop {ℓ} : {A : Type ℓ} (n : ℕ) (xs : List A) → length (drop n xs) ≡ length xs - n
length-drop zero xs = omega arith
length-drop (suc n) [] = omega arith
length-drop (suc n) (x ∷ xs) = omega (arith, length-drop n xs)

-- Publishing an event calls a handler exactly if it is subscribed to one of the classes of the event,
-- and then once only, however many of them it is subscribed to; and the log of published events never
-- exceeds its bound.
pub publish_once :
    {E : Type 0} (e : E) (mro : List String) (bus : EventBus E) (h : ℕ)
    → (contains h (publish e mro bus).0 ≡ any (λ t. contains h (handlers_of t bus.subscribers)) mro)
      × (occurrences h (publish e mro bus).0 ≤ 1)
      × (length (publish e mro bus).1.published ≤ bus.max_published)
unfolding publish append_bounded
publish_once e mro bus h = (
  contains-deliver_from h bus.subscribers [] mro,
  once-deliver_from h bus.subscribers [] mro (omega arith),
  omega (
    arith,
    length-drop (length (bus.published ++ (e ∷ [])) - bus.max_published)
        (bus.published ++ (e ∷ [])),
  ),
)
