-- ===== src/Healing/Mode.antt =====
-- The life of a supervised component, seen from outside: what
-- src/cockpit/ops/services/self_healing_service.py promises of it, without tables, clocks and attempts.
use cockpit_cli.Prelude.{
  All, Bool, Bool-cases, List, String, [], beq_differs, false, inl, inr, nat_eq, refl, string_eq,
  true, ◌++◌, ◌==◌, ◌∙◌, ◌∷◌, ◌≡◌, ◌≢◌, ◌⊎◌,
}

pub data Mode : Type 0 where
  unknown up resting retrying cooling isolated : Mode

pub data Cause : Type 0 where
  fails reports_healthy exits_as_expected is_reset is_retried : Cause

-- What each cause can lead to. Isolation is left by a healthy report and by a reset only. A failure may
-- also leave everything as it is, where no policy covers it or a cooldown is running that does not end
-- in quarantine.
pub data Moves : Cause → Mode → Mode → Type 0 where
  fail_planned : (m : Mode) → m ≢ isolated → Moves fails m retrying
  fail_cooling : (m : Mode) → m ≢ isolated → Moves fails m cooling
  fail_isolated : (m : Mode) → Moves fails m isolated
  fail_unsaved : (m : Mode) → Moves fails m m
  turn_healthy : (m : Mode) → Moves reports_healthy m up
  exit_resting : (m : Mode) → m ≢ isolated → Moves exits_as_expected m resting
  exit_isolated : Moves exits_as_expected isolated isolated
  exit_unknown : Moves exits_as_expected unknown unknown
  reset_resting : (m : Mode) → m ≢ unknown → Moves is_reset m resting
  reset_unknown : Moves is_reset unknown unknown
  retry_planned : (m : Mode) → m ≢ isolated → Moves is_retried m retrying
  retry_isolated : Moves is_retried isolated isolated

-- What a cause that concerns the component `id` does to the mode of the component `c`: if it is that
-- component, then the mode moves, and otherwise it stays.
pub record Concerns (c id : String) (cause : Cause) (m n : Mode) : Type 0 where
  pub own : id ≡ c → Moves cause m n
  pub other : id ≢ c → n ≡ m

abbrev pub IsDown : Mode → Type 0
IsDown m = (m ≢ up) × (m ≢ unknown)

-- What is seen of a cause afterwards: a failure leaves its component neither up nor unknown.
abbrev pub Shows : Cause → Mode → Type 0
Shows fails n = IsDown n
Shows _ n = Unit

pub shows : (x : Cause) (n : Mode) → (x ≡ fails → IsDown n) → Shows x n
shows fails n h = h refl
shows reports_healthy n h = tt
shows exits_as_expected n h = tt
shows is_reset n h = tt
shows is_retried n h = tt

-- The cause concerns the component `c`, which moves and shows it, or another one, and `c` stays.
abbrev pub Touches : String → String → Cause → Mode → Mode → Type 0
Touches c id cause m n = (id ≡ c) × Moves cause m n × Shows cause n ⊎ (id ≢ c) × (n ≡ m)

pub touches :
    (c id : String) (cause : Cause) (m n : Mode)
    → Concerns c id cause m n
    → (id ≡ c → cause ≡ fails → IsDown n)
    → Touches c id cause m n
touches c id cause m n moved down = elim (Bool-cases (id == c)) [
  | inl e ↦
      let same = (string_eq.beq_holds id c).0 e in
      inl (same, moved.own same, shows cause n (down same))
  | inr e ↦ let apart = beq_differs id c e in inr (apart, moved.other apart)
]

pub data Runs : List Cause → Mode → Mode → Type 0 where
  halt : (m : Mode) → Runs [] m m
  move :
      {c : Cause} {cs : List Cause} {m n k : Mode} → Moves c m n → Runs cs n k → Runs (c ∷ cs) m k

pub Runs-append :
    {cs ds : List Cause} {m n k : Mode} → Runs cs m n → Runs ds n k → Runs (cs ++ ds) m k
Runs-append (halt m) r = r
Runs-append (move step rest) r = move step (Runs-append rest r)

abbrev pub lets_out : Cause → Bool
lets_out reports_healthy = true
lets_out is_reset = true
lets_out _ = false

Moves-isolated :
    {c : Cause} {m n : Mode} → Moves c m n → m ≡ isolated → lets_out c ≡ false → n ≡ isolated
Moves-isolated (fail_planned m n) e h = absurd (n e)
Moves-isolated (fail_cooling m n) e h = absurd (n e)
Moves-isolated (fail_isolated m) e h = refl
Moves-isolated (fail_unsaved m) e h = e
Moves-isolated (turn_healthy m) e h = absurd (cc h)
Moves-isolated (exit_resting m n) e h = absurd (n e)
Moves-isolated exit_isolated e h = refl
Moves-isolated exit_unknown e h = e
Moves-isolated (reset_resting m n) e h = absurd (cc h)
Moves-isolated reset_unknown e h = absurd (cc h)
Moves-isolated (retry_planned m n) e h = absurd (n e)
Moves-isolated retry_isolated e h = refl

pub Touches-isolated :
    (c id : String) (x : Cause) (m n : Mode)
    → Touches c id x m n
    → m ≡ isolated
    → lets_out x ≡ false
    → n ≡ isolated
Touches-isolated c id x m n (inl (same, moves, seen)) e h = Moves-isolated moves e h
Touches-isolated c id x m n (inr (apart, stays)) e h = stays ∙ e

-- Without a healthy report and a reset, isolation lasts.
pub Runs-isolated :
    {cs : List Cause} {m n : Mode}
    → Runs cs m n
    → m ≡ isolated
    → All (λ c. lets_out c ≡ false) cs
    → n ≡ isolated
Runs-isolated (halt m) e h = e
Runs-isolated (move step rest) e (h, hs) = Runs-isolated rest (Moves-isolated step e h) hs

abbrev pub is_same_cause : Cause → Cause → Bool
is_same_cause fails fails = true
is_same_cause reports_healthy reports_healthy = true
is_same_cause exits_as_expected exits_as_expected = true
is_same_cause is_reset is_reset = true
is_same_cause is_retried is_retried = true
is_same_cause _ _ = false

pub is_same_cause_refl : (x : Cause) → is_same_cause x x ≡ true
is_same_cause_refl fails = refl
is_same_cause_refl reports_healthy = refl
is_same_cause_refl exits_as_expected = refl
is_same_cause_refl is_reset = refl
is_same_cause_refl is_retried = refl
