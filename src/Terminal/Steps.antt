-- ===== src/Terminal/Steps.antt =====
-- src/cockpit/terminal/engine/fallback.py: one round of `feed` on text without escape characters.
use cockpit_cli.Prelude.{
  All, List, [], ap, arith, beq_false, nat_eq, refl, string_eq, ℕ, ◌∷◌, ◌≡◌, ◌≢◌, ◌≤◌,
}
use cockpit_cli.Terminal.{
  Engine, ScreenState, consume_character, consume_on, feed, feed_from, on_active, strip_from,
  write_char,
}
use mathlib.Core.Path.{fun_ext}

pub strip_from_plain : (t : List ℕ) → All (λ c. c ≢ 27) t → strip_from 0 t ≡ t
unfolding strip_from
strip_from_plain [] h = refl
strip_from_plain (c ∷ []) (h, hs) = refl
strip_from_plain (c ∷ d ∷ t) (h, hs) = ground (arith, strip_from_plain (d ∷ t) hs)

-- Text without an escape character goes through the loop as it is.
pub feed_plain : (t : List ℕ) (e : Engine) → All (λ c. c ≢ 27) t → feed t e ≡ feed_from 0 t e
feed_plain t e h = unfold feed in ap (λ u. feed_from 0 u e) (strip_from_plain t h)

pub feed_from_nil : (e : Engine) → feed_from 0 [] e ≡ e
unfolding feed_from
feed_from_nil e = refl

pub feed_from_plain :
    (c : ℕ) (t : List ℕ) (e : Engine)
    → c ≢ 27
    → feed_from 0 (c ∷ t) e ≡ feed_from 0 t (consume_character c e)
unfolding feed_from
feed_from_plain c t e h = rw (beq_false c 27 h)

-- A character that is shown: neither a control character nor DEL.
abbrev pub IsPrintable : ℕ → Type 0
IsPrintable c = (32 ≤ c) × (c ≢ 127)

consume_on_printable : (c : ℕ) (s : ScreenState) → IsPrintable c → consume_on c s ≡ write_char c s
unfolding consume_on
consume_on_printable c s h = ground arith

pub consume_printable :
    (c : ℕ) (e : Engine) → IsPrintable c → consume_character c e ≡ on_active (write_char c) e
unfolding consume_character
consume_printable c e h = ap (λ f. on_active f e) (fun_ext (λ s. consume_on_printable c s h))
