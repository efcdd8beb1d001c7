-- ===== src/Terminal/Switch.antt =====
-- src/cockpit/terminal/engine/fallback.py: the alternate screen.
use cockpit_cli.Prelude.{
  All, List, [], ap, arith, codes, false, is_prefix, nat_eq, refl, string_eq, true, ℕ, ◌++◌, ◌∙◌,
  ◌∷◌, ◌≡◌, ◌≢◌,
}
use cockpit_cli.Terminal.{
  Engine, consume_character, consume_escape, feed, feed_from, find_final, handle_csi, new_screen,
  on_active, strip_from, strip_osc,
}
use cockpit_cli.Terminal.Steps.{feed_from_plain}

consume_character-alternate :
    (c : ℕ) (e : Engine)
    → e.alternate_active ≡ true
    → ((consume_character c e).primary ≡ e.primary)
      × ((consume_character c e).alternate_active ≡ true)
unfolding consume_character on_active
consume_character-alternate c e on = (ground arith, ground arith)

feed_from_alternate :
    (t rest : List ℕ) (e : Engine)
    → All (λ c. c ≢ 27) t
    → e.alternate_active ≡ true
    → (e' : Engine) × (feed_from 0 (t ++ rest) e ≡ feed_from 0 rest e')
      × (e'.primary ≡ e.primary)
      × (e'.alternate_active ≡ true)
feed_from_alternate [] rest e h on = (e, refl, refl, on)
feed_from_alternate (c ∷ t) rest e (h, hs) on =
    let (kept, still) = consume_character-alternate c e on in
    let (e', ends, same, yet) = feed_from_alternate t rest (consume_character c e) hs still in
    (e', feed_from_plain c (t ++ rest) e h ∙ ends, same ∙ kept, yet)

-- ESC [ ? 1 0 4 9 and the final character
abbrev pub switch : ℕ → List ℕ
switch final = 27 ∷ codes "[?1049" ++ (final ∷ [])

strip_after :
    (t rest : List ℕ)
    → All (λ c. c ≢ 27) t
    → strip_from 0 (t ++ (27 ∷ b'[' ∷ rest)) ≡ t ++ strip_from 0 (27 ∷ b'[' ∷ rest)
unfolding strip_from
strip_after [] rest h = refl
strip_after (c ∷ []) rest (h, hs) = ground arith
strip_after (c ∷ d ∷ t) rest (h, hs) = ground (arith, strip_after (d ∷ t) rest hs)

strip_switch :
    (t : List ℕ)
    → All (λ c. c ≢ 27) t
    → strip_osc (switch b'h' ++ (t ++ switch b'l')) ≡ switch b'h' ++ (t ++ switch b'l')
unfolding strip_osc strip_from
strip_switch t h =
    ap (λ u. 27 ∷ 91 ∷ 63 ∷ 49 ∷ 48 ∷ 52 ∷ 57 ∷ u)
      (strip_after (104 ∷ t) (codes "?1049l") ((λ e. omega arith), h))

enter_alternate :
    (t : List ℕ) (e : Engine)
    → feed_from 0 (switch b'h' ++ t) e
      ≡ feed_from 0 t (record e { alternate_active = true; alternate = new_screen })
unfolding feed_from consume_escape find_final handle_csi is_prefix
enter_alternate t e = refl

leave_alternate : (e : Engine) → feed_from 0 (switch b'l') e ≡ record e { alternate_active = false }
unfolding feed_from consume_escape find_final handle_csi is_prefix
leave_alternate e = refl

-- Entering the alternate screen, showing any text there and leaving it again leaves the primary
-- screen, its cursor included, as it was, and makes it the active one. The text is free of escape
-- characters.
pub feed_alternate :
    (t : List ℕ) (e : Engine)
    → All (λ c. c ≢ 27) t
    → let e' = feed (switch b'h' ++ (t ++ switch b'l')) e in
      (e'.primary ≡ e.primary) × (e'.alternate_active ≡ false)
feed_alternate t e h =
    let entered = record e { alternate_active = true; alternate = new_screen } in
    let (e', ends, same, on) = feed_from_alternate t (switch b'l') entered h refl in
    let all =
      ap (λ u. feed_from 0 u e) (strip_switch t h)
      ∙ enter_alternate (t ++ switch b'l') e
      ∙ ends
      ∙ leave_alternate e' in
    unfold feed in rw all (same, refl)
