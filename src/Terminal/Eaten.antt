-- ===== src/Terminal/Eaten.antt =====
-- src/cockpit/terminal/engine/fallback.py: what the engine drops from its input: text between two OSC
-- sequences, and control sequences that two chunks share.
use mathlib.Core.List.{append_assoc}
use cockpit_cli.Prelude.{
  All, All-append, All-weaken, List, [], ap, arith, length, length-append, nat_eq, none, refl, some,
  string_eq, suc, ℕ, ◌++◌, ◌+◌, ◌-◌, ◌<◌, ◌∙◌, ◌∷◌, ◌≡◌, ◌≢◌, ◌≤◌,
}
use cockpit_cli.Terminal.Steps.{
  consume_printable, feed_from_nil, feed_from_plain, feed_plain, strip_from_plain,
}
use cockpit_cli.Terminal.{
  Engine, consume_character, consume_escape, feed, feed_from, find_final, first_bel, handle_csi,
  last_st, on_active, osc_at, osc_match, strip_from, strip_osc, write_char,
}

-- ESC ] title ESC \
abbrev pub osc : List ℕ → List ℕ
osc title = 27 ∷ b']' ∷ (title ++ (27 ∷ 92 ∷ []))

first_bel-none : (t : List ℕ) → All (λ c. c ≢ 7) t → first_bel t ≡ none
unfolding first_bel
first_bel-none [] h = refl
first_bel-none (c ∷ t) (h, hs) = ground (arith, first_bel-none t hs)

last_st_end : (u : List ℕ) → last_st (u ++ (27 ∷ 92 ∷ [])) ≡ some (length u)
unfolding last_st
last_st_end [] = refl
last_st_end (c ∷ u) = ground (arith, last_st_end u)

strip_from_all : (t : List ℕ) → strip_from (length t) t ≡ []
unfolding strip_from
strip_from_all [] = refl
strip_from_all (c ∷ t) = strip_from_all t

-- One OSC sequence that ends in ESC \ takes, with no BEL in the text, everything up to the last ESC \.
osc_match_end :
    (u : List ℕ) → All (λ c. c ≢ 7) u → osc_match (u ++ (27 ∷ 92 ∷ [])) ≡ some (length u + 2)
unfolding osc_match
osc_match_end u h = ground (
  arith,
  first_bel-none (u ++ (27 ∷ 92 ∷ []))
      (All-append (λ c. c ≢ 7) u (27 ∷ 92 ∷ []) h ((λ e. omega arith), ((λ e. omega arith), tt))),
  last_st_end u,
)

strip_from_match :
    (c : ℕ) (t : List ℕ) (n : ℕ) → osc_at c t ≡ some n → strip_from 0 (c ∷ t) ≡ strip_from n t
unfolding strip_from
strip_from_match c t n h = ground arith

strip_osc-osc : (u : List ℕ) → All (λ c. c ≢ 7) u → strip_osc (osc u) ≡ []
unfolding strip_osc strip_from
strip_osc-osc u h =
    strip_from_match 27 (b']' ∷ (u ++ (27 ∷ 92 ∷ []))) (suc (length u + 2))
      (ground (arith, osc_match_end u h))
    ∙ rw (← length-append u (27 ∷ 92 ∷ [])) (strip_from_all (u ++ (27 ∷ 92 ∷ [])))

regroup :
    (a shown b : List ℕ)
    → osc a ++ (shown ++ osc b) ≡ osc (a ++ (27 ∷ 92 ∷ (shown ++ (27 ∷ b']' ∷ b))))
regroup a shown b = simp append_assoc

-- Whatever is shown between two OSC sequences that end in ESC \ is removed together with them, if
-- there is no BEL in the chunk.
pub strip_osc_eats :
    (a shown b : List ℕ)
    → All (λ c. c ≢ 7) a
    → All (λ c. c ≢ 7) shown
    → All (λ c. c ≢ 7) b
    → strip_osc (osc a ++ (shown ++ osc b)) ≡ []
strip_osc_eats a shown b ha hs hb =
    let u = a ++ (27 ∷ 92 ∷ (shown ++ (27 ∷ b']' ∷ b))) in
    ap strip_osc (regroup a shown b)
    ∙ strip_osc-osc u (
        All-append (λ c. c ≢ 7) a (27 ∷ 92 ∷ (shown ++ (27 ∷ b']' ∷ b))) ha
          (
            (λ e. omega arith),
            (
              (λ e. omega arith),
              All-append (λ c. c ≢ 7) shown (27 ∷ b']' ∷ b) hs
                  ((λ e. omega arith), ((λ e. omega arith), hb)),
            ),
          ))

-- The characters of the parameters of a control sequence.
abbrev pub IsParam : ℕ → Type 0
IsParam c = (32 ≤ c) × (c < 64)

find_final-none : (ps : List ℕ) → All IsParam ps → find_final ps ≡ none
unfolding find_final
find_final-none [] h = refl
find_final-none (c ∷ ps) (h, hs) = ground (arith, find_final-none ps hs)

find_final_end :
    (ps : List ℕ) (f : ℕ)
    → All IsParam ps
    → 64 ≤ f
    → f ≤ 126
    → find_final (ps ++ (f ∷ [])) ≡ some (ps, f)
unfolding find_final
find_final_end [] f h lo hi = ground arith
find_final_end (c ∷ ps) f (h, hs) lo hi = ground (arith, find_final_end ps f hs lo hi)

feed_from_skip : (t : List ℕ) (e : Engine) → feed_from (length t) t e ≡ e
unfolding feed_from
feed_from_skip [] e = refl
feed_from_skip (c ∷ t) e = feed_from_skip t e

strip_csi : (t : List ℕ) → All (λ c. c ≢ 27) t → strip_from 0 (27 ∷ b'[' ∷ t) ≡ 27 ∷ b'[' ∷ t
unfolding strip_from
strip_csi t h = ap (λ r. 27 ∷ r) (strip_from_plain (b'[' ∷ t) ((λ e. omega arith), h))

plain_params : (ps : List ℕ) → All IsParam ps → All (λ c. c ≢ 27) ps
plain_params ps h = All-weaken ps (λ c k e. omega arith) h

suc-sub-one : (n : ℕ) → suc n - 1 ≡ n
suc-sub-one n = omega arith

feed_from_escape :
    (t : List ℕ) (e e' : Engine)
    → consume_escape t e ≡ (suc (length t), e')
    → feed_from 0 (27 ∷ t) e ≡ e'
unfolding feed_from
feed_from_escape t e e' h = rw h (rw suc-sub-one (feed_from_skip t e'))

consume_csi :
    (ps : List ℕ) (f : ℕ) (e : Engine)
    → All IsParam ps
    → 64 ≤ f
    → f ≤ 126
    → consume_escape (b'[' ∷ (ps ++ (f ∷ []))) e
      ≡ (suc (length (b'[' ∷ (ps ++ (f ∷ [])))), handle_csi ps f e)
unfolding consume_escape
consume_csi ps f e h lo hi = ground (arith, find_final_end ps f h lo hi, length-append ps (f ∷ []))

consume_cut :
    (ps : List ℕ) (e : Engine)
    → All IsParam ps
    → consume_escape (b'[' ∷ ps) e ≡ (suc (length (b'[' ∷ ps)), e)
unfolding consume_escape
consume_cut ps e h = ground (arith, find_final-none ps h)

feed_escape :
    (t : List ℕ) (e e' : Engine)
    → All (λ c. c ≢ 27) t
    → consume_escape (b'[' ∷ t) e ≡ (suc (length (b'[' ∷ t)), e')
    → feed (27 ∷ b'[' ∷ t) e ≡ e'
feed_escape t e e' plain h =
    unfold feed in
    (ap (λ u. feed_from 0 u e) (strip_csi t plain) ∙ feed_from_escape (b'[' ∷ t) e e' h)

feed_letter : (f : ℕ) (e : Engine) → 64 ≤ f → f ≤ 126 → feed (f ∷ []) e ≡ on_active (write_char f) e
feed_letter f e lo hi =
    feed_plain (f ∷ []) e ((λ p. omega arith), tt)
    ∙ feed_from_plain f [] e (λ p. omega arith)
    ∙ feed_from_nil (consume_character f e)
    ∙ consume_printable f e (omega arith, λ p. omega arith)

-- A control sequence in one chunk is obeyed. If the chunk ends before its final character, what came
-- of it is dropped, and the final character, at the start of the next chunk, is written on the screen.
pub feed_cut_csi :
    (ps : List ℕ) (f : ℕ) (e : Engine)
    → All IsParam ps
    → 64 ≤ f
    → f ≤ 126
    → (feed (27 ∷ b'[' ∷ (ps ++ (f ∷ []))) e ≡ handle_csi ps f e)
      × (feed (f ∷ []) (feed (27 ∷ b'[' ∷ ps) e) ≡ on_active (write_char f) e)
feed_cut_csi ps f e h lo hi = (
  feed_escape (ps ++ (f ∷ [])) e (handle_csi ps f e)
      (All-append (λ c. c ≢ 27) ps (f ∷ []) (plain_params ps h) ((λ p. omega arith), tt))
      (consume_csi ps f e h lo hi),
  ap (feed (f ∷ [])) (feed_escape ps e e (plain_params ps h) (consume_cut ps e h))
      ∙ feed_letter f e lo hi,
)
