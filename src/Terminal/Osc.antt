-- ===== src/Terminal/Osc.antt =====
-- src/cockpit/terminal/engine/fallback.py: `OSC_RE.sub("", chunk)`, for the pattern
-- `\x1b\][^\x07]*(?:\x07|\x1b\\)`.
use cockpit_cli.Prelude.{
  Bool, List, Option, [], false, if◌then◌else◌, nat_eq, none, some, string_eq, suc, zero, ℕ, ◌&&◌,
  ◌+◌, ◌==◌, ◌∷◌,
}

-- How many characters stand before the first BEL.
unfoldable pub first_bel : List ℕ → Option ℕ
first_bel [] = none
first_bel (c ∷ t) =
    let rest = first_bel t in
    if c == 7 then some 0 else elim rest [ none ↦ none | some n ↦ some (suc n) ]

abbrev starts : ℕ → List ℕ → Bool
starts c [] = false
starts c (d ∷ _) = d == c

-- How many characters stand before the last ESC \.
unfoldable pub last_st : List ℕ → Option ℕ
last_st [] = none
last_st (c ∷ t) = elim (last_st t) [
  | some n ↦ some (suc n)
  | none ↦ if c == 27 && starts 92 t then some 0 else none
]

-- The length of the match behind the two characters ESC ]. The repetition is greedy and passes
-- everything but BEL: with a BEL in the text it runs up to the first one, which ends the match; with
-- none it runs to the end, and goes back to the last ESC \.
unfoldable pub osc_match : List ℕ → Option ℕ
osc_match t = elim (first_bel t) [
  | some n ↦ some (n + 1)
  | none ↦ elim (last_st t) [ some n ↦ some (n + 2) | none ↦ none ]
]

-- Whether an OSC sequence begins with `c`, before `t`, and how many characters of `t` it takes.
abbrev pub osc_at : ℕ → List ℕ → Option ℕ
osc_at c [] = none
osc_at c (d ∷ t) =
    if c == 27 && d == b']'
    then elim (osc_match t) [ none ↦ none | some n ↦ some (suc n) ]
    else none

-- The substitution: `skip` characters belong to a match already.
unfoldable pub strip_from : ℕ → List ℕ → List ℕ
strip_from skip [] = []
strip_from (suc skip) (c ∷ t) = strip_from skip t
strip_from zero (c ∷ t) = elim (osc_at c t) [
  | some n ↦ strip_from n t
  | none ↦ c ∷ strip_from zero t
]

unfoldable pub strip_osc : List ℕ → List ℕ
strip_osc = strip_from 0
