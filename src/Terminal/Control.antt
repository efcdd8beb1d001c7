-- ===== src/Terminal/Control.antt =====
-- src/cockpit/terminal/engine/fallback.py: what a character and a control sequence do to the active
-- screen.
use cockpit_cli.Prelude.{
  Bool, List, [], if◌then◌else◌, leb, length, ltb, map, max, min, nat_eq, set, string_eq, suc, take,
  zero, ℕ, ◌%◌, ◌&&◌, ◌*◌, ◌+◌, ◌-◌, ◌==◌, ◌||◌, ◌∷◌,
}
use cockpit_cli.Terminal.Screen.{
  ScreenState, blank_first, clear_to_screen_end, clear_to_screen_start, ensure_row, line_at,
  write_char,
}

-- `for _ in range(n): self._write_char(state, " ")`
unfoldable pub write_spaces : ℕ → ScreenState → ScreenState
write_spaces zero s = s
write_spaces (suc n) s = write_spaces n (write_char 32 s)

-- `4 - (state.col % 4) or 4`
abbrev pub next_tab : ℕ → ℕ
next_tab col = let n = 4 - col % 4 in if n == 0 then 4 else n

-- `_consume_character`, on the active screen
unfoldable pub consume_on : ℕ → ScreenState → ScreenState
consume_on c s =
    if c == 13
    then record s { col = 0 }
    else if c == 10
    then ensure_row (s.row + 1) (record s { row = s.row + 1; col = 0 })
    else if c == 8 || c == 127
    then record s { col = s.col - 1 }
    else if c == 9
    then write_spaces (next_tab s.col) s
    else if ltb c 32
    then s
    else write_char c s

abbrev is_digit : ℕ → Bool
is_digit c = leb b'0' c && leb c b'9'

-- `int(numeric) if numeric else 0`, over the digits of a part
unfoldable pub number_from : ℕ → List ℕ → ℕ
number_from acc [] = acc
number_from acc (c ∷ t) = number_from (if is_digit c then acc * 10 + (c - b'0') else acc) t

abbrev add_to_first : ℕ → List (List ℕ) → List (List ℕ)
add_to_first c [] = (c ∷ []) ∷ []
add_to_first c (part ∷ parts) = (c ∷ part) ∷ parts

-- `raw_params.split(";")`
unfoldable pub split_parts : List ℕ → List (List ℕ)
split_parts [] = [] ∷ []
split_parts (c ∷ t) =
    let rest = split_parts t in if c == b';' then [] ∷ rest else add_to_first c rest

unfoldable pub parse_params : List ℕ → List ℕ
parse_params raw = map (number_from 0) (split_parts raw)

-- `params[0]`, of a list that `split` never leaves empty
abbrev pub first_param : List ℕ → ℕ
first_param [] = 0
first_param (p ∷ _) = p

abbrev pub or_one : ℕ → ℕ
or_one p = if p == 0 then 1 else p

-- `(params[1] or 1) - 1 if len(params) > 1 else 0`
abbrev pub second_offset : List ℕ → ℕ
second_offset [] = 0
second_offset (_ ∷ []) = 0
second_offset (_ ∷ p ∷ _) = or_one p - 1

-- `J`; a mode other than 0, 1 and 2 changes nothing.
unfoldable pub erase_display : ℕ → ScreenState → ScreenState
erase_display mode s =
    if mode == 2
    then record s { lines = [] ∷ []; row = 0; col = 0 }
    else if mode == 0
    then clear_to_screen_end s
    else if mode == 1
    then clear_to_screen_start s
    else s

-- `K`; a mode other than 1 and 2 clears to the end of the line.
unfoldable pub erase_line : ℕ → ScreenState → ScreenState
erase_line mode s =
    let s' = ensure_row s.row s in
    let line = line_at s'.row s' in
    if mode == 2
    then record s' { lines = set s'.lines s'.row []; col = 0 }
    else if mode == 1
    then record s' {
      lines = set s'.lines s'.row (blank_first (min (s'.col + 1) (length line)) line);
    }
    else record s' { lines = set s'.lines s'.row (take s'.col line) }

-- Section 4 of `_handle_csi`, on the active screen
unfoldable pub standard : List ℕ → ℕ → ScreenState → ScreenState
standard params final s =
    let n = max 1 (or_one (first_param params)) in
    if final == b'A'
    then record s { row = s.row - n }
    else if final == b'B'
    then ensure_row (s.row + n) (record s { row = s.row + n })
    else if final == b'C'
    then record s { col = s.col + n }
    else if final == b'D'
    then record s { col = s.col - n }
    else if final == b'G'
    then record s { col = or_one (first_param params) - 1 }
    else if final == b'H' || final == b'f'
    then ensure_row (or_one (first_param params) - 1)
        (record s { row = or_one (first_param params) - 1; col = second_offset params })
    else if final == b'J'
    then erase_display (first_param params) s
    else if final == b'K'
    then erase_line (first_param params) s
    else if final == b's'
    then record s { saved_row = s.row; saved_col = s.col }
    else if final == b'u'
    then ensure_row s.saved_row (record s { row = s.saved_row; col = s.saved_col })
    else s
