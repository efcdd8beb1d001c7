-- ===== src/Terminal/Screen.antt =====
-- src/cockpit/terminal/engine/fallback.py: one screen, its lines and its cursor.
use cockpit_cli.Prelude.{
  List, [], get_elem?, if◌then◌else◌, length, ltb, min, nat_eq, none, replicate, set, some,
  string_eq, suc, take, zero, ℕ, ◌++◌, ◌+◌, ◌-◌, ◌==◌, ◌∷◌,
}

pub record ScreenState : Type 0 where
  pub lines : List (List ℕ)
  pub row : ℕ
  pub col : ℕ
  pub saved_row : ℕ
  pub saved_col : ℕ

unfoldable pub new_screen : ScreenState
new_screen = record { lines = [] ∷ []; row = 0; col = 0; saved_row = 0; saved_col = 0 }

-- `while len(state.lines) <= row: state.lines.append([])`: as many rounds as rows are missing.
unfoldable pub ensure_row : ℕ → ScreenState → ScreenState
ensure_row row s = record s { lines = s.lines ++ replicate (suc row - length s.lines) [] }

-- `state.lines[row]`; that the row is there is part of the invariant.
unfoldable pub line_at : ℕ → ScreenState → List ℕ
line_at row s = elim (get_elem? s.lines row) [ none ↦ [] | some line ↦ line ]

-- The padding loop of `_write_char`, and the write
abbrev pub put : ℕ → ℕ → List ℕ → List ℕ
put col c line =
    let padded = line ++ replicate (col - length line) 32 in
    if length padded == col then padded ++ (c ∷ []) else set padded col c

unfoldable pub write_char : ℕ → ScreenState → ScreenState
write_char c s =
    let s' = ensure_row s.row s in
    record s' { lines = set s'.lines s'.row (put s'.col c (line_at s'.row s')); col = s'.col + 1 }

-- `for row_index in range(n): state.lines[row_index] = []`
abbrev pub clear_first : ℕ → List (List ℕ) → List (List ℕ)
clear_first zero ls = ls
clear_first (suc n) [] = []
clear_first (suc n) (l ∷ ls) = [] ∷ clear_first n ls

abbrev pub blank_first : ℕ → List ℕ → List ℕ
blank_first zero line = line
blank_first (suc n) [] = []
blank_first (suc n) (c ∷ line) = 32 ∷ blank_first n line

unfoldable pub clear_to_screen_end : ScreenState → ScreenState
clear_to_screen_end s =
    let s' = ensure_row s.row s in
    let cut = set s'.lines s'.row (take s'.col (line_at s'.row s')) in
    record s' { lines = if ltb (s'.row + 1) (length cut) then take (s'.row + 1) cut else cut }

unfoldable pub clear_to_screen_start : ScreenState → ScreenState
clear_to_screen_start s =
    let s' = ensure_row s.row s in
    let line = line_at s'.row s' in
    record s' {
      lines =
          set (clear_first s'.row s'.lines) s'.row
            (blank_first (min (s'.col + 1) (length line)) line);
    }
