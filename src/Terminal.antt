-- ===== src/Terminal.antt =====
-- src/cockpit/terminal/engine/fallback.py: the terminal engine. Text is a list of code points. What
-- the engine sends back through `on_input` is collected in `sent`. The digits of a parameter are the
-- ASCII ones.
mod Screen
mod Osc
mod Control
pub mod Invariant
pub mod Steps
pub mod Text
pub mod Switch
pub mod Eaten
mod Tests
pub use Screen.{ScreenState, clear_first, blank_first, put}
pub use Osc.{osc_at}
pub use Control.{next_tab, or_one, first_param, second_offset}
unfoldable pub use Screen.{
  new_screen, ensure_row, write_char, line_at, clear_to_screen_end, clear_to_screen_start,
}
unfoldable pub use Control.{
  consume_on, standard, parse_params, split_parts, number_from, erase_display, erase_line,
  write_spaces,
}
unfoldable pub use Osc.{strip_from, strip_osc, osc_match, first_bel, last_st}
use cockpit_cli.Prelude.{
  Bool, List, Option, [], codes, false, if◌then◌else◌, is_empty, is_prefix, is_space, leb, length,
  map, max, nat_eq, none, not, rstrip, some, string_eq, suc, true, zero, ℕ, ◌&&◌, ◌++◌, ◌+◌, ◌-◌,
  ◌==◌, ◌||◌, ◌∷◌,
}
use cockpit_cli.Prelude.Int.{pos_part, ℤ}

pub record Engine : Type 0 where
  pub rows : ℕ
  pub cols : ℕ
  pub primary : ScreenState
  pub alternate : ScreenState
  pub alternate_active : Bool
  pub has_on_input : Bool
  pub sent : List (List ℕ)

-- `reset`
pub reset : Engine → Engine
reset e = record e { primary = new_screen; alternate = new_screen; alternate_active = false }

-- `FallbackTerminalEngine(on_input)`
pub new_engine : Bool → Engine
new_engine has_on_input = record {
  rows = 24;
  cols = 80;
  primary = new_screen;
  alternate = new_screen;
  alternate_active = false;
  has_on_input = has_on_input;
  sent = [];
}

pub resize : ℤ → ℤ → Engine → Engine
resize rows cols e = record e { rows = max 1 (pos_part rows); cols = max 1 (pos_part cols) }

-- `_state`, and the engine after a change of that screen
pub active : Engine → ScreenState
active e = if e.alternate_active then e.alternate else e.primary

pub on_active : (ScreenState → ScreenState) → Engine → Engine
on_active f e =
    if e.alternate_active
    then record e { alternate = f e.alternate }
    else record e { primary = f e.primary }

pub consume_character : ℕ → Engine → Engine
consume_character c = on_active (consume_on c)

-- `if self._on_input: self._on_input(text)`
pub send : List ℕ → Engine → Engine
send text e = if e.has_on_input then record e { sent = e.sent ++ (text ∷ []) } else e

abbrev is_one : ℕ → List ℕ → Bool
is_one c [] = false
is_one c (d ∷ rest) = c == d && is_empty rest

-- `_handle_csi`
pub handle_csi : List ℕ → ℕ → Engine → Engine
handle_csi raw final e =
    if is_prefix (codes "?1049") raw
    then if final == b'h'
      then record e { alternate_active = true; alternate = new_screen }
      else if final == b'l'
      then record e { alternate_active = false }
      else e
    else if (is_empty raw || is_one b'0' raw) && final == b'c'
    then send (27 ∷ codes "[?6c") e
    else if is_prefix (codes ">") raw && final == b'c'
    then send (27 ∷ codes "[>0;10;0c") e
    else if is_prefix (codes "?") raw || is_prefix (codes ">") raw
    then e
    else on_active (standard (parse_params raw) final) e

-- The parameters of a control sequence and its final character, the first from @ to ~, if it has one.
pub find_final : List ℕ → Option (List ℕ × ℕ)
find_final [] = none
find_final (c ∷ t) =
    let rest = find_final t in
    if leb b'@' c && leb c b'~'
    then some ([], c)
    else elim rest [ none ↦ none | some (raw, final) ↦ some (c ∷ raw, final) ]

-- `_consume_escape`, at a text that begins with an escape character: how much of it is consumed, and
-- the engine afterwards. `text` is what stands behind the escape character.
pub consume_escape : List ℕ → Engine → ℕ × Engine
consume_escape [] e = (1, e)
consume_escape (c ∷ t) e = if not (c == b'[') then (2, e) else elim (find_final t) [
  | none ↦ (2 + length t, e)
  | some (raw, final) ↦ (2 + length raw + 1, handle_csi raw final e)
]

-- The loop of `feed`: `skip` characters are consumed already.
pub feed_from : ℕ → List ℕ → Engine → Engine
feed_from skip [] e = e
feed_from (suc skip) (c ∷ t) e = feed_from skip t e
feed_from zero (c ∷ t) e =
    let (consumed, e') = if c == 27 then consume_escape t e else (1, consume_character c e) in
    feed_from (consumed - 1) t e'

pub feed : List ℕ → Engine → Engine
unfolding feed_from strip_osc strip_from osc_match first_bel last_st consume_escape
    consume_character on_active consume_on write_spaces write_char ensure_row line_at handle_csi
    find_final is_prefix send standard parse_params split_parts number_from erase_display erase_line
    clear_to_screen_end clear_to_screen_start new_screen
feed chunk e = feed_from 0 (strip_osc chunk) e

pub record Snapshot : Type 0 where
  pub rows : ℕ
  pub cols : ℕ
  pub lines : List (List ℕ)
  pub cursor_row : ℕ
  pub cursor_col : ℕ
  pub alternate_screen_active : Bool

-- `while lines and lines[-1] == "": lines.pop()`
pub drop_blank_end : List (List ℕ) → List (List ℕ)
drop_blank_end [] = []
drop_blank_end (l ∷ ls) =
    let rest = drop_blank_end ls in if is_empty l && is_empty rest then [] else l ∷ rest

abbrev or_blank : List (List ℕ) → List (List ℕ)
or_blank [] = [] ∷ []
or_blank (l ∷ ls) = l ∷ ls

-- `snapshot`. The cells repeat the characters of the lines, and the cursor is always visible.
pub snapshot : Engine → Snapshot
unfolding active rstrip drop_blank_end is_space
snapshot e = record {
  rows = e.rows;
  cols = e.cols;
  lines = or_blank (drop_blank_end (map rstrip (active e).lines));
  cursor_row = (active e).row;
  cursor_col = (active e).col;
  alternate_screen_active = e.alternate_active;
}
