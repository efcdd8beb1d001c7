-- ===== src/Terminal/Invariant.antt =====
-- src/cockpit/terminal/engine/fallback.py: the cursor of each screen stands on a line that exists, so
-- that no access to a line is out of range.
use cockpit_cli.Prelude.{
  Bool, Bool-cases, List, Option-cases, [], ap, arith, if◌then◌else◌, inl, inr, length,
  length-append, length-replicate, length-set, length-take, ltb, max, min, nat_eq, refl, replicate,
  set, string_eq, suc, take, zero, ℕ, ◌+◌, ◌-◌, ◌<◌, ◌==◌, ◌∷◌, ◌≡◌, ◌≤◌,
}
use cockpit_cli.Prelude.Int.{ℤ}
use cockpit_cli.Terminal.{
  Engine, ScreenState, blank_first, clear_first, clear_to_screen_end, clear_to_screen_start,
  consume_character, consume_escape, consume_on, ensure_row, erase_display, erase_line, feed,
  feed_from, find_final, first_param, handle_csi, line_at, new_engine, new_screen, next_tab,
  on_active, or_one, parse_params, reset, resize, second_offset, send, standard, strip_osc,
  write_char, write_spaces,
}

abbrev pub IsPlaced : ScreenState → Type 0
IsPlaced s = s.row < length s.lines

length-ensure_row :
    (row : ℕ) (s : ScreenState)
    → (row < length (ensure_row row s).lines) × (length s.lines ≤ length (ensure_row row s).lines)
unfolding ensure_row
length-ensure_row row s = omega (
  arith,
  length-append {0} s.lines (replicate (suc row - length s.lines) []),
  length-replicate {0} {A = List ℕ} (suc row - length s.lines) [],
)

row-ensure_row : (row : ℕ) (s : ScreenState) → (ensure_row row s).row ≡ s.row
unfolding ensure_row
row-ensure_row row s = refl

ensure_row-IsPlaced : (s : ScreenState) → IsPlaced (ensure_row s.row s)
ensure_row-IsPlaced s = rw row-ensure_row (length-ensure_row s.row s).0

set_line-IsPlaced :
    (s : ScreenState) (line : List ℕ) → IsPlaced s → s.row < length (set s.lines s.row line)
set_line-IsPlaced s line h = rw length-set h

write_char-IsPlaced : (c : ℕ) (s : ScreenState) → IsPlaced (write_char c s)
unfolding write_char
write_char-IsPlaced c s = set_line-IsPlaced (ensure_row s.row s) _ (ensure_row-IsPlaced s)

write_spaces-IsPlaced : (n : ℕ) (s : ScreenState) → IsPlaced s → IsPlaced (write_spaces n s)
unfolding write_spaces
write_spaces-IsPlaced zero s h = h
write_spaces-IsPlaced (suc n) s h =
    write_spaces-IsPlaced n (write_char 32 s) (write_char-IsPlaced 32 s)

consume_on-IsPlaced : (c : ℕ) (s : ScreenState) → IsPlaced s → IsPlaced (consume_on c s)
unfolding consume_on
consume_on-IsPlaced c s h = ground (
  arith,
  ensure_row-IsPlaced (record s { row = s.row + 1; col = 0 }),
  write_char-IsPlaced c s,
  write_spaces-IsPlaced (next_tab s.col) s h,
)

length-clear_first : (n : ℕ) (ls : List (List ℕ)) → length (clear_first n ls) ≡ length ls
length-clear_first zero ls = refl
length-clear_first (suc n) [] = refl
length-clear_first (suc n) (l ∷ ls) = ap suc (length-clear_first n ls)

cut_below :
    (row : ℕ) (ls : List (List ℕ))
    → row < length ls
    → row < length (if ltb (row + 1) (length ls) then take (row + 1) ls else ls)
cut_below row ls h = ground (arith, length-take (row + 1) ls)

clear_to_screen_end-IsPlaced : (s : ScreenState) → IsPlaced (clear_to_screen_end s)
unfolding clear_to_screen_end
clear_to_screen_end-IsPlaced s =
    cut_below _ _ (set_line-IsPlaced (ensure_row s.row s) _ (ensure_row-IsPlaced s))

clear_to_screen_start-IsPlaced : (s : ScreenState) → IsPlaced (clear_to_screen_start s)
unfolding clear_to_screen_start
clear_to_screen_start-IsPlaced s = rw (length-set, length-clear_first) (ensure_row-IsPlaced s)

erase_display-IsPlaced : (mode : ℕ) (s : ScreenState) → IsPlaced s → IsPlaced (erase_display mode s)
unfolding erase_display
erase_display-IsPlaced mode s h =
    ground (arith, clear_to_screen_end-IsPlaced s, clear_to_screen_start-IsPlaced s)

erase_line-IsPlaced : (mode : ℕ) (s : ScreenState) → IsPlaced (erase_line mode s)
unfolding erase_line
erase_line-IsPlaced mode s =
    let s' = ensure_row s.row s in
    let line = line_at s'.row s' in
    let h = ensure_row-IsPlaced s in
    ground (
      arith,
      set_line-IsPlaced s' [] h,
      set_line-IsPlaced s' (blank_first (min (s'.col + 1) (length line)) line) h,
      set_line-IsPlaced s' (take s'.col line) h,
    )

standard-IsPlaced :
    (params : List ℕ) (final : ℕ) (s : ScreenState)
    → IsPlaced s
    → IsPlaced (standard params final s)
unfolding standard
standard-IsPlaced params final s h =
    let down = s.row + max 1 (or_one (first_param params)) in
    let to = or_one (first_param params) - 1 in
    ground (
      arith,
      ensure_row-IsPlaced (record s { row = down }),
      ensure_row-IsPlaced (record s { row = to; col = second_offset params }),
      ensure_row-IsPlaced (record s { row = s.saved_row; col = s.saved_col }),
      erase_display-IsPlaced (first_param params) s h,
      erase_line-IsPlaced (first_param params) s,
    )

-- Both screens are placed, and the size is at least one by one.
pub record IsWellFormed (e : Engine) : Type 0 where
  pub some_rows : 1 ≤ e.rows
  pub some_cols : 1 ≤ e.cols
  pub on_primary : IsPlaced e.primary
  pub on_alternate : IsPlaced e.alternate

on_active-IsWellFormed :
    (f : ScreenState → ScreenState) (e : Engine)
    → ((s : ScreenState) → IsPlaced s → IsPlaced (f s))
    → IsWellFormed e
    → IsWellFormed (on_active f e)
unfolding on_active
on_active-IsWellFormed f e keeps w =
    ground (arith, keeps e.primary w.on_primary, keeps e.alternate w.on_alternate)

handle_csi-IsWellFormed :
    (raw : List ℕ) (final : ℕ) (e : Engine) → IsWellFormed e → IsWellFormed (handle_csi raw final e)
unfolding handle_csi send new_screen
handle_csi-IsWellFormed raw final e w = ground (
  arith,
  on_active-IsWellFormed (standard (parse_params raw) final) e
      (standard-IsPlaced (parse_params raw) final) w,
)

consume_escape-IsWellFormed :
    (t : List ℕ) (e : Engine) → IsWellFormed e → IsWellFormed (consume_escape t e).1
unfolding consume_escape
consume_escape-IsWellFormed [] e w = w
consume_escape-IsWellFormed (c ∷ t) e w = elim (Option-cases (find_final t)) [
  | inl p ↦ ground arith
  | inr ((raw, final), p) ↦ ground (arith, handle_csi-IsWellFormed raw final e w)
]

feed_from-IsWellFormed :
    (skip : ℕ) (t : List ℕ) (e : Engine) → IsWellFormed e → IsWellFormed (feed_from skip t e)
unfolding feed_from consume_character
feed_from-IsWellFormed skip [] e w = w
feed_from-IsWellFormed (suc skip) (c ∷ t) e w = feed_from-IsWellFormed skip t e w
feed_from-IsWellFormed zero (c ∷ t) e w = elim (Bool-cases (c == 27)) [
  | inl p ↦ rw p (
      feed_from-IsWellFormed ((consume_escape t e).0 - 1) t (consume_escape t e).1
        (consume_escape-IsWellFormed t e w))
  | inr p ↦ rw p (
      feed_from-IsWellFormed (1 - 1) t (on_active (consume_on c) e)
        (on_active-IsWellFormed (consume_on c) e (consume_on-IsPlaced c) w))
]

feed-IsWellFormed : (chunk : List ℕ) (e : Engine) → IsWellFormed e → IsWellFormed (feed chunk e)
feed-IsWellFormed chunk e w = unfold feed in feed_from-IsWellFormed 0 (strip_osc chunk) e w

-- The calls that change an engine.
pub data Call : Type 0 where
  feeds : List ℕ → Call
  resizes : ℤ → ℤ → Call
  resets : Call

abbrev pub run : List Call → Engine → Engine
run [] e = e
run (feeds chunk ∷ calls) e = run calls (feed chunk e)
run (resizes rows cols ∷ calls) e = run calls (resize rows cols e)
run (resets ∷ calls) e = run calls (reset e)

run_from-IsWellFormed :
    (calls : List Call) (e : Engine) → IsWellFormed e → IsWellFormed (run calls e)
unfolding resize reset new_screen
run_from-IsWellFormed [] e w = w
run_from-IsWellFormed (feeds chunk ∷ calls) e w =
    run_from-IsWellFormed calls (feed chunk e) (feed-IsWellFormed chunk e w)
run_from-IsWellFormed (resizes rows cols ∷ calls) e w =
    run_from-IsWellFormed calls (resize rows cols e) (ground arith)
run_from-IsWellFormed (resets ∷ calls) e w = run_from-IsWellFormed calls (reset e) (ground arith)

-- After any calls at all on a new engine, with whatever text in whatever chunks, both cursors stand
-- on lines that exist, and the size is at least one by one.
pub run-IsWellFormed :
    (has_on_input : Bool) (calls : List Call) → IsWellFormed (run calls (new_engine has_on_input))
unfolding new_engine new_screen
run-IsWellFormed has_on_input calls =
    run_from-IsWellFormed calls (new_engine has_on_input) (ground arith)
