-- ===== src/Terminal/Text.antt =====
-- src/cockpit/terminal/engine/fallback.py: lines of text that are fed to a new engine are the lines
-- on its screen.
use mathlib.Core.List.{append-nil, append_assoc}
use cockpit_cli.Prelude.{
  All, All-append, All-weaken, Bool, List, Option, [], ap, arith, beq_refl, false, get_elem?,
  length, length-append, nat_eq, none, refl, set, some, string_eq, suc, sym, ℕ, ◌++◌, ◌+◌, ◌-◌, ◌∙◌,
  ◌∷◌, ◌≡◌, ◌≢◌,
}
use cockpit_cli.Terminal.{
  Engine, ScreenState, consume_character, consume_on, ensure_row, feed, feed_from, line_at,
  new_engine, new_screen, on_active, put, write_char,
}
use cockpit_cli.Terminal.Steps.{
  IsPrintable, consume_printable, feed_from_nil, feed_from_plain, feed_plain,
}

-- The lines `done`, and the cursor at the end of the line `cur` below them.
abbrev page : List (List ℕ) → List ℕ → ScreenState → ScreenState
page done cur s = record s { lines = done ++ (cur ∷ []); row = length done; col = length cur }

get_elem?-last :
    (done : List (List ℕ)) (cur : List ℕ) → get_elem? (done ++ (cur ∷ [])) (length done) ≡ some cur
get_elem?-last [] cur = refl
get_elem?-last (l ∷ done) cur = get_elem?-last done cur

set_last :
    (done : List (List ℕ)) (cur new : List ℕ)
    → set (done ++ (cur ∷ [])) (length done) new ≡ done ++ (new ∷ [])
set_last [] cur new = refl
set_last (l ∷ done) cur new = ap (λ ls. l ∷ ls) (set_last done cur new)

put_end : (cur : List ℕ) (c : ℕ) → put (length cur) c cur ≡ cur ++ (c ∷ [])
put_end cur c =
    let none_missing : length cur - length cur ≡ 0 = omega arith in
    rw none_missing (rw (append-nil cur) (rw (beq_refl (length cur))))

ensure_row-page :
    (done : List (List ℕ)) (cur : List ℕ) (s : ScreenState)
    → ensure_row (length done) (page done cur s) ≡ page done cur s
unfolding ensure_row
ensure_row-page done cur s =
    let none_missing : suc (length done) - length (done ++ (cur ∷ [])) ≡ 0 =
      omega (arith, length-append done (cur ∷ [])) in
    rw none_missing (rw (append-nil (done ++ (cur ∷ []))))

write_char_lem :
    (c : ℕ) (s s' : ScreenState) (line : List ℕ)
    → ensure_row s.row s ≡ s'
    → get_elem? s'.lines s'.row ≡ some line
    → write_char c s
      ≡ record s' { lines = set s'.lines s'.row (put s'.col c line); col = s'.col + 1 }
unfolding write_char line_at
write_char_lem c s s' line same there = rw same (
    ap (λ l. record s' { lines = set s'.lines s'.row (put s'.col c l); col = s'.col + 1 })
      (read (get_elem? s'.lines s'.row) there))
  where
    read :
        (o : Option (List ℕ))
        → o ≡ some line
        → (elim o as (λ _. List ℕ) [ none ↦ [] | some l ↦ l ]) ≡ line
    read none h = cc
    read (some l) h = cc

write_char-page :
    (c : ℕ) (done : List (List ℕ)) (cur : List ℕ) (s : ScreenState)
    → write_char c (page done cur s) ≡ page done (cur ++ (c ∷ [])) s
write_char-page c done cur s =
    let lines : set (done ++ (cur ∷ [])) (length done) (put (length cur) c cur)
        ≡ done ++ ((cur ++ (c ∷ [])) ∷ []) =
      rw (put_end cur c) (set_last done cur (cur ++ (c ∷ []))) in
    let col : length cur + 1 ≡ length (cur ++ (c ∷ [])) = sym (length-append cur (c ∷ [])) in
    write_char_lem c (page done cur s) (page done cur s) cur (ensure_row-page done cur s)
      (get_elem?-last done cur)
    ∙ (λ i. record s { lines = lines i; row = length done; col = col i })

newline_page :
    (done : List (List ℕ)) (cur : List ℕ) (s : ScreenState)
    → consume_on 10 (page done cur s) ≡ page (done ++ (cur ∷ [])) [] s
unfolding consume_on ensure_row
newline_page done cur s =
    let len : length (done ++ (cur ∷ [])) ≡ length done + 1 = length-append done (cur ∷ []) in
    let one_missing : suc (length done + 1) - (length done + 1) ≡ 1 = omega arith in
    rw (len) (rw one_missing)

-- An engine that shows its primary screen, with this page on it.
abbrev shows : List (List ℕ) → List ℕ → Engine → Engine
shows done cur e = record e { primary = page done cur e.primary; alternate_active = false }

consume_shown :
    (c : ℕ) (done : List (List ℕ)) (cur : List ℕ) (e : Engine)
    → IsPrintable c
    → consume_character c (shows done cur e) ≡ shows done (cur ++ (c ∷ [])) e
unfolding on_active
consume_shown c done cur e h =
    consume_printable c (shows done cur e) h
    ∙ (λ i. record e { primary = write_char-page c done cur e.primary i; alternate_active = false })

consume_newline :
    (done : List (List ℕ)) (cur : List ℕ) (e : Engine)
    → consume_character 10 (shows done cur e) ≡ shows (done ++ (cur ∷ [])) [] e
unfolding on_active consume_character
consume_newline done cur e =
    λ i. record e { primary = newline_page done cur e.primary i; alternate_active = false }

not_escape : (c : ℕ) → IsPrintable c → c ≢ 27
not_escape c h p = omega arith

feed_from_line :
    (l rest : List ℕ) (done : List (List ℕ)) (cur : List ℕ) (e : Engine)
    → All IsPrintable l
    → feed_from 0 (l ++ rest) (shows done cur e) ≡ feed_from 0 rest (shows done (cur ++ l) e)
feed_from_line [] rest done cur e h = rw (append-nil cur)
feed_from_line (c ∷ l) rest done cur e (h, hs) =
    feed_from_plain c (l ++ rest) (shows done cur e) (not_escape c h)
    ∙ ap (feed_from 0 (l ++ rest)) (consume_shown c done cur e h)
    ∙ feed_from_line l rest done (cur ++ (c ∷ [])) e hs
    ∙ ap (λ u. feed_from 0 rest (shows done u e)) (append_assoc cur (c ∷ []) l)

-- The lines, with a line feed between each two.
abbrev pub join_lines : List ℕ → List (List ℕ) → List ℕ
join_lines l [] = l
join_lines l (m ∷ ls) = l ++ (10 ∷ join_lines m ls)

feed_from_lines :
    (l : List ℕ) (ls done : List (List ℕ)) (e : Engine)
    → All IsPrintable l
    → All (All IsPrintable) ls
    → (feed_from 0 (join_lines l ls) (shows done [] e)).primary.lines ≡ done ++ (l ∷ ls)
feed_from_lines l [] done e h hs =
    ap (λ u. (feed_from 0 u (shows done [] e)).primary.lines) (sym (append-nil l))
    ∙ ap (λ x. x.primary.lines) (feed_from_line l [] done [] e h ∙ feed_from_nil (shows done l e))
feed_from_lines l (m ∷ ls) done e h (hm, hs) =
    ap (λ x. x.primary.lines)
      (feed_from_line l (10 ∷ join_lines m ls) done [] e h
        ∙ feed_from_plain 10 (join_lines m ls) (shows done l e) (λ p. omega arith)
        ∙ ap (feed_from 0 (join_lines m ls)) (consume_newline done l e))
    ∙ feed_from_lines m ls (done ++ (l ∷ [])) e hm hs
    ∙ append_assoc done (l ∷ []) (m ∷ ls)

plain_lines :
    (l : List ℕ) (ls : List (List ℕ))
    → All IsPrintable l
    → All (All IsPrintable) ls
    → All (λ c. c ≢ 27) (join_lines l ls)
plain_lines l [] h hs = All-weaken l not_escape h
plain_lines l (m ∷ ls) h (hm, hs) =
    All-append (λ c. c ≢ 27) l (10 ∷ join_lines m ls) (All-weaken l not_escape h)
      ((λ p. omega arith), plain_lines m ls hm hs)

-- Lines of printable text, fed to a new engine with line feeds between them, are exactly the lines on
-- its screen.
pub feed-join_lines :
    (has_on_input : Bool) (l : List ℕ) (ls : List (List ℕ))
    → All IsPrintable l
    → All (All IsPrintable) ls
    → (feed (join_lines l ls) (new_engine has_on_input)).primary.lines ≡ l ∷ ls
unfolding new_engine new_screen
feed-join_lines has_on_input l ls h hs =
    ap (λ x. x.primary.lines)
      (feed_plain (join_lines l ls) (new_engine has_on_input) (plain_lines l ls h hs))
    ∙ feed_from_lines l ls [] (new_engine has_on_input) h hs
