-- ===== src/Terminal/Tests.antt =====
-- Runs of the terminal engine on concrete chunks, and the theorems at these inputs.
use cockpit_cli.Prelude.{
  List, [], arith, codes, false, nat_eq, refl, string_eq, true, ◌++◌, ◌∷◌, ◌≡◌,
}
use cockpit_cli.Prelude.Int.{negsuc, pos}
use cockpit_cli.Terminal.{
  Engine, feed, handle_csi, new_engine, on_active, snapshot, strip_osc, write_char,
}
use cockpit_cli.Terminal.Invariant.{Call, IsWellFormed, feeds, resizes, run, run-IsWellFormed}
use cockpit_cli.Terminal.Text.{feed-join_lines, join_lines}
use cockpit_cli.Terminal.Eaten.{feed_cut_csi, osc, strip_osc_eats}

abbrev fresh : Engine
fresh = new_engine true

-- A red word, then the line erased up to the cursor.
colours : (snapshot (feed (27 ∷ codes "[31mred" ++ (27 ∷ codes "[1K")) fresh)).lines ≡ [] ∷ []
unfolding feed snapshot new_engine
colours = refl

title_removed :
    (snapshot (feed (27 ∷ codes "]0;title" ++ (7 ∷ codes "ls")) fresh)).lines ≡ codes "ls" ∷ []
unfolding feed snapshot new_engine
title_removed = refl

identifies : (feed (27 ∷ codes "[c") fresh).sent ≡ (27 ∷ codes "[?6c") ∷ []
unfolding feed new_engine
identifies = refl

abbrev session : List Call
session = feeds (27 ∷ codes "[9;9Hx") ∷ resizes (negsuc 3) (pos 132) ∷ feeds (27 ∷ codes "[3A") ∷ []

run-IsWellFormed_example : IsWellFormed (run session (new_engine true))
run-IsWellFormed_example = run-IsWellFormed true session

feed-join_lines_example :
    (feed (join_lines (codes "ls") (codes "a.txt" ∷ [] ∷ [])) (new_engine false)).primary.lines
    ≡ codes "ls" ∷ codes "a.txt" ∷ [] ∷ []
feed-join_lines_example =
    feed-join_lines false (codes "ls") (codes "a.txt" ∷ [] ∷ []) (ground arith) (ground arith)

strip_osc_eats_example : strip_osc (osc (codes "0;a") ++ (codes "text" ++ osc (codes "0;b"))) ≡ []
strip_osc_eats_example =
    strip_osc_eats (codes "0;a") (codes "text") (codes "0;b") (ground arith) (ground arith)
      (ground arith)

feed_cut_csi_example :
    (feed (27 ∷ b'[' ∷ (codes "31" ++ (b'm' ∷ []))) fresh ≡ handle_csi (codes "31") b'm' fresh)
    × (feed (b'm' ∷ []) (feed (27 ∷ b'[' ∷ codes "31") fresh) ≡ on_active (write_char b'm') fresh)
feed_cut_csi_example =
    feed_cut_csi (codes "31") b'm' fresh (ground arith) (omega arith) (omega arith)
