-- ===== src/Layout/Tests.antt =====
-- Edits of a concrete layout, with ratios in hundredths, and the theorems at these inputs.
use cockpit_cli.Prelude.{
  All, Dict, String, [], false, get_elem?, insert, keep, leb, lookup, ltb, nat_eq, none, refl, some,
  string_eq, true, ℕ, ◌==◌, ◌↔◌, ◌∷◌, ◌≡◌, ◌≢◌, ◌≤◌,
}
use cockpit_cli.Layout.Tree.{
  Floats, PanelRef, SplitNode, branch, child, end, index_of, leaf, length_of, move_at,
  move_children, move_panel, panels, remove_children, remove_panel, swap_at,
}
use cockpit_cli.Layout.{Layout, TabLayout, edit_tab, parse_direction, toggle}
use cockpit_cli.Layout.Check.{save_layout_document, validate_layout}
use cockpit_cli.Layout.Valid.{IsValid, save_layout_document_lem}
use cockpit_cli.Layout.Panels.{is_other}
use cockpit_cli.Layout.Removal.{IsCompact, IsNot, panels-removed, removed, removed-IsCompact}
use cockpit_cli.Layout.Stored.{edit_tab_frame, edited, ids}

abbrev hundredths : Floats ℕ
hundredths = record {
  half = 50;
  one = 100;
  lowest = 20;
  highest = 80;
  least = 5;
  most = 95;
  is_zero = λ r. r == 0;
  lt = ltb;
  le = leb;
}

abbrev logs : PanelRef
logs = record { panel_id = "logs"; panel_type = "logs" }

abbrev git : PanelRef
git = record { panel_id = "git"; panel_type = "git" }

abbrev work : PanelRef
work = record { panel_id = "main"; panel_type = "work" }

-- The panel `main` beside the panels `git` and `logs`, of which one is above the other.
abbrev root : SplitNode ℕ
root = record {
  orientation = some "vertical";
  ratio = some 60;
  children =
      child (leaf work)
        (child (branch (some "horizontal") none (child (leaf git) (child (leaf logs) end))) end);
}

abbrev tab : TabLayout ℕ
tab = record { id = "main"; name = "Main"; root_split = root }

abbrev layout : Layout ℕ
layout = record { id = "default"; name = "Default"; tabs = tab ∷ []; focus_path = [] }

abbrev stored : Dict String (Layout ℕ)
stored = ("default", layout) ∷ []

without_git : panels (removed hundredths "git" root).children ≡ work ∷ logs ∷ []
unfolding panels remove_panel remove_children
without_git = refl

logs_up : panels (move_panel "logs" true root).0.children ≡ work ∷ logs ∷ git ∷ []
unfolding panels move_panel move_children move_at index_of swap_at
logs_up = refl

-- Blanks and capitals do not matter.
reads_direction : parse_direction " Next" ≡ some false
unfolding parse_direction
reads_direction = refl

accepts : validate_layout hundredths none none layout ≡ []
unfolding validate_layout
accepts = refl

panels-removed_example :
    (keep (is_other "git") (panels (removed hundredths "git" root).children)
      ≡ keep (is_other "git") (panels root.children))
    × (git.panel_id ≢ "work-panel"
        → All (IsNot "git") (panels (removed hundredths "git" root).children))
panels-removed_example = panels-removed hundredths "git" root

removed-IsCompact_example :
    (1 ≤ length_of (removed hundredths "git" root).children)
    × IsCompact (removed hundredths "git" root).children
removed-IsCompact_example = removed-IsCompact hundredths "git" root

edit_tab_frame_example :
    (updated : Layout ℕ) × (layouts' : Dict String (Layout ℕ)) × (edit_tab "default" "main" toggle
        stored
      ≡ some (updated, layouts'))
    × (lookup "default" layouts' ≡ some updated)
    × ((other : String) → other ≢ "default" → lookup other layouts' ≡ lookup other stored)
    × (updated.id ≡ "default")
    × (updated.name ≡ layout.name)
    × (updated.focus_path ≡ layout.focus_path)
    × (ids updated.tabs ≡ ids layout.tabs)
    × ((i : ℕ) (tab : TabLayout ℕ)
        → get_elem? layout.tabs i ≡ some tab
        → get_elem? updated.tabs i ≡ some (edited "main" toggle tab))
unfolding lookup
edit_tab_frame_example = edit_tab_frame "default" "main" toggle stored layout refl refl

save_layout_document_lem_example :
    ((save_layout_document hundredths none none layout stored
        ≡ some (layout, insert "default" layout stored))
      ↔ IsValid hundredths none none layout)
    × ((save_layout_document hundredths none none layout stored ≡ none)
        ↔ ¬ IsValid hundredths none none layout)
save_layout_document_lem_example = save_layout_document_lem hundredths none none layout stored
