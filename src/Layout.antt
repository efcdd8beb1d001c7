-- ===== src/Layout.antt =====
-- src/cockpit/workspace/services/layout_service.py, over the table of layouts that
-- src/cockpit/workspace/repositories.py keeps. An operation on a layout that is not there raises
-- `LookupError`, here `none`. The deep copies of the code give equal values.
pub mod Tree
pub mod Check
pub mod Reports
pub mod Valid
pub mod Panels
pub mod Removal
pub mod Move
pub mod Stored
mod Tests
use Prim.Native.String.{◌++◌ as str_append}
use cockpit_cli.Prelude.{
  Bool, Dict, List, Option, String, codes, false, if◌then◌else◌, insert, lookup, lower, lower_char,
  lstrip, map, nat_eq, none, rstrip, same_text, some, string_eq, true, upper, ◌==◌,
}
use cockpit_cli.Layout.Tree.{
  Child, Floats, PanelRef, SplitNode, append, branch, child, end, leaf, move_panel, remove_panel,
  replace_panel,
}

pub record TabLayout (R : Type 0) : Type 0 where
  pub id : String
  pub name : String
  pub root_split : SplitNode R

pub record Layout (R : Type 0) : Type 0 where
  pub id : String
  pub name : String
  pub tabs : List (TabLayout R)
  pub focus_path : List String

-- `tab.root_split.orientation or "vertical"`
abbrev pub orientation_or : Option String → String
orientation_or none = "vertical"
orientation_or (some o) = if o == "" then "vertical" else o

abbrev pub or_default {ℓ} : {A : Type ℓ} → A → Option A → Option A
or_default a none = some a
or_default a (some b) = some b

-- `direction.strip().lower()`, and whether it is "previous"; `none` where it is neither of the two.
pub parse_direction : String → Option Bool
unfolding rstrip lstrip lower_char same_text
parse_direction direction =
    let normalized = lower (lstrip (rstrip (codes direction))) in
    if same_text normalized (codes "previous")
    then some true
    else if same_text normalized (codes "next")
    then some false
    else none

-- `name or f"{source.name} Copy"`
abbrev pub name_or : Option String → String → String
name_or none source = str_append source " Copy"
name_or (some n) source = if n == "" then str_append source " Copy" else n

module _ {R : Type 0} where
  -- The loop over the tabs that every edit of a tab shares.
  pub edit_tabs : String → (SplitNode R → SplitNode R) → List (TabLayout R) → List (TabLayout R)
  edit_tabs tab_id f tabs =
      map (λ tab. if tab.id == tab_id then record tab { root_split = f tab.root_split } else tab)
        tabs

  -- `_require_layout`, the loop over the tabs, and `save`
  pub edit_tab :
      String
      → String
      → (SplitNode R → SplitNode R)
      → Dict String (Layout R)
      → Option (Layout R × Dict String (Layout R))
  unfolding edit_tabs
  edit_tab layout_id tab_id f layouts = elim (lookup layout_id layouts) [
    | none ↦ none
    | some layout ↦
        let updated = record layout { tabs = edit_tabs tab_id f layout.tabs } in
        some (updated, insert updated.id updated layouts)
  ]

  pub toggle : SplitNode R → SplitNode R
  toggle node = record node {
    orientation =
        some (if orientation_or node.orientation == "vertical" then "horizontal" else "vertical");
  }

  pub toggle_tab_orientation :
      String → String → Dict String (Layout R) → Option (Layout R × Dict String (Layout R))
  unfolding edit_tab toggle
  toggle_tab_orientation layout_id tab_id = edit_tab layout_id tab_id toggle

  -- `max(0.2, min(0.8, ratio))`, with Python's `min` and `max`
  pub clamp : Floats R → R → R
  clamp f ratio =
      let upper = if f.lt ratio f.highest then ratio else f.highest in
      if f.lt f.lowest upper then upper else f.lowest

  pub set_tab_ratio :
      Floats R
      → String
      → String
      → R
      → Dict String (Layout R)
      → Option (Layout R × Dict String (Layout R))
  unfolding edit_tab clamp
  set_tab_ratio f layout_id tab_id ratio =
      edit_tab layout_id tab_id (λ node. record node { ratio = some (clamp f ratio) })

  -- `root_split.ratio or 0.5`
  abbrev pub ratio_or : Floats R → Option R → R
  ratio_or f none = f.half
  ratio_or f (some r) = if f.is_zero r then f.half else r

  pub add_panel : Floats R → PanelRef → SplitNode R → SplitNode R
  unfolding append
  add_panel f new node = elim node.children [
    | child (leaf q) end ↦ record {
      orientation = some (orientation_or node.orientation);
      ratio = some (ratio_or f node.ratio);
      children = child (leaf q) (child (leaf new) end);
    }
    | cs ↦ record {
      orientation = or_default "vertical" node.orientation;
      ratio = or_default f.half node.ratio;
      children = append cs (leaf new);
    }
  ]

  pub add_panel_to_tab :
      Floats R
      → String
      → String
      → PanelRef
      → Dict String (Layout R)
      → Option (Layout R × Dict String (Layout R))
  unfolding edit_tab add_panel
  add_panel_to_tab f layout_id tab_id new = edit_tab layout_id tab_id (add_panel f new)

  -- `next_root`
  abbrev pub as_root : Floats R → Child R → SplitNode R
  as_root f (leaf q) = record {
    orientation = some "vertical";
    ratio = some f.one;
    children = child (leaf q) end;
  }
  as_root f (branch o r cs) = record { orientation = o; ratio = r; children = cs }

  pub remove_panel_from_tab :
      Floats R
      → String
      → String
      → String
      → Dict String (Layout R)
      → Option (Layout R × Dict String (Layout R))
  unfolding edit_tab remove_panel
  remove_panel_from_tab f layout_id tab_id p =
      edit_tab layout_id tab_id (λ node. as_root f (remove_panel p node))

  pub replace_panel_in_tab :
      String
      → String
      → String
      → PanelRef
      → Dict String (Layout R)
      → Option (Layout R × Dict String (Layout R))
  unfolding edit_tab replace_panel
  replace_panel_in_tab layout_id tab_id old new = edit_tab layout_id tab_id (replace_panel old new)

  -- `none` is also the `ValueError` of a direction that is neither of the two.
  pub move_panel_in_tab :
      String
      → String
      → String
      → String
      → Dict String (Layout R)
      → Option (Layout R × Dict String (Layout R))
  unfolding edit_tab move_panel
  move_panel_in_tab layout_id tab_id p direction layouts = elim (parse_direction direction) [
    | none ↦ none
    | some previous ↦ edit_tab layout_id tab_id (λ node. (move_panel p previous node).0) layouts
  ]

  -- `save_variant`, under a name that is given or none
  pub save_variant :
      String
      → String
      → Option String
      → Dict String (Layout R)
      → Option (Layout R × Dict String (Layout R))
  save_variant source target name layouts = elim (lookup source layouts) [
    | none ↦ none
    | some layout ↦
        let clone = record layout { id = target; name = name_or name layout.name } in
        some (clone, insert target clone layouts)
  ]
