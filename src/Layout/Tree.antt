-- ===== src/Layout/Tree.antt =====
-- src/cockpit/workspace/services/layout_service.py: the operations on a tree of splits, with the
-- dataclasses of src/cockpit/workspace/models/layout.py. `R` is the type of a ratio.
use cockpit_cli.Prelude.{
  Bool, List, Option, String, [], false, if◌then◌else◌, leb, nat_eq, none, some, string_eq, suc,
  true, zero, ℕ, ◌++◌, ◌+◌, ◌-◌, ◌==◌, ◌||◌, ◌∷◌,
}

pub record PanelRef : Type 0 where
  pub panel_id : String
  pub panel_type : String

-- A child of a split: a panel, or a split of its own with its orientation, ratio and children.
mutual
  pub data Child (R : Type 0) : Type 0 where
    leaf : PanelRef → Child R
    branch : Option String → Option R → Children R → Child R

  pub data Children (R : Type 0) : Type 0 where
    end : Children R
    child : Child R → Children R → Children R

pub record SplitNode (R : Type 0) : Type 0 where
  pub orientation : Option String
  pub ratio : Option R
  pub children : Children R

-- The literals and the comparisons of floats that the service uses.
pub record Floats (R : Type 0) : Type 0 where
  pub half : R
  pub one : R
  pub lowest : R
  pub highest : R
  pub least : R
  pub most : R
  pub is_zero : R → Bool
  pub lt : R → R → Bool
  pub le : R → R → Bool

abbrev pub work_panel : PanelRef
work_panel = record { panel_id = "work-panel"; panel_type = "work" }

module _ {R : Type 0} where
  -- The panels of a tree, from the left to the right.
  unfoldable pub panels : Children R → List PanelRef
  panels end = []
  panels (child (leaf q) cs) = q ∷ panels cs
  panels (child (branch o r inner) cs) = panels inner ++ panels cs

  unfoldable pub length_of : Children R → ℕ
  length_of end = 0
  length_of (child c cs) = suc (length_of cs)

  -- `children.append(child)`
  unfoldable pub append : Children R → Child R → Children R
  append end c = child c end
  append (child d cs) c = child d (append cs c)

  unfoldable pub replace_children : String → PanelRef → Children R → Children R
  replace_children old new end = end
  replace_children old new (child (leaf q) cs) =
      child (leaf (if q.panel_id == old then new else q)) (replace_children old new cs)
  replace_children old new (child (branch o r inner) cs) =
      child (branch o r (replace_children old new inner)) (replace_children old new cs)

  -- `_replace_panel`
  unfoldable pub replace_panel : String → PanelRef → SplitNode R → SplitNode R
  replace_panel old new node = record node { children = replace_children old new node.children }

  -- What `_remove_panel` makes of the children that are left.
  abbrev pub collapse : Option String → Option R → Children R → Child R
  collapse o r end = leaf work_panel
  collapse o r (child c end) = c
  collapse o r (child c (child d cs)) = branch o r (child c (child d cs))

  unfoldable pub remove_children : String → Children R → Children R
  remove_children p end = end
  remove_children p (child (leaf q) cs) =
      let rest = remove_children p cs in if q.panel_id == p then rest else child (leaf q) rest
  remove_children p (child (branch o r inner) cs) =
      child (collapse o r (remove_children p inner)) (remove_children p cs)

  -- `_remove_panel`
  unfoldable pub remove_panel : String → SplitNode R → Child R
  remove_panel p node = collapse node.orientation node.ratio (remove_children p node.children)

  -- The first index in `panel_indexes`
  unfoldable pub index_of : String → Children R → Option ℕ
  index_of p end = none
  index_of p (child (leaf q) cs) =
      let rest = index_of p cs in
      if q.panel_id == p then some 0 else elim rest [ none ↦ none | some i ↦ some (suc i) ]
  index_of p (child (branch o r inner) cs) = elim (index_of p cs) [
    | none ↦ none
    | some i ↦ some (suc i)
  ]

  -- The exchange of the children at `i` and at `i + 1`
  unfoldable pub swap_at : ℕ → Children R → Children R
  swap_at i end = end
  swap_at zero (child c end) = child c end
  swap_at zero (child c (child d cs)) = child d (child c cs)
  swap_at (suc i) (child c cs) = child c (swap_at i cs)

  -- The end of `_move_panel`, behind the search for the panel among the children themselves.
  unfoldable pub move_at : Bool → Option ℕ → Children R → Children R × Bool
  unfolding swap_at length_of
  move_at previous none cs = (cs, false)
  move_at true (some index) cs = if index == 0 then (cs, false) else (swap_at (index - 1) cs, true)
  move_at false (some index) cs =
      if leb (length_of cs) (index + 1) then (cs, false) else (swap_at index cs, true)

  abbrev pub move_here : String → Bool → Children R → Children R × Bool
  move_here p previous cs = move_at previous (index_of p cs) cs

  -- Whether a split below has moved the panel decides whether these children are searched.
  abbrev pub move_level : String → Bool → Children R × Bool → Children R × Bool
  move_level p previous (cs, true) = (cs, true)
  move_level p previous (cs, false) = move_here p previous cs

  -- The loop of `_move_panel`: its result for the nested splits.
  unfoldable pub move_children : String → Bool → Children R → Children R × Bool
  move_children p previous end = (end, false)
  move_children p previous (child (leaf q) cs) =
      let (rest, moved) = move_children p previous cs in (child (leaf q) rest, moved)
  move_children p previous (child (branch o r inner) cs) =
      let (inner', here) = move_level p previous (move_children p previous inner) in
      let (rest, moved) = move_children p previous cs in
      (child (branch o r inner') rest, here || moved)

  -- `_move_panel`
  unfoldable pub move_panel : String → Bool → SplitNode R → SplitNode R × Bool
  move_panel p previous node =
      let (cs, moved) = move_level p previous (move_children p previous node.children) in
      (record node { children = cs }, moved)
