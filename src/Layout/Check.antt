-- ===== src/Layout/Check.antt =====
-- src/cockpit/workspace/services/layout_service.py: the validation of a layout that is to be saved. A
-- message is a constructor; the path of a split is its tab and the indexes that lead to it.
use cockpit_cli.Prelude.{
  Bool, Dict, List, Option, String, [], codes, contains, false, if◌then◌else◌, insert, is_blank,
  is_empty, map, nat_eq, none, not, some, string_eq, true, ℕ, ◌&&◌, ◌++◌, ◌+◌, ◌==◌, ◌||◌, ◌∷◌,
}
use cockpit_cli.Layout.Tree.{Children, Floats, PanelRef, SplitNode, branch, child, end, leaf}
use cockpit_cli.Layout.{Layout, TabLayout}

pub data SplitError : Type 0 where
  invalid_orientation : String → SplitError
  no_child ratio_out_single ratio_out wraps_split : SplitError
  panel_id_empty panel_type_empty : SplitError
  type_not_registered id_not_registered : String → SplitError

pub data LayoutError : Type 0 where
  layout_id_empty layout_name_empty no_tab tab_id_empty : LayoutError
  tab_duplicated tab_unnamed : String → LayoutError
  in_split : String → List ℕ → SplitError → LayoutError

-- `if test: errors.append(error)`
abbrev pub report {ℓ} : {A : Type ℓ} → Bool → A → List A
report true error = error ∷ []
report false error = []

abbrev pub is_empty_text : String → Bool
is_empty_text text = is_blank (codes text)

-- `allowed is not None and text not in allowed`
abbrev pub is_unknown : Option (List String) → String → Bool
is_unknown none text = false
is_unknown (some allowed) text = not (contains text allowed)

abbrev pub panel_errors : Option (List String) → Option (List String) → PanelRef → List SplitError
panel_errors types names q =
    report (is_empty_text q.panel_id) panel_id_empty
    ++ (report (is_empty_text q.panel_type) panel_type_empty
        ++ (report (is_unknown types q.panel_type) (type_not_registered q.panel_type)
            ++ report (is_unknown names q.panel_id) (id_not_registered q.panel_id)))

abbrev pub orientation_errors : Option String → List SplitError
orientation_errors none = []
orientation_errors (some o) =
    report (not (o == "horizontal" || o == "vertical")) (invalid_orientation o)

abbrev pub at : String → List ℕ → List SplitError → List LayoutError
at tab path errors = map (in_split tab path) errors

module _ {R : Type 0} (f : Floats R) where
  abbrev pub ratio_errors : Option R → Children R → List SplitError
  ratio_errors none cs = []
  ratio_errors (some r) (child c end) =
      report (not (f.le f.least r && f.le r f.one)) ratio_out_single
  ratio_errors (some r) cs = report (not (f.le f.least r && f.le r f.most)) ratio_out

  abbrev pub wrap_errors : Children R → List SplitError
  wrap_errors (child (branch o r inner) end) = wraps_split ∷ []
  wrap_errors cs = []

module _ {R : Type 0} (f : Floats R) (types names : Option (List String)) (tab : String) where
  -- The body of `_validate_split_node`, with the errors of its children.
  abbrev pub split_errors :
      List ℕ → Option String → Option R → Children R → List LayoutError → List LayoutError
  split_errors path o r end below = at tab path (orientation_errors o ++ (no_child ∷ []))
  split_errors path o r (child c cs) below =
      at tab path
        (orientation_errors o ++ (ratio_errors f r (child c cs) ++ wrap_errors f (child c cs)))
      ++ below

  -- The loop over the children, from the index `i` on.
  unfoldable pub validate_children : List ℕ → ℕ → Children R → List LayoutError
  unfolding is_blank
  validate_children path i end = []
  validate_children path i (child (leaf q) cs) =
      at tab (path ++ (i ∷ [])) (panel_errors types names q) ++ validate_children path (i + 1) cs
  validate_children path i (child (branch o r inner) cs) =
      split_errors (path ++ (i ∷ [])) o r inner (validate_children (path ++ (i ∷ [])) 0 inner)
      ++ validate_children path (i + 1) cs

  -- `_validate_split_node`
  unfoldable pub validate_split_node : SplitNode R → List LayoutError
  unfolding validate_children
  validate_split_node node =
      split_errors [] node.orientation node.ratio node.children
        (validate_children [] 0 node.children)

module _ {R : Type 0} (f : Floats R) (types names : Option (List String)) where
  -- The loop over the tabs; `seen` are the ids of those before.
  unfoldable pub validate_tabs : List String → List (TabLayout R) → List LayoutError
  unfolding validate_split_node is_blank
  validate_tabs seen [] = []
  validate_tabs seen (tab ∷ tabs) =
      report (is_empty_text tab.id) tab_id_empty
      ++ (report (contains tab.id seen) (tab_duplicated tab.id)
          ++ (report (is_empty_text tab.name) (tab_unnamed tab.id)
              ++ (validate_split_node f types names tab.id tab.root_split
                  ++ validate_tabs (tab.id ∷ seen) tabs)))

  -- `_validate_layout`
  unfoldable pub validate_layout : Layout R → List LayoutError
  unfolding validate_tabs
  validate_layout layout =
      report (is_empty_text layout.id) layout_id_empty
      ++ (report (is_empty_text layout.name) layout_name_empty
          ++ (report (is_empty layout.tabs) no_tab ++ validate_tabs [] layout.tabs))

  -- `save_layout_document`, for the layout that its payload decodes to. `none` is the `ValueError`.
  unfoldable pub save_layout_document :
      Layout R → Dict String (Layout R) → Option (Layout R × Dict String (Layout R))
  unfolding validate_layout
  save_layout_document layout layouts =
      if is_empty (validate_layout layout)
      then some (layout, insert layout.id layout layouts)
      else none
