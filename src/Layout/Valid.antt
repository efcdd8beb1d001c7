-- ===== src/Layout/Valid.antt =====
-- src/cockpit/workspace/services/layout_service.py: what the validation of a layout accepts.
use cockpit_cli.Prelude.{
  Dict, List, Option, String, [], arith, codes, contains, eq_iff, false, inl, inr, insert, is_blank,
  is_empty, nat_eq, none, refl, some, string_eq, true, ℕ, ◌++◌, ◌+◌, ◌↔◌, ◌∷◌, ◌≡◌, ◌≢◌, ◌≤◌, ◌⊎◌,
}
use cockpit_cli.Layout.Tree.{
  Children, Floats, PanelRef, SplitNode, branch, child, end, leaf, length_of,
}
use cockpit_cli.Layout.{Layout, TabLayout}
use cockpit_cli.Layout.Reports.{
  List-cases, append-eq-nil, cons_not_nil, map-eq-nil, nil_both, not_nil, report-eq-nil, trans_iff,
}
use cockpit_cli.Layout.Check.{
  LayoutError, at, in_split, is_empty_text, is_unknown, layout_id_empty, layout_name_empty,
  no_child, no_tab, orientation_errors, panel_errors, ratio_errors, save_layout_document,
  split_errors, tab_duplicated, tab_id_empty, tab_unnamed, validate_children, validate_layout,
  validate_split_node, validate_tabs, wrap_errors,
}

abbrev pub IsAllowed : Option (List String) → String → Type 0
IsAllowed none text = Unit
IsAllowed (some allowed) text = contains text allowed ≡ true

abbrev pub IsText : String → Type 0
IsText text = is_blank (codes text) ≡ false

-- A panel has an id and a type, which are among the registered ones.
abbrev pub IsFit : Option (List String) → Option (List String) → PanelRef → Type 0
IsFit types names q =
    IsText q.panel_id
    × IsText q.panel_type
    × IsAllowed types q.panel_type
    × IsAllowed names q.panel_id

abbrev pub IsOrientation : Option String → Type 0
IsOrientation none = Unit
IsOrientation (some o) = (o ≡ "horizontal") ⊎ (o ≡ "vertical")

allowed : (xs : Option (List String)) (t : String) → (is_unknown xs t ≡ false) ↔ IsAllowed xs t
allowed none t = (λ _. tt, λ _. refl)
allowed (some xs) t = (λ h. ground arith, λ h. ground arith)

panel_errors-eq-nil :
    (types names : Option (List String)) (q : PanelRef)
    → (panel_errors types names q ≡ []) ↔ IsFit types names q
panel_errors-eq-nil types names q = (
  λ h. ground (arith, allowed types q.panel_type, allowed names q.panel_id),
  λ h. ground (arith, allowed types q.panel_type, allowed names q.panel_id),
)

orientation_errors-eq-nil : (o : Option String) → (orientation_errors o ≡ []) ↔ IsOrientation o
orientation_errors-eq-nil none = (λ _. tt, λ _. refl)
orientation_errors-eq-nil (some o) = (
  λ h. ground (arith, eq_iff o "horizontal", eq_iff o "vertical"),
  λ h. ground (arith, eq_iff o "horizontal", eq_iff o "vertical"),
)

-- The children are not a split alone.
abbrev pub IsNotWrapper : {R : Type 0} → Children R → Type 0
IsNotWrapper end = Unit
IsNotWrapper (child (leaf q) cs) = Unit
IsNotWrapper (child (branch o r inner) end) = ⊥
IsNotWrapper (child (branch o r inner) (child c cs)) = Unit

module _ {R : Type 0} (f : Floats R) where
  -- A ratio is at least 0.05, and at most 0.95, or 1.0 over an only child.
  abbrev pub IsRatio : Option R → Children R → Type 0
  IsRatio none cs = Unit
  IsRatio (some r) (child c end) = (f.le f.least r ≡ true) × (f.le r f.one ≡ true)
  IsRatio (some r) cs = (f.le f.least r ≡ true) × (f.le r f.most ≡ true)

  -- A split has a known orientation, a child, a ratio within its bounds, and does not only wrap another
  -- split.
  abbrev pub IsSplit : Option String → Option R → Children R → Type 0
  IsSplit o r cs = IsOrientation o × (1 ≤ length_of cs) × IsRatio r cs × IsNotWrapper cs

  ratio_errors-eq-nil : (r : Option R) (cs : Children R) → (ratio_errors f r cs ≡ []) ↔ IsRatio r cs
  ratio_errors-eq-nil none cs = (λ _. tt, λ _. refl)
  ratio_errors-eq-nil (some r) end = (λ h. ground arith, λ h. ground arith)
  ratio_errors-eq-nil (some r) (child c end) = (λ h. ground arith, λ h. ground arith)
  ratio_errors-eq-nil (some r) (child c (child d cs)) = (λ h. ground arith, λ h. ground arith)

  wrap_errors-eq-nil : (cs : Children R) → (wrap_errors f cs ≡ []) ↔ IsNotWrapper cs
  wrap_errors-eq-nil end = (λ _. tt, λ _. refl)
  wrap_errors-eq-nil (child (leaf q) end) = (λ _. tt, λ _. refl)
  wrap_errors-eq-nil (child (leaf q) (child c cs)) = (λ _. tt, λ _. refl)
  wrap_errors-eq-nil (child (branch o r inner) end) =
      (λ h. absurd (cons_not_nil refl h), λ n. absurd n)
  wrap_errors-eq-nil (child (branch o r inner) (child c cs)) = (λ _. tt, λ _. refl)

module _ {R : Type 0} (f : Floats R) (types names : Option (List String)) where
  -- Every panel below is fit, and every split below is proper.
  unfoldable pub IsValidBelow : Children R → Type 0
  IsValidBelow end = Unit
  IsValidBelow (child (leaf q) cs) = IsFit types names q × IsValidBelow cs
  IsValidBelow (child (branch o r inner) cs) =
      IsSplit f o r inner × IsValidBelow inner × IsValidBelow cs

  abbrev pub IsValidRoot : SplitNode R → Type 0
  IsValidRoot node =
      IsSplit f node.orientation node.ratio node.children × IsValidBelow node.children

  -- Every tab has an id that is not in `seen` and not that of another tab, a name, and a valid root.
  abbrev pub IsValidTabs : List String → List (TabLayout R) → Type 0
  IsValidTabs seen [] = Unit
  IsValidTabs seen (tab ∷ tabs) =
      IsText tab.id
      × (contains tab.id seen ≡ false)
      × IsText tab.name
      × IsValidRoot tab.root_split
      × IsValidTabs (tab.id ∷ seen) tabs

  abbrev pub IsValid : Layout R → Type 0
  IsValid layout =
      IsText layout.id × IsText layout.name × (layout.tabs ≢ []) × IsValidTabs [] layout.tabs

  split_errors-eq-nil :
      (tab : String) (path : List ℕ) (o : Option String) (r : Option R) (cs : Children R)
      (below : List LayoutError)
      → (split_errors f types names tab path o r cs below ≡ []) ↔ (IsSplit f o r cs × (below ≡ []))
  unfolding length_of
  split_errors-eq-nil tab path o r end below = (
    λ h. ground (
      arith,
      map-eq-nil (in_split tab path) (orientation_errors o ++ (no_child ∷ [])),
      append-eq-nil (orientation_errors o) (no_child ∷ []),
    ),
    λ h. ground arith,
  )
  split_errors-eq-nil tab path o r (child c cs) below =
      let wraps = wrap_errors f (child c cs) in
      let ratios = ratio_errors f r (child c cs) in
      let own =
        trans_iff (map-eq-nil (in_split tab path) (orientation_errors o ++ (ratios ++ wraps))) (
          nil_both (orientation_errors o) (ratios ++ wraps) (orientation_errors-eq-nil o) (
            nil_both ratios wraps (ratio_errors-eq-nil f r (child c cs))
              (wrap_errors-eq-nil f (child c cs)))) in
      let all =
        nil_both (at tab path (orientation_errors o ++ (ratios ++ wraps))) below own
          (λ h. h, λ h. h) in
      (
        λ h. let ((a, (b, c)), d) = all.0 h in ((a, omega arith, b, c), d),
        λ ((a, one, b, c), d). all.1 ((a, (b, c)), d),
      )

  validate_children-eq-nil :
      (tab : String) (path : List ℕ) (i : ℕ) (cs : Children R)
      → (validate_children f types names tab path i cs ≡ []) ↔ IsValidBelow cs
  unfolding validate_children IsValidBelow
  validate_children-eq-nil tab path i end = (λ _. tt, λ _. refl)
  validate_children-eq-nil tab path i (child (leaf q) cs) =
      nil_both (at tab (path ++ (i ∷ [])) (panel_errors types names q))
        (validate_children f types names tab path (i + 1) cs)
        (trans_iff (map-eq-nil (in_split tab (path ++ (i ∷ []))) (panel_errors types names q))
          (panel_errors-eq-nil types names q))
        (validate_children-eq-nil tab path (i + 1) cs)
  validate_children-eq-nil tab path i (child (branch o r inner) cs) =
      let here = path ++ (i ∷ []) in
      let below = validate_children f types names tab here 0 inner in
      let deep = validate_children-eq-nil tab here 0 inner in
      let all =
        nil_both (split_errors f types names tab here o r inner below)
          (validate_children f types names tab path (i + 1) cs)
          (split_errors-eq-nil tab here o r inner below)
          (validate_children-eq-nil tab path (i + 1) cs) in
      (
        λ h. let ((s, b), rest) = all.0 h in (s, deep.0 b, rest),
        λ (s, v, rest). all.1 ((s, deep.1 v), rest),
      )

  validate_tabs-eq-nil :
      (seen : List String) (tabs : List (TabLayout R))
      → (validate_tabs f types names seen tabs ≡ []) ↔ IsValidTabs seen tabs
  unfolding validate_tabs validate_split_node
  validate_tabs-eq-nil seen [] = (λ _. tt, λ _. refl)
  validate_tabs-eq-nil seen (tab ∷ tabs) =
      let root = tab.root_split in
      let own =
        split_errors-eq-nil tab.id [] root.orientation root.ratio root.children
          (validate_children f types names tab.id [] 0 root.children) in
      let below = validate_children-eq-nil tab.id [] 0 root.children in
      let split : (validate_split_node f types names tab.id root ≡ []) ↔ IsValidRoot root =
        (λ h. let (s, b) = own.0 h in (s, below.0 b), λ (s, v). own.1 (s, below.1 v)) in
      let all = nil_both _ _ (report-eq-nil (is_empty_text tab.id) tab_id_empty) (
        nil_both _ _ (report-eq-nil (contains tab.id seen) (tab_duplicated tab.id)) (
          nil_both _ _ (report-eq-nil (is_empty_text tab.name) (tab_unnamed tab.id))
            (nil_both _ _ split (validate_tabs-eq-nil (tab.id ∷ seen) tabs)))) in
      (
        λ h. let (a, (b, (c, (d, e)))) = all.0 h in (a, b, c, d, e),
        λ (a, b, c, d, e). all.1 (a, (b, (c, (d, e)))),
      )

  -- The validation reports nothing exactly for a valid layout.
  pub validate_layout-eq-nil :
      (layout : Layout R) → (validate_layout f types names layout ≡ []) ↔ IsValid layout
  unfolding validate_layout
  validate_layout-eq-nil layout =
      let all = nil_both _ _ (report-eq-nil (is_empty_text layout.id) layout_id_empty) (
        nil_both _ _ (report-eq-nil (is_empty_text layout.name) layout_name_empty) (
          nil_both _ _
            (trans_iff (report-eq-nil (is_empty layout.tabs) no_tab) (not_nil layout.tabs))
            (validate_tabs-eq-nil [] layout.tabs))) in
      (λ h. let (a, (b, (c, d))) = all.0 h in (a, b, c, d), λ (a, b, c, d). all.1 (a, (b, (c, d))))

  -- A document is saved exactly if its layout is valid: then it is stored under its id, and otherwise
  -- the call fails.
  pub save_layout_document_lem :
      (layout : Layout R) (layouts : Dict String (Layout R))
      → ((save_layout_document f types names layout layouts
            ≡ some (layout, insert layout.id layout layouts))
          ↔ IsValid layout)
        × ((save_layout_document f types names layout layouts ≡ none) ↔ ¬ IsValid layout)
  unfolding save_layout_document
  save_layout_document_lem layout layouts =
      elim (List-cases (validate_layout f types names layout)) [
        | inl h ↦
            let valid = (validate_layout-eq-nil layout).0 h in
            (
              (λ _. valid, λ _. ground (arith, h)),
              (λ e. ground (arith, h, e), λ n. absurd (n valid)),
            )
        | inr ((e, es), h) ↦
            let wrong : ¬ IsValid layout =
              λ v. cons_not_nil h ((validate_layout-eq-nil layout).1 v) in
            (
              (λ s. ground (arith, h, s), λ v. absurd (wrong v)),
              (λ _. wrong, λ _. ground (arith, h)),
            )
      ]
