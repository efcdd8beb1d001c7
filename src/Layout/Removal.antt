-- ===== src/Layout/Removal.antt =====
-- src/cockpit/workspace/services/layout_service.py: the removal of a panel from a tab.
use mathlib.Core.List.{append-nil}
use cockpit_cli.Prelude.{
  All, All-append, Bool-cases, Option, String, ap, arith, beq_differs, inl, inr, keep, nat_eq, refl,
  string_eq, sym, ◌==◌, ◌∙◌, ◌≡◌, ◌≢◌, ◌≤◌,
}
use cockpit_cli.Layout.Tree.{
  Child, Children, Floats, PanelRef, SplitNode, branch, child, collapse, end, leaf, length_of,
  panels, remove_children, remove_panel, work_panel,
}
use cockpit_cli.Layout.{as_root}
use cockpit_cli.Layout.Panels.{is_other, keep-collapse, keep-remove_children}

abbrev pub IsNot : String → PanelRef → Type 0
IsNot p q = q.panel_id ≢ p

module _ {R : Type 0} where
  -- Every split has two children at least.
  unfoldable pub IsCompact : Children R → Type 0
  unfolding length_of
  IsCompact end = Unit
  IsCompact (child (leaf q) cs) = IsCompact cs
  IsCompact (child (branch o r inner) cs) = (2 ≤ length_of inner) × IsCompact inner × IsCompact cs

  IsCompact-collapse :
      (o : Option String) (r : Option R) (cs rest : Children R)
      → IsCompact cs
      → IsCompact rest
      → IsCompact (child (collapse o r cs) rest)
  unfolding IsCompact length_of
  IsCompact-collapse o r end rest h hr = hr
  IsCompact-collapse o r (child (leaf q) end) rest h hr = hr
  IsCompact-collapse o r (child (branch u t inner) end) rest (two, h, _) hr = (two, h, hr)
  IsCompact-collapse o r (child c (child d ds)) rest h hr = (omega arith, h, hr)

  remove_children-IsCompact : (p : String) (cs : Children R) → IsCompact (remove_children p cs)
  unfolding IsCompact remove_children
  remove_children-IsCompact p end = tt
  remove_children-IsCompact p (child (leaf q) cs) = ground (arith, remove_children-IsCompact p cs)
  remove_children-IsCompact p (child (branch o r inner) cs) =
      IsCompact-collapse o r (remove_children p inner) (remove_children p cs)
        (remove_children-IsCompact p inner) (remove_children-IsCompact p cs)

  All-collapse :
      (p : String) (o : Option String) (r : Option R) (cs rest : Children R)
      → IsNot p work_panel
      → All (IsNot p) (panels cs)
      → All (IsNot p) (panels rest)
      → All (IsNot p) (panels (child (collapse o r cs) rest))
  unfolding panels
  All-collapse p o r end rest hw h hr = (hw, hr)
  All-collapse p o r (child (leaf q) end) rest hw (h, _) hr = (h, hr)
  All-collapse p o r (child (branch u t inner) end) rest hw h hr =
      All-append (IsNot p) (panels inner) (panels rest) (rw (sym (append-nil (panels inner))) h) hr
  All-collapse p o r (child c (child d ds)) rest hw h hr =
      All-append (IsNot p) (panels (child c (child d ds))) (panels rest) h hr

  remove_children-gone :
      (p : String) (cs : Children R)
      → IsNot p work_panel
      → All (IsNot p) (panels (remove_children p cs))
  unfolding panels remove_children
  remove_children-gone p end hw = tt
  remove_children-gone p (child (leaf q) cs) hw = elim (Bool-cases (q.panel_id == p)) [
    | inl same ↦ rw same (remove_children-gone p cs hw)
    | inr other ↦ rw other (beq_differs q.panel_id p other, remove_children-gone p cs hw)
  ]
  remove_children-gone p (child (branch o r inner) cs) hw =
      All-collapse p o r (remove_children p inner) (remove_children p cs) hw
        (remove_children-gone p inner hw) (remove_children-gone p cs hw)

  -- The panels of the root that a removal leaves.
  abbrev pub removed : Floats R → String → SplitNode R → SplitNode R
  removed f p node = as_root f (remove_panel p node)

  panels-as_root :
      (f : Floats R) (c : Child R) → panels (as_root f c).children ≡ panels (child c end)
  unfolding panels
  panels-as_root f (leaf q) = refl
  panels-as_root f (branch o r cs) = sym (append-nil (panels cs))

  -- A removal leaves every other panel in its place, up to placeholders, and, unless it is the
  -- placeholder that is to be removed, no panel of that name.
  pub panels-removed :
      (f : Floats R) (p : String) (node : SplitNode R)
      → (keep (is_other p) (panels (removed f p node).children)
          ≡ keep (is_other p) (panels node.children))
        × (p ≢ "work-panel" → All (IsNot p) (panels (removed f p node).children))
  unfolding remove_panel panels
  panels-removed f p node =
      let rest = remove_children p node.children in
      rw (panels-as_root f (remove_panel p node)) (
        keep-collapse p node.orientation node.ratio rest end
            ∙ ap (keep (is_other p)) (append-nil (panels rest))
            ∙ keep-remove_children p node.children,
        λ n.
            All-collapse p node.orientation node.ratio rest end (λ e. n (sym e))
              (remove_children-gone p node.children (λ e. n (sym e))) tt,
      )

  IsCompact-as_root :
      (f : Floats R) (c : Child R) → IsCompact (child c end) → IsCompact (as_root f c).children
  unfolding IsCompact
  IsCompact-as_root f (leaf q) h = tt
  IsCompact-as_root f (branch o r cs) (two, h, _) = h

  some-as_root :
      (f : Floats R) (c : Child R) → IsCompact (child c end) → 1 ≤ length_of (as_root f c).children
  unfolding IsCompact length_of
  some-as_root f (leaf q) h = omega arith
  some-as_root f (branch o r cs) (two, h, _) = omega arith

  -- After a removal, whatever the tab was like before, the root has a child, and every split below it
  -- has two at least.
  pub removed-IsCompact :
      (f : Floats R) (p : String) (node : SplitNode R)
      → (1 ≤ length_of (removed f p node).children) × IsCompact (removed f p node).children
  unfolding remove_panel IsCompact
  removed-IsCompact f p node =
      let rest = remove_children p node.children in
      let c = collapse node.orientation node.ratio rest in
      let h =
        IsCompact-collapse node.orientation node.ratio rest end
          (remove_children-IsCompact p node.children) tt in
      (some-as_root f c h, IsCompact-as_root f c h)
