-- ===== src/Layout/Panels.antt =====
-- src/cockpit/workspace/services/layout_service.py: which panels a tab has after an edit, and the
-- shape that a removal leaves.
use mathlib.Core.List.{append-nil, append_assoc}
use cockpit_cli.Prelude.{
  Bool, List, Option, String, [], ap, arith, if◌then◌else◌, is_some, keep, keep-append, map, nat_eq,
  not, refl, string_eq, sym, true, ◌&&◌, ◌++◌, ◌==◌, ◌∙◌, ◌∷◌, ◌≡◌,
}
use cockpit_cli.Layout.Tree.{
  Children, Floats, PanelRef, SplitNode, append, branch, child, collapse, end, leaf, panels,
  remove_children, replace_children, replace_panel,
}
use cockpit_cli.Layout.{add_panel}

abbrev pub substitute : String → PanelRef → PanelRef → PanelRef
substitute old new q = if q.panel_id == old then new else q

-- The test for panels that a removal of `p` leaves alone, the placeholder not counted.
abbrev pub is_other : String → PanelRef → Bool
is_other p q = not (q.panel_id == p) && not (q.panel_id == "work-panel")

map-append {ℓ κ} :
    {A : Type ℓ} {B : Type κ} (f : A → B) (xs ys : List A) → map f (xs ++ ys) ≡ map f xs ++ map f ys
map-append f [] ys = refl
map-append f (x ∷ xs) ys = ap (λ r. f x ∷ r) (map-append f xs ys)

module _ {R : Type 0} where
  panels-replace_children :
      (old : String) (new : PanelRef) (cs : Children R)
      → panels (replace_children old new cs) ≡ map (substitute old new) (panels cs)
  unfolding panels replace_children
  panels-replace_children old new end = refl
  panels-replace_children old new (child (leaf q) cs) =
      ap (λ r. substitute old new q ∷ r) (panels-replace_children old new cs)
  panels-replace_children old new (child (branch o r inner) cs) =
      rw
        (
          map-append (substitute old new) (panels inner) (panels cs),
          panels-replace_children old new inner,
          panels-replace_children old new cs,
        )
        refl

  -- A replacement puts the new panel in the place of each panel with the old name, and leaves every
  -- other panel, the order, the orientation and the ratio as they were.
  pub panels-replace_panel :
      (old : String) (new : PanelRef) (node : SplitNode R)
      → (panels (replace_panel old new node).children
          ≡ map (substitute old new) (panels node.children))
        × ((replace_panel old new node).orientation ≡ node.orientation)
        × ((replace_panel old new node).ratio ≡ node.ratio)
  unfolding replace_panel
  panels-replace_panel old new node = (panels-replace_children old new node.children, refl, refl)

  panels-append :
      (cs : Children R) (new : PanelRef) → panels (append cs (leaf new)) ≡ panels cs ++ (new ∷ [])
  unfolding panels append
  panels-append end new = refl
  panels-append (child (leaf q) cs) new = ap (λ r. q ∷ r) (panels-append cs new)
  panels-append (child (branch o r inner) cs) new =
      ap (λ r. panels inner ++ r) (panels-append cs new)
      ∙ sym (append_assoc (panels inner) (panels cs) (new ∷ []))

  add_panel_lem :
      (f : Floats R) (new : PanelRef) (o : Option String) (r : Option R) (cs : Children R)
      → let node = add_panel f new (record { orientation = o; ratio = r; children = cs }) in
        (panels node.children ≡ panels cs ++ (new ∷ []))
        × (is_some node.orientation ≡ true)
        × (is_some node.ratio ≡ true)
  unfolding add_panel panels
  add_panel_lem f new o r end = (refl, ground arith, ground arith)
  add_panel_lem f new o r (child (leaf q) end) = (refl, refl, refl)
  add_panel_lem f new o r (child (leaf q) (child d ds)) =
      (panels-append (child (leaf q) (child d ds)) new, ground arith, ground arith)
  add_panel_lem f new o r (child (branch p t inner) ds) =
      (panels-append (child (branch p t inner) ds) new, ground arith, ground arith)

  -- An added panel is the last one of its tab, behind the panels that the tab had, and the split has
  -- an orientation and a ratio then.
  pub panels-add_panel :
      (f : Floats R) (new : PanelRef) (node : SplitNode R)
      → (panels (add_panel f new node).children ≡ panels node.children ++ (new ∷ []))
        × (is_some (add_panel f new node).orientation ≡ true)
        × (is_some (add_panel f new node).ratio ≡ true)
  panels-add_panel f new node = add_panel_lem f new node.orientation node.ratio node.children

  pub keep-collapse :
      (p : String) (o : Option String) (r : Option R) (cs rest : Children R)
      → keep (is_other p) (panels (child (collapse o r cs) rest))
        ≡ keep (is_other p) (panels cs ++ panels rest)
  unfolding panels
  keep-collapse p o r end rest = ground arith
  keep-collapse p o r (child (leaf q) end) rest = refl
  keep-collapse p o r (child (branch u t inner) end) rest = rw (append-nil (panels inner)) refl
  keep-collapse p o r (child c (child d ds)) rest = refl

  pub keep-remove_children :
      (p : String) (cs : Children R)
      → keep (is_other p) (panels (remove_children p cs)) ≡ keep (is_other p) (panels cs)
  unfolding panels remove_children
  keep-remove_children p end = refl
  keep-remove_children p (child (leaf q) cs) = ground (arith, keep-remove_children p cs)
  keep-remove_children p (child (branch o r inner) cs) =
      keep-collapse p o r (remove_children p inner) (remove_children p cs)
      ∙ keep-append (is_other p) (panels (remove_children p inner)) (panels (remove_children p cs))
      ∙ rw (keep-remove_children p inner, keep-remove_children p cs)
          (sym (keep-append (is_other p) (panels inner) (panels cs)))
