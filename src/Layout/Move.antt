-- ===== src/Layout/Move.antt =====
-- src/cockpit/workspace/services/layout_service.py: moving a panel among its siblings.
use cockpit_cli.Prelude.{
  Bool, List, Option, String, [], ap, arith, false, if◌then◌else◌, nat_eq, none, refl, some,
  string_eq, suc, true, zero, ℕ, ◌++◌, ◌+◌, ◌-◌, ◌||◌, ◌∙◌, ◌∷◌, ◌≡◌,
}
use cockpit_cli.Layout.Tree.{
  Child, Children, PanelRef, SplitNode, branch, child, end, index_of, leaf, move_at, move_children,
  move_level, move_panel, panels, swap_at,
}

-- How many panels pass a test.
abbrev pub count : (PanelRef → Bool) → List PanelRef → ℕ
count t [] = 0
count t (q ∷ qs) = let rest = count t qs in if t q then suc rest else rest

count-append :
    (t : PanelRef → Bool) (xs ys : List PanelRef) → count t (xs ++ ys) ≡ count t xs + count t ys
count-append t [] ys = omega arith
count-append t (x ∷ xs) ys = ground (arith, count-append t xs ys)

true-ne-false : true ≡ false → ⊥
true-ne-false h = ground arith

or_false : (a b : Bool) → (a || b) ≡ false → (a ≡ false) × (b ≡ false)
or_false true b h = absurd (true-ne-false h)
or_false false b h = (refl, h)

module _ {R : Type 0} where
  abbrev panels_of : Child R → List PanelRef
  panels_of (leaf q) = q ∷ []
  panels_of (branch o r inner) = panels inner

  count-child :
      (t : PanelRef → Bool) (c : Child R) (cs : Children R)
      → count t (panels (child c cs)) ≡ count t (panels_of c) + count t (panels cs)
  unfolding panels
  count-child t (leaf q) cs = ground arith
  count-child t (branch o r inner) cs = count-append t (panels inner) (panels cs)

  count-swap_at :
      (t : PanelRef → Bool) (i : ℕ) (cs : Children R)
      → count t (panels (swap_at i cs)) ≡ count t (panels cs)
  unfolding swap_at
  count-swap_at t i end = refl
  count-swap_at t zero (child c end) = refl
  count-swap_at t zero (child c (child d cs)) = omega (
    arith,
    count-child t c (child d cs),
    count-child t d cs,
    count-child t d (child c cs),
    count-child t c cs,
  )
  count-swap_at t (suc i) (child c cs) =
      omega (arith, count-child t c cs, count-child t c (swap_at i cs), count-swap_at t i cs)

  count-move_at :
      (t : PanelRef → Bool) (previous : Bool) (at : Option ℕ) (cs : Children R)
      → count t (panels (move_at previous at cs).0) ≡ count t (panels cs)
  unfolding move_at
  count-move_at t previous none cs = refl
  count-move_at t true (some i) cs = ground (arith, count-swap_at t (i - 1) cs)
  count-move_at t false (some i) cs = ground (arith, count-swap_at t i cs)

  count-move_level :
      (t : PanelRef → Bool) (p : String) (previous : Bool) (m : Children R × Bool)
      → count t (panels (move_level p previous m).0) ≡ count t (panels m.0)
  count-move_level t p previous (cs, true) = refl
  count-move_level t p previous (cs, false) = count-move_at t previous (index_of p cs) cs

  count-move_children :
      (t : PanelRef → Bool) (p : String) (previous : Bool) (cs : Children R)
      → count t (panels (move_children p previous cs).0) ≡ count t (panels cs)
  unfolding move_children panels
  count-move_children t p previous end = refl
  count-move_children t p previous (child (leaf q) cs) =
      ground (arith, count-move_children t p previous cs)
  count-move_children t p previous (child (branch o r inner) cs) =
      let below = move_children p previous inner in
      let beside = move_children p previous cs in
      omega (
        arith,
        count-append t (panels (move_level p previous below).0) (panels beside.0),
        count-append t (panels inner) (panels cs),
        count-move_level t p previous below,
        count-move_children t p previous inner,
        count-move_children t p previous cs,
      )

  -- A move loses no panel and adds none: every test counts as many panels after it as before.
  pub count-move_panel :
      (t : PanelRef → Bool) (p : String) (previous : Bool) (node : SplitNode R)
      → count t (panels (move_panel p previous node).0.children) ≡ count t (panels node.children)
  unfolding move_panel
  count-move_panel t p previous node =
      count-move_level t p previous (move_children p previous node.children)
      ∙ count-move_children t p previous node.children

  move_at_still :
      (previous : Bool) (at : Option ℕ) (cs : Children R)
      → (move_at previous at cs).1 ≡ false
      → (move_at previous at cs).0 ≡ cs
  unfolding move_at
  move_at_still previous none cs h = refl
  move_at_still true (some i) cs h = ground arith
  move_at_still false (some i) cs h = ground arith

  move_level_still :
      (p : String) (previous : Bool) (m : Children R × Bool)
      → (move_level p previous m).1 ≡ false
      → ((move_level p previous m).0 ≡ m.0) × (m.1 ≡ false)
  move_level_still p previous (cs, true) h = absurd (true-ne-false h)
  move_level_still p previous (cs, false) h = (move_at_still previous (index_of p cs) cs h, refl)

  move_children_still :
      (p : String) (previous : Bool) (cs : Children R)
      → (move_children p previous cs).1 ≡ false
      → (move_children p previous cs).0 ≡ cs
  unfolding move_children
  move_children_still p previous end h = refl
  move_children_still p previous (child (leaf q) cs) h =
      ap (λ u. child (leaf q) u) (move_children_still p previous cs h)
  move_children_still p previous (child (branch o r inner) cs) h =
      let below = move_children p previous inner in
      let (here, beside) =
        or_false (move_level p previous below).1 (move_children p previous cs).1 h in
      let (same, quiet) = move_level_still p previous below here in
      cc
        (same, move_children_still p previous inner quiet, move_children_still p previous cs beside)

  -- A move that reports that nothing was moved has left the split as it was.
  pub move_panel_still :
      (p : String) (previous : Bool) (node : SplitNode R)
      → (move_panel p previous node).1 ≡ false
      → (move_panel p previous node).0 ≡ node
  unfolding move_panel
  move_panel_still p previous node h =
      let m = move_children p previous node.children in
      let (same, quiet) = move_level_still p previous m h in
      ap (λ u. record node { children = u })
        (same ∙ move_children_still p previous node.children quiet)
