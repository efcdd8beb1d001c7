-- ===== src/Layout/Stored.antt =====
-- src/cockpit/workspace/services/layout_service.py: the operations on stored layouts.
use cockpit_cli.Prelude.{
  Bool, Bool-cases, Dict, List, String, [], ap, arith, false, get_elem?, if◌then◌else◌, inl, inr,
  insert, lookup, lookup-insert_ne, lookup-insert_self, map, nat_eq, refl, some, string_eq, suc,
  sym, true, zero, ℕ, ◌==◌, ◌∙◌, ◌∷◌, ◌≡◌, ◌≢◌, ◌⊎◌,
}
use cockpit_cli.Layout.Tree.{Floats, SplitNode}
use cockpit_cli.Layout.{Layout, TabLayout, clamp, edit_tab, edit_tabs, toggle}

asymmetric_irrefl :
    {R : Type 0} (lt : R → R → Bool)
    → ((a b : R) → lt a b ≡ true → lt b a ≡ false)
    → (a : R) → lt a a ≡ false
asymmetric_irrefl lt asym a = elim (Bool-cases (lt a a)) [ inl h ↦ asym a a h | inr h ↦ h ]

module _ {R : Type 0} where
  abbrev pub ids : List (TabLayout R) → List String
  ids = map (λ tab. tab.id)

  ids-edit_tabs :
      (tab_id : String) (f : SplitNode R → SplitNode R) (tabs : List (TabLayout R))
      → ids (edit_tabs tab_id f tabs) ≡ ids tabs
  unfolding edit_tabs
  ids-edit_tabs tab_id f [] = refl
  ids-edit_tabs tab_id f (tab ∷ tabs) = ground (arith, ids-edit_tabs tab_id f tabs)

  -- The tab at a position after an edit, by the one before it.
  abbrev pub edited : String → (SplitNode R → SplitNode R) → TabLayout R → TabLayout R
  edited tab_id f tab =
      if tab.id == tab_id then record tab { root_split = f tab.root_split } else tab

  get_elem?-edit_tabs :
      (tab_id : String) (f : SplitNode R → SplitNode R) (tabs : List (TabLayout R)) (i : ℕ)
      (tab : TabLayout R)
      → get_elem? tabs i ≡ some tab
      → get_elem? (edit_tabs tab_id f tabs) i ≡ some (edited tab_id f tab)
  unfolding edit_tabs
  get_elem?-edit_tabs tab_id f [] i tab h = ground arith
  get_elem?-edit_tabs tab_id f (t ∷ tabs) zero tab h = ground (arith, h)
  get_elem?-edit_tabs tab_id f (t ∷ tabs) (suc i) tab h = get_elem?-edit_tabs tab_id f tabs i tab h

  edit_tab_found :
      (layout_id tab_id : String) (f : SplitNode R → SplitNode R) (layouts : Dict String (Layout R))
      (layout : Layout R)
      → lookup layout_id layouts ≡ some layout
      → edit_tab layout_id tab_id f layouts
        ≡ some (
          record layout { tabs = edit_tabs tab_id f layout.tabs },
          insert layout.id (record layout { tabs = edit_tabs tab_id f layout.tabs }) layouts,
        )
  unfolding edit_tab
  edit_tab_found layout_id tab_id f layouts layout found = rw (found, edit_tab) refl

  -- An edit of a layout that is stored under its id succeeds, and the new layout is stored there. It
  -- keeps the id, the name, the focus and the ids of the tabs in their order; it applies the change to
  -- every tab of the given id, and leaves all other tabs and all other layouts as they were.
  pub edit_tab_frame :
      (layout_id tab_id : String) (f : SplitNode R → SplitNode R) (layouts : Dict String (Layout R))
      (layout : Layout R)
      → lookup layout_id layouts ≡ some layout
      → layout.id ≡ layout_id
      → (updated : Layout R) × (layouts' : Dict String (Layout R)) × (edit_tab layout_id tab_id f
            layouts
          ≡ some (updated, layouts'))
        × (lookup layout_id layouts' ≡ some updated)
        × ((other : String) → other ≢ layout_id → lookup other layouts' ≡ lookup other layouts)
        × (updated.id ≡ layout_id)
        × (updated.name ≡ layout.name)
        × (updated.focus_path ≡ layout.focus_path)
        × (ids updated.tabs ≡ ids layout.tabs)
        × ((i : ℕ) (tab : TabLayout R)
            → get_elem? layout.tabs i ≡ some tab
            → get_elem? updated.tabs i ≡ some (edited tab_id f tab))
  edit_tab_frame layout_id tab_id f layouts layout found key =
      let updated = record layout { tabs = edit_tabs tab_id f layout.tabs } in
      (
        updated,
        insert layout.id updated layouts,
        edit_tab_found layout_id tab_id f layouts layout found,
        cc (key, lookup-insert_self layout.id updated layouts),
        (λ other n. lookup-insert_ne other layout.id updated layouts (λ e. n (e ∙ key))),
        key,
        refl,
        refl,
        ids-edit_tabs tab_id f layout.tabs,
        λ i tab h. get_elem?-edit_tabs tab_id f layout.tabs i tab h,
      )

  toggle_back :
      (node : SplitNode R) (o : String)
      → toggle (toggle (record node { orientation = some o }))
        ≡ record node { orientation = some o }
      → node.orientation ≡ some o
      → toggle (toggle node) ≡ node
  toggle_back node o back p =
      ap (λ u. toggle (toggle (record node { orientation = u }))) p
      ∙ back
      ∙ sym (ap (λ u. record node { orientation = u }) p)

  -- Toggled twice, a split has the orientation that it had, if that was one of the two there are.
  pub toggle_twice :
      (node : SplitNode R)
      → (node.orientation ≡ some "horizontal") ⊎ (node.orientation ≡ some "vertical")
      → toggle (toggle node) ≡ node
  unfolding toggle
  toggle_twice node h = elim h [
    | inl p ↦ toggle_back node "horizontal" refl p
    | inr p ↦ toggle_back node "vertical" refl p
  ]

  -- The ratio that is stored stands between the two bounds, whatever number is given, if the order of
  -- the floats is asymmetric and the lower bound is below the upper one.
  pub clamp_bounds :
      (f : Floats R) (ratio : R)
      → ((a b : R) → f.lt a b ≡ true → f.lt b a ≡ false)
      → f.lt f.lowest f.highest ≡ true
      → (f.lt (clamp f ratio) f.lowest ≡ false) × (f.lt f.highest (clamp f ratio) ≡ false)
  unfolding clamp
  clamp_bounds f ratio asym order =
      let irrefl = asymmetric_irrefl f.lt asym in
      ground (
        arith,
        irrefl f.lowest,
        irrefl f.highest,
        asym f.lowest f.highest order,
        asym f.lowest ratio,
        asym ratio f.highest,
      )
