-- ===== src/OnCall/Ownership.antt =====
-- src/cockpit/ops/services/oncall_resolution_service.py: what a binding that decides has to be.
use mathlib.Core.List.{Mem, mem-cons_of_mem, mem-cons_self}
use mathlib.Core.Path.{transport}
use cockpit_cli.Prelude.{
  All, All-keep, All-kept, All-sort, All-weaken, Bool, List, String, [], arith, false, keep, leb,
  length, length-keep-sort, ltb, nat_eq, refl, some, sort, sort-IsTop, string_eq, top_by,
  top_by-alone, true, ◌&&◌, ◌==◌, ◌∷◌, ◌≡◌, ◌≤◌,
}
use cockpit_cli.OnCall.{
  Directory, OwnershipBinding, Subject, binding_matches, binding_specificity, matches, own_by,
  own_by_top, resolve_ownership, subject_kind_eq, top_bindings,
}

above :
    (a b : OwnershipBinding)
    → ltb (binding_specificity b) (binding_specificity a) ≡ true
    → binding_specificity b ≤ binding_specificity a
above a b h = ground arith

below :
    (a b : OwnershipBinding)
    → ltb (binding_specificity b) (binding_specificity a) ≡ false
    → binding_specificity a ≤ binding_specificity b
below a b h = ground arith

own_by_id : (d : Directory) (b : OwnershipBinding) → (own_by d b).binding_id ≡ some b.id
unfolding own_by
own_by_id d b = ground arith

-- The binding `b` stands in the table, has the id, is enabled and matches the subject, and it is the only enabled
-- binding of the table that matches the subject and is at least as specific as `b` is.
abbrev pub IsDecidedBy : List OwnershipBinding → Subject → String → OwnershipBinding → Type 0
IsDecidedBy bindings s id b =
    (b.id ≡ id)
    × Mem b bindings
    × ((b.enabled && binding_matches s b) ≡ true)
    × (length (
          keep
            (λ c.
              leb (binding_specificity b) (binding_specificity c)
              && (c.enabled && binding_matches s c))
            bindings)
        ≡ 1)

among : (bindings : List OwnershipBinding) → All (λ b. Mem b bindings) bindings
among [] = tt
among (b ∷ bindings) =
    (mem-cons_self, All-weaken bindings (λ c m. mem-cons_of_mem b m) (among bindings))

top_by-All :
    (P : OwnershipBinding → Type 0) (bs : List OwnershipBinding)
    → All P bs
    → All P (top_by binding_specificity bs)
unfolding top_by
top_by-All P [] h = tt
top_by-All P (b ∷ bs) h =
    All-keep P (λ c. binding_specificity c == binding_specificity b) (b ∷ bs) h

top_bindings-matches :
    (s : Subject) (bindings : List OwnershipBinding) (b : OwnershipBinding)
    → top_bindings (matches s bindings) ≡ b ∷ []
    → IsDecidedBy bindings s b.id b
unfolding matches top_bindings top_by
top_bindings-matches s bindings b h =
    let ours : OwnershipBinding → Bool = λ c. c.enabled && binding_matches s c in
    let before : OwnershipBinding → OwnershipBinding → Bool =
      λ a c. ltb (binding_specificity c) (binding_specificity a) in
    let alone =
      top_by-alone binding_specificity ours b bindings (sort before (keep ours bindings))
        (sort-IsTop binding_specificity before above below (keep ours bindings))
        (All-sort (λ c. ours c ≡ true) before (keep ours bindings) (All-kept ours bindings))
        (λ q. length-keep-sort q before (keep ours bindings)) h in
    let there =
      top_by-All (λ c. Mem c bindings) (sort before (keep ours bindings))
        (All-sort (λ c. Mem c bindings) before (keep ours bindings)
          (All-keep (λ c. Mem c bindings) ours bindings (among bindings))) in
    (refl, (transport (λ i. All (λ c. Mem c bindings) (h i)) there).0, alone.0, alone.1)

own_by_top-id :
    (d : Directory) (s : Subject) (id : String) (bs : List OwnershipBinding)
    → top_bindings (matches s d.bindings) ≡ bs
    → (own_by_top d s bs).binding_id ≡ some id
    → (b : OwnershipBinding) × IsDecidedBy d.bindings s id b
unfolding own_by_top
own_by_top-id d s id [] e h = absurd (grind arith)
own_by_top-id d s id (b ∷ []) e h =
    let same : b.id ≡ id = cc (own_by_id d b, h) in
    let (_, there, ours, alone) = top_bindings-matches s d.bindings b e in
    (b, (same, there, ours, alone))
own_by_top-id d s id (b ∷ c ∷ bs) e h = absurd (grind arith)

-- When the resolution names a binding, then the table holds an enabled binding with that id that matches the
-- subject, and no other enabled and matching binding of the table is as specific.
pub resolve_ownership_unique :
    (d : Directory) (s : Subject) (id : String)
    → (resolve_ownership d s).binding_id ≡ some id
    → (b : OwnershipBinding) × IsDecidedBy d.bindings s id b
unfolding resolve_ownership
resolve_ownership_unique d s id h =
    own_by_top-id d s id (top_bindings (matches s d.bindings)) refl h
