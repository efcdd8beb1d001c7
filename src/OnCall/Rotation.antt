-- ===== src/OnCall/Rotation.antt =====
-- src/cockpit/ops/services/oncall_resolution_service.py: whose turn a rotation has.
use native.Mathlib.Nat.{div-eq_of_lt-le, add-mul}
use Prim.Native.Nat.{one}
use cockpit_cli.Prelude.{
  Bool-cases, List, [], arith, get_elem?, inl, inr, is_some, length, nat_eq, refl, some, string_eq,
  suc, true, zero, ℕ, ◌%◌, ◌*◌, ◌+◌, ◌-◌, ◌/◌, ◌<◌, ◌==◌, ◌∷◌, ◌≡◌, ◌≤◌,
}
use cockpit_cli.OnCall.{
  RotationRule, interval_seconds, microseconds, resolve_rotation_person, rotation_step,
  subject_kind_eq,
}

-- The length of a turn
abbrev pub turn : RotationRule → ℕ
turn r = microseconds (interval_seconds r.interval_kind r.interval_count)

turn_positive : (r : RotationRule) → 0 < turn r
unfolding interval_seconds
turn_positive r = ground arith

get_elem?-is_some {ℓ} :
    {A : Type ℓ} (xs : List A) (i : ℕ) → i < length xs → is_some (get_elem? xs i) ≡ true
get_elem?-is_some [] i h = elim h [ ]
get_elem?-is_some (x ∷ xs) zero h = refl
get_elem?-is_some (x ∷ xs) (suc i) h = get_elem?-is_some xs i (omega arith)

whole_turns : (a k t rest : ℕ) → rest < t → (a + k * t + rest - a) / t ≡ k
whole_turns a k t rest inside = div-eq_of_lt-le t (omega arith) (omega (arith, add-mul k one t))

-- The number of whole turns since the anchor.
rotation_step_lem :
    (r : RotationRule) (anchor k rest : ℕ)
    → r.anchor_at ≡ some anchor
    → rest < turn r
    → rotation_step r (anchor + k * turn r + rest) ≡ k
unfolding rotation_step
rotation_step_lem r anchor k rest h inside = rw h (whole_turns anchor k (turn r) rest inside)

-- In the `k`-th turn after the anchor, at every moment of it, the participant on call is the `k`-th one,
-- counted round the list, and there is one if there are participants at all.
pub resolve_rotation_turn :
    (r : RotationRule) (anchor k rest : ℕ)
    → r.anchor_at ≡ some anchor
    → rest < turn r
    → 1 ≤ length r.participant_ids
    → (resolve_rotation_person r (anchor + k * turn r + rest)
        ≡ get_elem? r.participant_ids (k % length r.participant_ids))
      × (is_some (resolve_rotation_person r (anchor + k * turn r + rest)) ≡ true)
unfolding resolve_rotation_person
resolve_rotation_turn r anchor k rest h inside some_one =
    rw (rotation_step_lem r anchor k rest h inside)
      (elim (Bool-cases (length r.participant_ids == 0)) [
        | inl e ↦ absurd (omega (arith, (nat_eq.beq_holds (length r.participant_ids) 0).0 e))
        | inr e ↦
            rw e (
              refl,
              get_elem?-is_some r.participant_ids (k % length r.participant_ids) (omega arith),
            )
      ])
