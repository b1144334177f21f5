-- ===== src/Creature/Removal.antt =====
-- What a removal of conditions by type does.
use projeto_bruxo.Base.{
  ℕ, ◌+◌, ◌≡◌, refl, Bool, true, false, none, List, [], ◌∷◌, ltb, if◌then◌else◌, Bool-cases, inl,
  inr, arith,
}
use mathlib.Core.List.{append-nil}
use projeto_bruxo.Conditions.{Condition}
use projeto_bruxo.Creature.{
  Entry, Creature, force_remove, on_end, with_conditions, add_event, notify, find_condition,
  has_type, get_condition,
}
use projeto_bruxo.Creature.Removing.{
  remove_matching, is_held, repeated, remove_where, remove_condition,
}

-- The conditions that fail a test, in order, and the number of those that pass it.
unfoldable pub without : (Condition → Bool) → List Entry → List Entry
without test [] = []
without test (e ∷ es) = let rest = without test es in if test e.condition then rest else e ∷ rest

unfoldable pub count_of : (Condition → Bool) → List Entry → ℕ
count_of test [] = 0
count_of test (e ∷ es) = let rest = count_of test es in if test e.condition then 1 + rest else rest

remove_matching-free :
    (test : Condition → Bool) (es : List Entry)
    → remove_matching false test es ≡ (without test es, (count_of test es, false))
unfolding remove_matching without count_of
remove_matching-free test [] = refl
remove_matching-free test (e ∷ es) = elim (Bool-cases (test e.condition)) [
  | inl passes ↦ rw (passes, remove_matching-free test es) refl
  | inr fails ↦ rw (fails, remove_matching-free test es) refl
]

remove_matching-held :
    (test : Condition → Bool) (es : List Entry)
    → remove_matching true test es ≡ (es, (0, ltb 0 (count_of test es)))
unfolding remove_matching count_of
remove_matching-held test [] = refl
remove_matching-held test (e ∷ es) = elim (Bool-cases (test e.condition)) [
  | inl passes ↦
      let some_left : ltb 0 (1 + count_of test es) ≡ true = ground arith in
      rw (passes, some_left) refl
  | inr fails ↦ rw (fails, remove_matching-held test es) refl
]

-- A removal by type. Where it is not forced, of paralysis, and the creature has steps to wait for, it
-- leaves the conditions and is put off as a forced one, if there is anything to remove. Else every
-- condition of the type goes, the others stay in order, and the end of each is told.
pub remove_condition_lem :
    (type : ℕ) (force : Bool) (creature : Creature)
    → remove_condition type force creature ≡ (
        if is_held type force creature
        then (if ltb 0 (count_of (has_type type) creature.conditions)
            then add_event (force_remove type) creature
            else creature)
        else notify
            (repeated (count_of (has_type type) creature.conditions) (on_end type))
            (with_conditions (without (has_type type) creature.conditions) creature))
unfolding remove_condition remove_where with_conditions notify add_event
remove_condition_lem type force creature = elim (Bool-cases (is_held type force creature)) [
  | inl held ↦
      rw
        (
          held,
          remove_matching-held (has_type type) creature.conditions,
          append-nil creature.notices,
        )
        refl
  | inr free ↦ rw (free, remove_matching-free (has_type type) creature.conditions) refl
]

without-find_condition :
    (test : Condition → Bool) (es : List Entry) → find_condition test (without test es) ≡ none
unfolding find_condition without
without-find_condition test [] = refl
without-find_condition test (e ∷ es) = elim (Bool-cases (test e.condition)) [
  | inl passes ↦ rw (passes, without-find_condition test es) refl
  | inr fails ↦ rw (fails, fails, without-find_condition test es) refl
]

-- After a forced removal no condition of the type is found.
pub get_condition-remove_condition :
    (type : ℕ) (creature : Creature)
    → get_condition type (remove_condition type true creature) ≡ none
unfolding get_condition notify with_conditions
get_condition-remove_condition type creature =
    rw (remove_condition_lem type true creature)
      (without-find_condition (has_type type) creature.conditions)
