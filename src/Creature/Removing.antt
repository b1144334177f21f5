-- ===== src/Creature/Removing.antt =====
-- The removals of conditions (`removeCondition` and `removeCombatCondition` of creature.cpp).
use projeto_bruxo.Base.{
  ℕ, ◌+◌, Bool, true, false, not, ◌&&◌, none, some, List, [], ◌∷◌, ltb, ◌==◌, if◌then◌else◌,
  replicate,
}
use projeto_bruxo.Conditions.{Condition}
use projeto_bruxo.Creature.{
  Entry, force_remove, Notice, on_end, Creature, with_conditions, add_event, notify, has_type,
  find_handle, erase_handle,
}
use projeto_bruxo.Conditions.Types

-- What a removal leaves, how many conditions it ended, and whether it was put off.
unfoldable pub remove_matching : Bool → (Condition → Bool) → List Entry → List Entry × (ℕ × Bool)
remove_matching held test [] = ([], (0, false))
remove_matching held test (e ∷ es) =
    let rest = remove_matching held test es in
    if not (test e.condition)
    then (e ∷ rest.0, rest.1)
    else if held
    then (e ∷ es, (0, true))
    else (rest.0, (1 + rest.1.0, rest.1.1))

abbrev pub repeated : ℕ → Notice → List Notice
repeated n notice = replicate n notice

-- Whether a removal waits for the end of a walk.
abbrev pub is_held : ℕ → Bool → Creature → Bool
is_held type force creature = not force && type == Types.paralyze && ltb 0 creature.walk_delay

unfoldable pub remove_where : ℕ → (Condition → Bool) → Bool → Creature → Creature
remove_where type test force creature =
    let result = remove_matching (is_held type force creature) test creature.conditions in
    let removed = notify (repeated result.1.0 (on_end type)) (with_conditions result.0 creature) in
    if result.1.1 then add_event (force_remove type) removed else removed

-- `Creature::removeCondition(type, force)`
unfoldable pub remove_condition : ℕ → Bool → Creature → Creature
remove_condition type force creature = remove_where type (has_type type) force creature

-- `Creature::removeCondition(type, conditionId, force)`
unfoldable pub remove_condition_of : ℕ → ℕ → Bool → Creature → Creature
remove_condition_of type id force creature =
    remove_where type (λ c. c.condition_type == type && c.id == id) force creature

-- `Creature::removeCondition(condition, force)`
unfoldable pub remove_condition_at : ℕ → Bool → Creature → Creature
remove_condition_at handle force creature = elim (find_handle handle creature.conditions) [
  | none ↦ creature
  | some c ↦
      if is_held c.condition_type force creature
      then add_event (force_remove c.condition_type) creature
      else notify (on_end c.condition_type ∷ [])
          (with_conditions (erase_handle handle creature.conditions) creature)
]

-- The conditions of a type, as `removeCombatCondition` collects them.
unfoldable pub handles_of : ℕ → List Entry → List ℕ
handles_of type [] = []
handles_of type (e ∷ es) =
    let rest = handles_of type es in
    if e.condition.condition_type == type then e.handle ∷ rest else rest

unfoldable pub remove_each : List ℕ → Creature → Creature
remove_each [] creature = creature
remove_each (handle ∷ hs) creature = remove_each hs (remove_condition_at handle false creature)

-- `Creature::removeCombatCondition`, where `onCombatRemoveCondition` is not overridden
unfoldable pub remove_combat_condition : ℕ → Creature → Creature
remove_combat_condition type creature = remove_each (handles_of type creature.conditions) creature
