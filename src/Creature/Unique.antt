-- ===== src/Creature/Unique.antt =====
-- A creature has one condition at most of a type, an id and a sub-id, whatever is done to it.
use projeto_bruxo.Base.{ℕ, ◌≡◌, Bool, true, Option, List, [], ◌∷◌}
use projeto_bruxo.Creature.{Behaviour, Entry, Creature}
use projeto_bruxo.Creature.Executing.{execute_conditions}
use projeto_bruxo.Creature.Adding.{add_condition, add_combat_condition}
use projeto_bruxo.Creature.Removing.{
  remove_condition, remove_condition_of, remove_condition_at, remove_combat_condition,
}
use projeto_bruxo.Creature.Keys.{unique}
use projeto_bruxo.Conditions.Types

-- The invariant, of a creature.
unfoldable pub IsUnique : Creature → Type 0
IsUnique creature = unique creature.conditions ≡ true

-- What is done to the conditions of a creature, and when.
pub data Operation : Type 0 where
  adding : ℕ → Option Entry → Bool → Operation
  removing : ℕ → Bool → Operation
  removing_of : ℕ → ℕ → Bool → Operation
  executing : ℕ → ℕ → Operation
  adding_combat : ℕ → Entry → Operation
  removing_at : ℕ → Bool → Operation
  removing_combat : ℕ → Operation

unfoldable pub step : Behaviour → Operation → Creature → Creature
step b (adding now e force) creature = (add_condition b now e force creature).1
step b (removing type force) creature = remove_condition type force creature
step b (removing_of type id force) creature = remove_condition_of type id force creature
step b (executing now interval) creature = execute_conditions b now interval creature
step b (adding_combat now e) creature = (add_combat_condition b now e creature).1
step b (removing_at handle force) creature = remove_condition_at handle force creature
step b (removing_combat type) creature = remove_combat_condition type creature

unfoldable pub run : Behaviour → List Operation → Creature → Creature
run b [] creature = creature
run b (o ∷ os) creature = run b os (step b o creature)
