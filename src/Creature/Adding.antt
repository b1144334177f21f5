-- ===== src/Creature/Adding.antt =====
-- The additions of conditions (`addCondition`, `addCombatCondition` and `onAddCondition` of
-- creature.cpp).
use projeto_bruxo.Base.{
  ℕ, Bool, true, false, not, ◌&&◌, Option, none, some, [], ◌∷◌, ◌++◌, ltb, ◌==◌, if◌then◌else◌,
}
use projeto_bruxo.Creature.{
  Behaviour, Entry, force_add, on_add, on_add_combat, Creature, with_conditions, add_event, notify,
  has_key, get_condition_of, has_condition, change_first,
}
use projeto_bruxo.Creature.Removing.{remove_condition}
use projeto_bruxo.Conditions.Types

-- `Creature::onAddCondition`: haste and paralysis drive each other out. Players and monsters do more, but
-- not to the conditions.
unfoldable pub on_add_condition : ℕ → ℕ → Creature → Creature
on_add_condition now type creature =
    if type == Types.paralyze && has_condition now Types.haste 0 creature
    then remove_condition Types.haste false creature
    else if type == Types.haste && has_condition now Types.paralyze 0 creature
    then remove_condition Types.paralyze false creature
    else creature

module _ (b : Behaviour) where
  unfoldable pub start_new : ℕ → Entry → Creature → Bool × Creature
  start_new now e creature =
      let answer = b.starts now e.condition in
      if answer.0
      then (
        true,
        on_add_condition now answer.1.condition_type (
            notify (on_add answer.1.condition_type ∷ []) (
              with_conditions (creature.conditions ++ (record e { condition = answer.1 } ∷ []))
                creature)),
      )
      else (false, creature)

  unfoldable pub add_or_update : ℕ → Entry → Creature → Bool × Creature
  add_or_update now e creature =
      let c = e.condition in
      let test = has_key c.condition_type c.id c.sub_id in
      elim (get_condition_of c.condition_type c.id c.sub_id creature) [
        | some previous ↦ (
          true,
          with_conditions (change_first test (λ p. b.adds now p c) creature.conditions) creature,
        )
        | none ↦ start_new now e creature
      ]

  -- `Creature::addCondition`, where no condition is `nullptr`
  unfoldable pub add_condition : ℕ → Option Entry → Bool → Creature → Bool × Creature
  add_condition now none force creature = (false, creature)
  add_condition now (some e) force creature =
      if not force
        && e.condition.condition_type == Types.haste
        && has_condition now Types.paralyze 0 creature
        && ltb 0 creature.walk_delay
      then (false, add_event (force_add e) creature)
      else add_or_update now e creature

  -- `Creature::addCombatCondition`
  unfoldable pub add_combat_condition : ℕ → Entry → Creature → Bool × Creature
  add_combat_condition now e creature =
      let added = add_condition now (some e) false creature in
      if not added.0
      then (false, added.1)
      else (true, notify (on_add_combat e.condition.condition_type ∷ []) added.1)
