-- ===== src/Creature/Examples.antt =====
-- A creature with generic conditions: tests, and the theorems at it.
use projeto_bruxo.Base.{
  ℕ, ◌+◌, ◌≡◌, refl, true, false, not, ◌&&◌, ◌==◌, none, some, List, [], ◌∷◌, arith, ltb,
  if◌then◌else◌,
}
use projeto_bruxo.Conditions.{Condition, generic, set_ticks, set_end_time}
use projeto_bruxo.Conditions.Life.{
  in_force, execute_condition, all_until, start_condition, survives, survives-start_condition,
}
use projeto_bruxo.Creature.{
  has_type, add_event, force_remove, notify, on_end, with_conditions, Behaviour, Entry, Creature,
  handles, find_handle, erase_handle, get_condition_of, find_condition, has_condition, any_active,
}
use projeto_bruxo.Creature.Executing.{
  execute_conditions, visit_all, visit, executed_at, end_at, store, prune, ends,
}
use projeto_bruxo.Creature.Adding.{add_condition, add_or_update, start_new, on_add_condition}
use projeto_bruxo.Creature.Removing.{
  is_held, repeated, remove_condition, remove_where, remove_matching,
}
use projeto_bruxo.Creature.Unique.{Operation, adding, removing, executing}
use projeto_bruxo.Creature.Generic.{generic_behaviour, all_active, execute_conditions-active}
use projeto_bruxo.Creature.Removal.{remove_condition_lem, without, count_of}
use projeto_bruxo.Conditions.Types

abbrev lasting : ℕ → ℕ → Condition
lasting type ticks = record {
  end_time = 0;
  sub_id = 0;
  ticks = ticks;
  condition_type = type;
  is_buff = false;
  aggressive = false;
  constant = false;
  id = 255;
  kind = generic;
}

abbrev entry : ℕ → Condition → Entry
entry handle c = record { handle = handle; condition = c }

abbrev fighter : Creature
fighter = record {
  conditions =
      entry 1 (record (lasting Types.infight 60000) { end_time = 5000 })
      ∷ (entry 2 (record (lasting Types.muted 60000) { end_time = 900 }) ∷ []);
  scheduled = [];
  notices = [];
  walk_delay = 0;
  is_suppress = λ type. false;
}

survives-start_condition_example :
    survives
      ((2000, 250) ∷ ((70000, 4000000000) ∷ []))
      (start_condition 1000 (lasting Types.infight 60000))
    ≡ all_until (60000 + 1000) ((2000, 250) ∷ ((70000, 4000000000) ∷ []))
survives-start_condition_example =
    survives-start_condition 1000 ((2000, 250) ∷ ((70000, 4000000000) ∷ []))
      (lasting Types.infight 60000) (omega arith) (omega arith, (omega arith, omega arith)) refl
      refl

abbrev day : List Operation
day =
    adding 1000 (some (entry 3 (lasting Types.infight 30000))) false
    ∷ (executing 2000 250 ∷ (removing Types.muted true ∷ (adding 3000 none true ∷ [])))

-- A curse that kills: executing it removes the conditions that are not permanent, itself and those
-- behind it and ahead of it.
abbrev deadly : Behaviour
deadly = record generic_behaviour {
  executes = λ now interval c. record (generic_behaviour.executes now interval c) {
    answer = not (c.condition_type == Types.cursed);
    removes = λ e. c.condition_type == Types.cursed && not (e.condition.constant);
  };
}

abbrev cursed_fighter : Creature
cursed_fighter = record fighter {
  conditions =
      entry 1 (record (lasting Types.infight 60000) { end_time = 5000 })
      ∷ (entry 2 (record (lasting Types.cursed 60000) { end_time = 5000 })
          ∷ (entry 3 (record (lasting Types.muted 60000) { end_time = 5000 })
              ∷ (entry 4
                    (record (lasting Types.pacified 60000) { end_time = 5000; constant = true })
                  ∷ [])));
}

-- Only the permanent one is left.
deadly_execution : handles (execute_conditions deadly 1000 250 cursed_fighter).conditions ≡ 4 ∷ []
unfolding execute_conditions visit_all visit executed_at end_at store prune ends find_handle
    erase_handle notify with_conditions execute_condition set_ticks
deadly_execution = refl

execute_conditions-active_example :
    all_active 1000 (execute_conditions generic_behaviour 1000 250 fighter).conditions ≡ true
execute_conditions-active_example = execute_conditions-active 1000 250 fighter refl

-- Paralysis drives haste out.
haste_goes :
    handles
      (add_condition generic_behaviour 1000
        (some (entry 4 (lasting Types.paralyze 9000)))
        false
        (record fighter {
          conditions = entry 3 (record (lasting Types.haste 9000) { end_time = 5000 }) ∷ [];
        })).1.conditions
    ≡ 4 ∷ []
unfolding add_condition add_or_update start_new on_add_condition get_condition_of find_condition
    has_condition any_active in_force remove_condition remove_where remove_matching notify
    with_conditions start_condition set_ticks set_end_time
haste_goes = refl

remove_condition_example : remove_condition Types.muted false fighter ≡ (
    if is_held Types.muted false fighter
    then (if ltb 0 (count_of (has_type Types.muted) fighter.conditions)
        then add_event (force_remove Types.muted) fighter
        else fighter)
    else notify
        (repeated (count_of (has_type Types.muted) fighter.conditions) (on_end Types.muted))
        (with_conditions (without (has_type Types.muted) fighter.conditions) fighter))
remove_condition_example = remove_condition_lem Types.muted false fighter
