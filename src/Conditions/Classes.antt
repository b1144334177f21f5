-- ===== src/Conditions/Classes.antt =====
-- How a condition is made (`Condition::createCondition` of condition.cpp, and the constructors).
use projeto_bruxo.Base.{
  ℕ, ◌/◌, ◌%◌, Bool, false, ◌||◌, Option, none, some, [], ◌==◌, if◌then◌else◌, replicate,
}
use projeto_bruxo.Conditions.{
  Subclass, generic, attributes, regeneration, soul, invisible, damage, speed, outfit, light, drunk,
  Condition, forever, max_time,
}
use projeto_bruxo.Conditions.Types

-- The classes alone.
pub data Class : Type 0 where
  of_generic of_attributes of_regeneration of_soul of_invisible of_damage of_speed of_outfit
        of_light of_drunk :
      Class

-- The class that `Condition::createCondition` makes for a type; none where it returns no condition.
unfoldable pub class_of_type : ℕ → Option Class
class_of_type t =
    if t == Types.poison
      || t == Types.fire
      || t == Types.energy
      || t == Types.drown
      || t == Types.freezing
      || t == Types.dazzled
      || t == Types.cursed
      || t == Types.bleeding
    then some of_damage
    else if t == Types.haste || t == Types.paralyze
    then some of_speed
    else if t == Types.invisible
    then some of_invisible
    else if t == Types.outfit
    then some of_outfit
    else if t == Types.light
    then some of_light
    else if t == Types.regeneration
    then some of_regeneration
    else if t == Types.soul
    then some of_soul
    else if t == Types.attributes
    then some of_attributes
    else if t == Types.drunk
    then some of_drunk
    else if t == Types.infight
        || t == Types.exhaust_weapon
        || t == Types.exhaust_combat
        || t == Types.exhaust_heal
        || t == Types.muted
        || t == Types.channel_muted_ticks
        || t == Types.yell_ticks
        || t == Types.pacified
        || t == Types.mana_shield
        || t == Types.cliport
    then some of_generic
    else none

-- The data of a new condition: the members' initialisers, and what the constructors do with `param`.
unfoldable pub blank_data : Class → ℕ → Subclass
blank_data of_generic param = generic
blank_data of_attributes param = attributes (record {
  skills = replicate 7 0;
  skills_percent = replicate 7 0;
  special_skills = replicate 6 0;
  stats = replicate 4 0;
  stats_percent = replicate 4 0;
  experience_rate = replicate 5 0;
  current_skill = 0;
  current_special_skill = 0;
  current_stat = 0;
  current_experience_rate = 0;
  disable_defense = false;
  overrun = false;
})
blank_data of_regeneration param = regeneration (record {
  internal_health_ticks = 0;
  internal_mana_ticks = 0;
  health_ticks = 1000;
  mana_ticks = 1000;
  health_gain = 0;
  health_gain_percent = 0;
  mana_gain = 0;
  mana_gain_percent = 0;
})
blank_data of_soul param = soul (record { internal_soul_ticks = 0; soul_ticks = 0; soul_gain = 0 })
blank_data of_invisible param = invisible
blank_data of_damage param = damage (record {
  max_damage = 0;
  min_damage = 0;
  start_damage = 0;
  period_damage = 0;
  period_damage_tick = 0;
  tick_interval = 2000;
  init_damage = 0;
  force_update = false;
  delayed = false;
  field = false;
  owner = 0;
  damage_list = [];
})
blank_data of_speed param =
    speed (record { speed_delta = param; mina = 0; minb = 0; maxa = 0; maxb = 0 })
blank_data of_outfit param = outfit 0
blank_data of_light param = light (record {
  level = param % 256;
  color = param / 256 % 256;
  internal_light_ticks = 0;
  light_change_interval = 0;
})
blank_data of_drunk param = if param % 256 == 0 then drunk 25 else drunk (param % 256)

-- A damage condition starts at 0 ticks, whatever it is given.
unfoldable pub initial_ticks : Class → ℕ → ℕ
initial_ticks of_damage ticks = 0
initial_ticks _ ticks = ticks

unfoldable pub initial_end_time : ℕ → ℕ
initial_end_time ticks = if ticks == forever then max_time else 0

-- A new condition of a class.
unfoldable pub make : Class → (id type ticks param : ℕ) → Bool → ℕ → Bool → Condition
make class id type ticks param buff sub_id aggressive = record {
  end_time = initial_end_time (initial_ticks class ticks);
  sub_id = sub_id;
  ticks = initial_ticks class ticks;
  condition_type = type;
  is_buff = buff;
  aggressive = aggressive;
  constant = false;
  id = id;
  kind = blank_data class param;
}

-- `Condition::createCondition(id, type, ticks, param, buff, subId, aggressive)`
unfoldable pub create_condition : (id type ticks param : ℕ) → Bool → ℕ → Bool → Option Condition
create_condition id type ticks param buff sub_id aggressive = elim (class_of_type type) [
  | none ↦ none
  | some class ↦ some (make class id type ticks param buff sub_id aggressive)
]
