-- ===== src/Conditions.antt =====
-- Conditions (condition.h and condition.cpp): what a condition holds, and how one is made. A number is
-- the pattern of its bits: an `int32_t` of -1 is 4294967295, an `int8_t` of -1 is 255; a `float` is its
-- four bytes.
pub mod Types
pub mod Attr
pub mod Classes
pub mod Fields
pub mod Readers
pub mod Load
pub mod Encoding
pub mod Header
pub mod Intervals
pub mod RoundTrip
pub mod Storage
pub mod Lost
pub mod Rates
pub mod Life
pub mod Damages
pub mod Examples
pub mod Fuel
use projeto_bruxo.Base.{
  ℕ, ◌+◌, ◌-◌, ◌*◌, ◌/◌, ◌%◌, Bool, true, false, ◌||◌, Option, none, some, List, [], ltb, ◌==◌,
  if◌then◌else◌, replicate, u32_mod, u64_mod,
}
use projeto_bruxo.Conditions.Types

-- `IntervalInfo`
pub record IntervalInfo : Type 0 where
  pub time_left : ℕ
  pub value : ℕ
  pub interval : ℕ

-- The data of `ConditionAttributes`, in the order of the class. A write past the end of an array is
-- undefined in C++, which `overrun` records; it is taken to reach the array that follows: the stats
-- follow the special skills, and the percentages of skills and stats follow these. Past the experience
-- rates it changes no array.
pub record Attributes : Type 0 where
  pub skills : List ℕ
  pub skills_percent : List ℕ
  pub special_skills : List ℕ
  pub stats : List ℕ
  pub stats_percent : List ℕ
  pub experience_rate : List ℕ
  pub current_skill : ℕ
  pub current_special_skill : ℕ
  pub current_stat : ℕ
  pub current_experience_rate : ℕ
  pub disable_defense : Bool
  pub overrun : Bool

-- The data of `ConditionRegeneration`
pub record Regeneration : Type 0 where
  pub internal_health_ticks : ℕ
  pub internal_mana_ticks : ℕ
  pub health_ticks : ℕ
  pub mana_ticks : ℕ
  pub health_gain : ℕ
  pub health_gain_percent : ℕ
  pub mana_gain : ℕ
  pub mana_gain_percent : ℕ

-- The data of `ConditionSoul`
pub record Soul : Type 0 where
  pub internal_soul_ticks : ℕ
  pub soul_ticks : ℕ
  pub soul_gain : ℕ

-- The data of `ConditionDamage`
pub record Damage : Type 0 where
  pub max_damage : ℕ
  pub min_damage : ℕ
  pub start_damage : ℕ
  pub period_damage : ℕ
  pub period_damage_tick : ℕ
  pub tick_interval : ℕ
  pub init_damage : ℕ
  pub force_update : Bool
  pub delayed : Bool
  pub field : Bool
  pub owner : ℕ
  pub damage_list : List IntervalInfo

-- The data of `ConditionSpeed`
pub record Speed : Type 0 where
  pub speed_delta : ℕ
  pub mina : ℕ
  pub minb : ℕ
  pub maxa : ℕ
  pub maxb : ℕ

-- The data of `ConditionLight`
pub record Light : Type 0 where
  pub level : ℕ
  pub color : ℕ
  pub internal_light_ticks : ℕ
  pub light_change_interval : ℕ

-- The class of a condition, with the data it adds; an outfit is its twelve bytes as one number.
pub data Subclass : Type 0 where
  generic : Subclass
  attributes : Attributes → Subclass
  regeneration : Regeneration → Subclass
  soul : Soul → Subclass
  invisible : Subclass
  damage : Damage → Subclass
  speed : Speed → Subclass
  outfit : ℕ → Subclass
  light : Light → Subclass
  drunk : ℕ → Subclass

pub record Condition : Type 0 where
  pub end_time : ℕ
  pub sub_id : ℕ
  pub ticks : ℕ
  pub condition_type : ℕ
  pub is_buff : Bool
  pub aggressive : Bool
  pub constant : Bool
  pub id : ℕ
  pub kind : Subclass

abbrev pub forever : ℕ
forever = 4294967295

abbrev pub max_time : ℕ
max_time = 9223372036854775807

-- A signed word of 32 bits as one of 64.
unfoldable pub signed64 : ℕ → ℕ
signed64 x = if ltb x 2147483648 then x else x + (u64_mod - u32_mod)

-- `Condition::setEndTime`
unfoldable pub set_end_time : ℕ → Condition → Condition
set_end_time t c = record c { end_time = t }

-- `Condition::setTicks` at the time `now`
unfoldable pub set_ticks : (now new_ticks : ℕ) → Condition → Condition
set_ticks now new_ticks c =
    set_end_time ((signed64 new_ticks + now) % u64_mod) (record c { ticks = new_ticks })
