-- ===== src/Conditions/Examples.antt =====
-- Conditions of a player, saved and loaded: tests, and the theorems at them.
use projeto_bruxo.Base.{ℕ, ◌≡◌, refl, true, false, ◌||◌, List, [], ◌∷◌, ◌++◌, map, arith}
use mathlib.Core.List.{reverse}
use projeto_bruxo.Conditions.{
  generic, Attributes, Damage, Light, Subclass, regeneration, damage, light, drunk, Condition,
  forever, set_ticks, set_end_time, signed64,
}
use projeto_bruxo.Conditions.Classes.{
  class_of_type, create_condition, make, blank_data, initial_ticks, initial_end_time,
}
use projeto_bruxo.Conditions.Fields.{
  is_persistent, save_conditions, serialize, put_all, put_field, own_fields, damage_fields,
  interval_field, packed, base_fields, bit, signed32,
}
use projeto_bruxo.Conditions.Readers.{
  reader_of, damage_reader, base_reader, unpacked, push_interval,
}
use projeto_bruxo.Stream.{read, write, bytes_of, value_of}
use projeto_bruxo.Conditions.Load.{
  unserialize_loop, unserialize, load_loop, load_conditions, create_stored, expect, value_after,
  with_value, pass, pass_at, pass_of, set_field, unserialize_prop, store_read,
}
use projeto_bruxo.Conditions.Fuel.{fuel_is_enough}
use projeto_bruxo.Conditions.Header.{IsTyped, class_of}
use projeto_bruxo.Conditions.RoundTrip.{IsRestorable, KindFits, as_loaded}
use projeto_bruxo.Conditions.Storage.{kept, AllRestorable, load_conditions-save_conditions}
use projeto_bruxo.Conditions.Lost.{load_conditions-light}
use projeto_bruxo.Conditions.Rates.{with_values, without_rates, load_conditions-attributes}
use projeto_bruxo.Conditions.Types

-- A condition of the default slot, of 60000 ticks.
abbrev simple : ℕ → Subclass → Condition
simple type kind = record {
  end_time = 0;
  sub_id = 0;
  ticks = 60000;
  condition_type = type;
  is_buff = false;
  aggressive = true;
  constant = false;
  id = 255;
  kind = kind;
}

abbrev food : Condition
food = simple Types.regeneration (
    regeneration (record {
      internal_health_ticks = 500;
      internal_mana_ticks = 0;
      health_ticks = 6000;
      mana_ticks = 3000;
      health_gain = 1;
      health_gain_percent = 0;
      mana_gain = 2;
      mana_gain_percent = 0;
    }))

abbrev fire_damage : Damage
fire_damage = record {
  max_damage = 20;
  min_damage = 10;
  start_damage = 5;
  period_damage = 0;
  period_damage_tick = 0;
  tick_interval = 4000;
  init_damage = 0;
  force_update = false;
  delayed = true;
  field = false;
  owner = 77;
  damage_list =
      record { time_left = 1000; value = 4294967286; interval = 4000 }
      ∷ (record { time_left = 4000; value = 4294967291; interval = 4000 } ∷ []);
}

abbrev fire : Condition
fire = simple Types.fire (damage fire_damage)

-- A ring's haste, of endless ticks, is not saved.
abbrev ring : Condition
ring = record (simple Types.drunk (drunk 40)) { ticks = forever; id = 9 }

abbrev mine : List Condition
mine = food ∷ (ring ∷ (fire ∷ []))

-- The fire lasts for what is left of it, from the time of the login.
loaded_fire :
    load_conditions 1000000 (save_conditions (fire ∷ []) [])
    ≡ record fire {
      ticks = 8000;
      end_time = 1008000;
      kind = damage (record fire_damage {
        max_damage = 0;
        min_damage = 0;
        start_damage = 0;
        tick_interval = 2000;
        owner = 0;
      });
    }
      ∷ []
unfolding load_conditions load_loop create_stored expect value_after with_value read is_persistent
    write save_conditions serialize put_all put_field own_fields damage_fields interval_field packed
    base_fields bit signed32 bytes_of value_of unserialize unserialize_loop pass pass_at pass_of
    set_field unserialize_prop reader_of damage_reader base_reader unpacked push_interval set_ticks
    set_end_time signed64 store_read create_condition class_of_type make blank_data initial_ticks
    initial_end_time
loaded_fire = refl

food-IsRestorable : IsRestorable food
unfolding class_of_type class_of KindFits
food-IsRestorable = record {
  typed = record {
    type_fits = omega arith;
    id_fits = omega arith;
    ticks_fit = omega arith;
    sub_id_fits = omega arith;
    end_time_fits = omega arith;
    has_class = refl;
  };
  fits = (omega arith, (omega arith, (omega arith, (omega arith, (omega arith, omega arith)))));
}

fire-IsRestorable : IsRestorable fire
unfolding class_of_type class_of KindFits
fire-IsRestorable = record {
  typed = record {
    type_fits = omega arith;
    id_fits = omega arith;
    ticks_fit = omega arith;
    sub_id_fits = omega arith;
    end_time_fits = omega arith;
    has_class = refl;
  };
  fits = (
    omega arith,
    (
      (
        (omega arith, (omega arith, omega arith)),
        ((omega arith, (omega arith, omega arith)), omega arith),
      ),
      omega arith,
    ),
  );
}

fuel_is_enough_example :
    (unserialize_loop 9 1000 food (4 ∷ (1 ∷ (2 ∷ []))) ≡ unserialize 1000 food (4 ∷ (1 ∷ (2 ∷ []))))
    × (load_loop 9 1000 (4 ∷ (1 ∷ (2 ∷ []))) [] ≡ load_conditions 1000 (4 ∷ (1 ∷ (2 ∷ []))))
fuel_is_enough_example = fuel_is_enough 9 1000 food (4 ∷ (1 ∷ (2 ∷ []))) (omega arith)

mine-AllRestorable : AllRestorable (kept mine)
unfolding kept is_persistent
mine-AllRestorable = (food-IsRestorable, (fire-IsRestorable, omega arith))

load_conditions-save_conditions_example :
    load_conditions 1000000 (save_conditions mine [])
    ≡ reverse (map (as_loaded 1000000) (kept mine))
load_conditions-save_conditions_example =
    load_conditions-save_conditions 1000000 mine mine-AllRestorable

abbrev torch : Light
torch = record { level = 7; color = 206; internal_light_ticks = 0; light_change_interval = 85714 }

torch-IsTyped : IsTyped (record (simple Types.light generic) { kind = light torch })
unfolding class_of_type class_of
torch-IsTyped = record {
  type_fits = omega arith;
  id_fits = omega arith;
  ticks_fit = omega arith;
  sub_id_fits = omega arith;
  end_time_fits = omega arith;
  has_class = refl;
}

torch_is_saved :
    (is_persistent (record (simple Types.light generic) { kind = light torch }) || false) ≡ true
unfolding is_persistent
torch_is_saved = refl

load_conditions-light_example :
    load_conditions 1000000 (
      save_conditions
        (mine ++ (record (simple Types.light generic) { kind = light torch } ∷ mine))
        [])
    ≡ reverse (map (as_loaded 1000000) (kept mine))
load_conditions-light_example =
    load_conditions-light 1000000 mine mine (simple Types.light generic) torch mine-AllRestorable
      torch-IsTyped (omega arith, (omega arith, (omega arith, omega arith))) torch_is_saved

abbrev blessing : Attributes
blessing = record {
  skills = [];
  skills_percent = [];
  special_skills = [];
  stats = [];
  stats_percent = [];
  experience_rate = [];
  current_skill = 0;
  current_special_skill = 0;
  current_stat = 0;
  current_experience_rate = 0;
  disable_defense = false;
  overrun = false;
}

abbrev blessed : Condition
blessed =
    with_values (simple Types.attributes generic) (λ i. 7) (λ i. 10) (λ i. 0) (λ i. 150) true
      blessing

blessed-IsTyped : IsTyped blessed
unfolding class_of_type class_of with_values
blessed-IsTyped = record {
  type_fits = omega arith;
  id_fits = omega arith;
  ticks_fit = omega arith;
  sub_id_fits = omega arith;
  end_time_fits = omega arith;
  has_class = refl;
}

blessed_is_saved : (is_persistent blessed || blessed.constant) ≡ true
unfolding is_persistent with_values
blessed_is_saved = refl

load_conditions-attributes_example :
    load_conditions 1000000 (save_conditions (blessed ∷ []) [])
    ≡ without_rates (simple Types.attributes generic) (λ i. 7) (λ i. 10) (λ i. 0) (λ i. 150) true
      ∷ []
load_conditions-attributes_example =
    load_conditions-attributes (simple Types.attributes generic) (λ i. 7) (λ i. 10) (λ i. 0)
      (λ i. 150) true 1000000 blessing (λ i. omega arith) (λ i. omega arith) (λ i. omega arith)
      (λ i. omega arith) blessed-IsTyped blessed_is_saved
