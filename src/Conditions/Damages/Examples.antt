-- ===== src/Conditions/Damages/Examples.antt =====
-- Fire on a creature: tests, and the theorems at it.
use projeto_bruxo.Base.{◌<◌, ◌≡◌, refl, true, false, [], ◌∷◌, map, take, arith, some, floor_sub32}
use projeto_bruxo.Conditions.{Damage, damage, Condition, set_ticks, set_end_time}
use projeto_bruxo.Conditions.Life.{execute_condition}
use projeto_bruxo.Conditions.Damages.{
  negated32, think_time, on_tick_condition, feeding, execute_damage, tick_damage, put_off,
  interval_of,
}
use projeto_bruxo.Conditions.Damages.Floats.{
  nearer, gap, quotient, to_float, rounded, half_even, nearest,
}
use projeto_bruxo.Conditions.Damages.Dealing.{dealt, burning, dealt-take, damage_of}
use projeto_bruxo.Conditions.Types

abbrev fire : Damage
fire = record {
  max_damage = 30;
  min_damage = 20;
  start_damage = 2;
  period_damage = 0;
  period_damage_tick = 0;
  tick_interval = 4000;
  init_damage = 0;
  force_update = false;
  delayed = true;
  field = false;
  owner = 5;
  damage_list = [];
}

abbrev burn : Condition
burn = record {
  end_time = 0;
  sub_id = 0;
  ticks = 0;
  condition_type = Types.fire;
  is_buff = false;
  aggressive = true;
  constant = false;
  id = 0;
  kind = damage fire;
}

-- At 5 of 6 one more 5 is not nearer, at 5 of 12 it is; also in `float`, where thirds are rounded.
float_tests : (nearer 5 5 6 ≡ false) × ((nearer 5 5 12 ≡ true) × (nearer 1 1 3 ≡ true))
unfolding nearer gap quotient to_float rounded half_even nearest
float_tests = (refl, (refl, refl))

four_seconds : think_time 4000 < 2147483648
unfolding think_time
four_seconds = omega arith

fire_burns : on_tick_condition (some 2) (Types.fire) true ≡ true
unfolding on_tick_condition feeding
fire_burns = refl

-- In a field of fire the damage is dealt again and again.
in_the_fire :
    dealt
      (some 8)
      1000
      4000
      3
      (record burn { ticks = 12000; end_time = 90000 })
      (burning 4000 (5 ∷ (4 ∷ [])) fire)
    ≡ map negated32 (5 ∷ (5 ∷ (5 ∷ [])))
unfolding dealt execute_damage tick_damage on_tick_condition feeding put_off damage_of interval_of
    think_time negated32 execute_condition set_ticks set_end_time floor_sub32
in_the_fire = refl

-- On a field of energy a fire burns down as elsewhere.
dealt-take_example :
    dealt
      (some 2)
      1000
      (think_time 4000)
      2
      (record burn { ticks = 12000 })
      (burning 4000 (5 ∷ (4 ∷ (4 ∷ []))) fire)
    ≡ take 2 (map negated32 (5 ∷ (4 ∷ (4 ∷ []))))
dealt-take_example =
    dealt-take (some 2) 1000 4000 2 (5 ∷ (4 ∷ (4 ∷ []))) (record burn { ticks = 12000 }) fire
      (omega arith) four_seconds fire_burns
