-- ===== src/Conditions/Damages.antt =====
-- Damage over time (`ConditionDamage` of condition.cpp). What `doDamage` does to the creature is not
-- modelled: the damages that are dealt are listed.
pub mod Floats
pub mod Rounding
pub mod Nearing
pub mod Rounds
pub mod Lasting
pub mod Dealing
pub mod Merging
pub mod Params
mod Examples
use projeto_bruxo.Base.{
  ℕ, zero, suc, ◌+◌, ◌-◌, ◌*◌, ◌/◌, ◌%◌, Bool, true, false, not, ◌&&◌, ◌||◌, Option, none, some,
  List, [], ◌∷◌, ◌++◌, ltb, ◌==◌, if◌then◌else◌, u32_mod, u64_mod, max,
}
use projeto_bruxo.Conditions.{
  IntervalInfo, Damage, damage, Condition, forever, set_ticks, set_end_time, signed64,
}
use projeto_bruxo.Conditions.Types
use projeto_bruxo.Conditions.Readers.{push_interval}
use projeto_bruxo.Conditions.Damages.Floats.{nearer}
use projeto_bruxo.Conditions.Life.{is_positive, is_natural, execute_condition}

-- Signed words: the negation and the absolute value.
unfoldable pub negated32 : ℕ → ℕ
negated32 x = (u32_mod - x) % u32_mod

unfoldable pub abs32 : ℕ → ℕ
abs32 x = if is_natural x then x else u32_mod - x

-- The `do` loop of `generateDamageList`: the sum after it, and what it has put in the list.
unfoldable pub repeat_damage : ℕ → (i med sum : ℕ) → ℕ × List ℕ
repeat_damage zero i med sum = (sum, [])
repeat_damage (suc fuel) i med sum =
    let more = repeat_damage fuel i med (sum + i) in
    if nearer (sum + i) i med then (more.0, i ∷ more.1) else (sum + i, i ∷ [])

-- The `for` loop, from `i` down, where the largest product, of `start` and `amount`, fits an `int32_t`:
-- one that does not has no meaning in C++.
unfoldable pub damage_rounds : ℕ → (amount start i sum : ℕ) → List ℕ
damage_rounds fuel amount start zero sum = []
damage_rounds fuel amount start (suc k) sum =
    let n = start + 1 - suc k in
    let round = repeat_damage fuel (suc k) (n * amount / start) sum in
    round.1 ++ damage_rounds fuel amount start k round.0

-- `ConditionDamage::generateDamageList`, for an amount and a start that are not negative and have a
-- product below 2^31
unfoldable pub generate_damage_list : (amount start : ℕ) → List ℕ
generate_damage_list amount start = damage_rounds (suc amount) amount start start 0

-- `ConditionDamage::addDamage`: one damage after another is pushed.
unfoldable pub add_rounds : ℕ → ℕ → Condition → Damage → IntervalInfo → Condition
add_rounds now zero c d i = record c { kind = damage d }
add_rounds now (suc n) c d i =
    add_rounds now n (push_interval now c d i)
      (record d { damage_list = d.damage_list ++ (i ∷ []) }) i

-- At least `EVENT_CREATURE_THINK_INTERVAL`.
unfoldable pub think_time : ℕ → ℕ
think_time time = if is_natural time then max time 250 else 250

unfoldable pub interval_of : ℕ → ℕ → IntervalInfo
interval_of time value = record {
  time_left = think_time time;
  value = value;
  interval = think_time time;
}

unfoldable pub add_damage : (now rounds time value : ℕ) → Condition → Damage → Bool × Condition
add_damage now rounds time value c d =
    let i = interval_of time value in
    let loop =
      if is_natural rounds then add_rounds now rounds c d i else record c { kind = damage d } in
    if rounds == forever
    then (
      true,
      record c {
        ticks = forever;
        kind = damage (record d { period_damage = value; tick_interval = abs32 (think_time time) });
      },
    )
    else if is_positive d.period_damage
    then (false, record c { kind = damage d })
    else (true, loop)

-- The damages of a list, each negated, one round each (the last loop of `init`, where no
-- period damage is set).
unfoldable pub add_each : (now : ℕ) → List ℕ → Condition → Damage → Condition
add_each now [] c d = record c { kind = damage d }
add_each now (value ∷ values) c d =
    let i = interval_of d.tick_interval (negated32 value) in
    add_each now values (push_interval now c d i)
      (record d { damage_list = d.damage_list ++ (i ∷ []) })

-- The first damage: `std::ceil(amount / 20.0)` is exact for an `int32_t`.
unfoldable pub start_of : ℕ → Damage → ℕ
start_of amount d =
    if ltb d.max_damage d.start_damage
    then d.max_damage
    else if d.start_damage == 0
    then max 1 ((amount + 19) / 20)
    else d.start_damage

unfoldable pub is_nonempty : List ℕ → Bool
is_nonempty [] = false
is_nonempty (v ∷ vs) = true

-- `ConditionDamage::init`, for damages that are not negative; `amount` is the random one, and
-- its product with the first damage is below 2^31.
unfoldable pub init : (now amount : ℕ) → Condition → Damage → Bool × Condition
init now amount c d =
    if not (d.period_damage == 0)
    then (true, record c { kind = damage d })
    else elim d.damage_list [
      | i ∷ is ↦ (true, record c { kind = damage d })
      | [] ↦
          let c = set_ticks now 0 c in
          let e = record d { start_damage = start_of amount d } in
          let values = generate_damage_list amount e.start_damage in
          if not (amount == 0)
          then (is_nonempty values, add_each now values c e)
          else (false, record c { kind = damage d })
    ]

-- The `CombatType_t` of a magic field that feeds a condition of a type (`Creature::onTickCondition`).
unfoldable pub feeding : ℕ → Option ℕ
feeding type =
    if type == Types.fire
    then some 8
    else if type == Types.energy
    then some 2
    else if type == Types.poison
    then some 4
    else if type == Types.freezing
    then some 512
    else if type == Types.dazzled
    then some 1024
    else if type == Types.cursed
    then some 2048
    else if type == Types.drown
    then some 256
    else if type == Types.bleeding
    then some 1
    else none

-- `Creature::onTickCondition`, for the combat type of the magic field on the creature's tile, if there is
-- one: whether a damage that is dealt goes.
unfoldable pub on_tick_condition : Option ℕ → ℕ → Bool → Bool
on_tick_condition none type removes = removes
on_tick_condition (some combat) type removes = elim (feeding type) [
  | none ↦ removes
  | some fed ↦ not (combat == fed)
]

-- The end is moved by an interval that does not count.
unfoldable pub put_off : ℕ → Condition → Condition
put_off interval c =
    if is_positive c.ticks then set_end_time ((c.end_time + signed64 interval) % u64_mod) c else c

-- The first part of `ConditionDamage::executeCondition`: the condition, the interval that counts for its
-- ticks, and the damages that are dealt.
unfoldable pub tick_damage : Option ℕ → ℕ → Condition → Damage → Condition × (ℕ × List ℕ)
tick_damage magic_field interval c d =
    if not (d.period_damage == 0)
    then (let tick = (d.period_damage_tick + interval) % u32_mod in
        if is_natural tick && not (ltb tick d.tick_interval)
        then (
          record c { kind = damage (record d { period_damage_tick = 0 }) },
          (interval, d.period_damage ∷ []),
        )
        else (record c { kind = damage (record d { period_damage_tick = tick }) }, (interval, [])))
    else elim d.damage_list [
      | [] ↦ (record c { kind = damage d }, (interval, []))
      | i ∷ is ↦
          let removes = on_tick_condition magic_field c.condition_type (not (c.ticks == forever)) in
          let left = (i.time_left + u32_mod - interval) % u32_mod in
          let is_due = not (is_positive left) in
          let waiting = record i { time_left = left } in
          let again = record i { time_left = i.interval } in
          let e = record d {
            damage_list = if is_due then (if removes then is else again ∷ is) else waiting ∷ is;
          } in
          (
            record (if removes then c else put_off interval c) { kind = damage e },
            (if removes then interval else 0, if is_due then i.value ∷ [] else []),
          )
    ]

-- `ConditionDamage::executeCondition`
unfoldable pub execute_damage :
    Option ℕ → (now interval : ℕ) → Condition → Damage → (Bool × Condition) × List ℕ
execute_damage magic_field now interval c d =
    let ticked = tick_damage magic_field interval c d in
    (execute_condition now ticked.1.0 ticked.0, ticked.1.1)
