-- ===== src/Conditions/Damages/Merging.antt =====
-- A damage condition that is added to one that a creature has (`ConditionDamage::addCondition`).
use projeto_bruxo.Base.{
  ℕ, ◌+◌, ◌-◌, ◌/◌, ◌%◌, ◌≡◌, refl, Bool, true, false, not, ◌&&◌, List, [], ◌∷◌, ltb, ◌==◌,
  if◌then◌else◌, Bool-cases, inl, inr, arith, u32_mod,
}
use projeto_bruxo.Conditions.{IntervalInfo, Damage, damage, Condition, forever, set_ticks}
use projeto_bruxo.Conditions.Life.{is_positive, is_natural}
use projeto_bruxo.Conditions.Damages.{abs32, init}
use projeto_bruxo.Conditions.Damages.Dealing.{damage_of}

unfoldable pub sum_values : List IntervalInfo → ℕ
sum_values [] = 0
sum_values (i ∷ is) = (i.value + sum_values is) % u32_mod

-- Half of a signed word, towards zero.
unfoldable pub half32 : ℕ → ℕ
half32 x = if is_natural x then x / 2 else (u32_mod - (u32_mod - x) / 2) % u32_mod

-- `ConditionDamage::getTotalDamage`
unfoldable pub get_total_damage : Damage → ℕ
get_total_damage d = elim d.damage_list [
  | [] ↦
      abs32 ((d.min_damage + half32 ((d.max_damage + u32_mod - d.min_damage) % u32_mod)) % u32_mod)
  | i ∷ is ↦ abs32 (sum_values (i ∷ is))
]

-- `ConditionDamage::updateCondition`
unfoldable pub update_damage : Condition → Damage → Condition → Damage → Bool
update_damage c d added e =
    if e.force_update
    then true
    else if c.ticks == forever && is_positive added.ticks
    then false
    else ltb (get_total_damage d) (get_total_damage e)

-- The time to the next damage: that of the first one that is left.
unfoldable pub next_time_left : ℕ → List IntervalInfo → ℕ
next_time_left interval [] = interval
next_time_left interval (i ∷ is) = i.time_left

unfoldable pub set_first : ℕ → List IntervalInfo → List IntervalInfo
set_first time_left [] = []
set_first time_left (i ∷ is) = record i { time_left = time_left } ∷ is

-- `ConditionDamage::getNextDamage`: the condition, and the damage if there is one.
unfoldable pub get_next_damage : Condition → Damage → Condition × List ℕ
get_next_damage c d =
    if not (d.period_damage == 0)
    then (record c { kind = damage d }, d.period_damage ∷ [])
    else elim d.damage_list [
      | [] ↦ (record c { kind = damage d }, [])
      | i ∷ is ↦
          if c.ticks == forever
          then (record c { kind = damage d }, i.value ∷ [])
          else (record c { kind = damage (record d { damage_list = is }) }, i.value ∷ [])
    ]

-- The condition with the damages of the new one.
unfoldable pub taken_over : Damage → Damage → Damage
taken_over d e = record d {
  owner = e.owner;
  max_damage = e.max_damage;
  min_damage = e.min_damage;
  start_damage = e.start_damage;
  tick_interval = e.tick_interval;
  period_damage = e.period_damage;
  damage_list = e.damage_list;
}

-- What follows `init` in `addCondition`.
unfoldable pub after_init : ℕ → Bool × Condition → Damage → Condition × List ℕ
after_init time_left answer fallback =
    let d = damage_of answer.1.kind fallback in
    let first = record d { damage_list = set_first time_left d.damage_list } in
    let next = get_next_damage answer.1 first in
    if answer.0
    then (if not first.delayed then next else (record answer.1 { kind = damage first }, []))
    else (answer.1, [])

-- `ConditionDamage::addCondition`: the condition, and the damages that are dealt; `amount` is the random
-- one of `init`.
unfoldable pub add_to_damage :
    (now amount : ℕ) → Condition → Damage → Condition → Damage → Condition × List ℕ
add_to_damage now amount c d added e =
    let time_left = next_time_left e.tick_interval d.damage_list in
    let both = taken_over d e in
    if not (added.condition_type == c.condition_type)
    then (record c { kind = damage d }, [])
    else if not (update_damage c d added e)
    then (record c { kind = damage d }, [])
    else after_init time_left (init now amount (set_ticks now added.ticks c) both) both

-- A delayed damage condition that meets one with damages ahead, of its type and stronger, takes over the
-- other's damages, ticks and end, and keeps the time that it had left to its next damage.
pub add_to_damage-keeps_time :
    (now amount : ℕ) (c added : Condition) (d e : Damage) (i j : IntervalInfo)
    (is js : List IntervalInfo)
    → added.condition_type ≡ c.condition_type
    → update_damage c
        (record d { delayed = true; damage_list = i ∷ is })
        added
        (record e { damage_list = j ∷ js })
      ≡ true
    → add_to_damage now amount c
        (record d { delayed = true; damage_list = i ∷ is })
        added
        (record e { damage_list = j ∷ js })
      ≡ (
        record (set_ticks now added.ticks c) {
          kind = damage (record (taken_over d e) {
            delayed = true;
            damage_list = record j { time_left = i.time_left } ∷ js;
          });
        },
        [],
      )
unfolding add_to_damage next_time_left taken_over after_init init damage_of set_first
add_to_damage-keeps_time now amount c added d e i j is js t u =
    let same : (added.condition_type == c.condition_type) ≡ true = ground arith in
    elim (Bool-cases (e.period_damage == 0)) [
      | inl none_yet ↦ rw (same, u, none_yet) refl
      | inr periodic ↦ rw (same, u, periodic) refl
    ]
