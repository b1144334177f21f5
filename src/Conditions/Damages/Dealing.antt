-- ===== src/Conditions/Damages/Dealing.antt =====
-- A damage condition deals its damages in order.
use projeto_bruxo.Base.{
  ℕ, zero, suc, ◌+◌, ◌-◌, ◌%◌, ◌<◌, ◌≡◌, refl, ap, ◌∙◌, true, false, Option, not, List, [], ◌∷◌,
  ◌++◌, map, take, ◌==◌, arith, u32_mod, floor_sub32,
}
use projeto_bruxo.Conditions.{Damage, Subclass, damage, Condition, forever}
use projeto_bruxo.Conditions.Life.{execute_condition_lem, before, floor_sub32_lt}
use projeto_bruxo.Conditions.Damages.{
  negated32, think_time, interval_of, on_tick_condition, tick_damage, execute_damage,
}
use projeto_bruxo.Conditions.Damages.Lasting.{no_damages, intervals_of}

unfoldable pub damage_of : Subclass → Damage → Damage
damage_of (damage d) e = d
damage_of _ e = e

-- The damages that are dealt by so many executions.
unfoldable pub dealt : Option ℕ → (now interval : ℕ) → ℕ → Condition → Damage → List ℕ
dealt magic_field now interval zero c d = []
dealt magic_field now interval (suc n) c d =
    let answer = execute_damage magic_field now interval c d in
    answer.1 ++ dealt magic_field now interval n answer.0.1 (damage_of answer.0.1.kind d)

-- A damage condition with these damages ahead.
abbrev pub burning : ℕ → List ℕ → Damage → Damage
burning time values d = record (no_damages d) { damage_list = intervals_of time values }

execute_damage-burning :
    (magic_field : Option ℕ) (now time v : ℕ) (vs : List ℕ) (c : Condition) (d : Damage)
    → c.ticks < 2147483648
    → think_time time < 2147483648
    → on_tick_condition magic_field c.condition_type true ≡ true
    → execute_damage magic_field now (think_time time) c (burning time (v ∷ vs) d) ≡ (
      (
        not (before c.end_time now),
        record c {
          ticks = floor_sub32 c.ticks (think_time time);
          kind = damage (burning time vs d);
        },
      ),
      negated32 v ∷ [],
    )
unfolding execute_damage tick_damage interval_of
execute_damage-burning magic_field now time v vs c d h k m =
    let t = think_time time in
    let over : (t + u32_mod - t) % u32_mod ≡ 0 = omega arith in
    let finite : (c.ticks == forever) ≡ false = ground arith in
    rw
      (
        over,
        finite,
        m,
        execute_condition_lem now t (record c { kind = damage (burning time vs d) }) h,
      )
      refl

execute_damage-nothing :
    (magic_field : Option ℕ) (now interval : ℕ) (c : Condition) (d : Damage)
    → c.ticks < 2147483648
    → execute_damage magic_field now interval c (no_damages d) ≡ (
      (
        not (before c.end_time now),
        record c { ticks = floor_sub32 c.ticks interval; kind = damage (no_damages d) },
      ),
      [],
    )
unfolding execute_damage tick_damage
execute_damage-nothing magic_field now interval c d h =
    rw (execute_condition_lem now interval (record c { kind = damage (no_damages d) }) h) refl

take_nil : (n : ℕ) → take n (map negated32 []) ≡ []
take_nil zero = refl
take_nil (suc n) = refl

-- A damage condition that is not endless and has one damage each interval ahead, executed so many times
-- with this interval, while no magic field of its kind of damage is on the creature's tile, deals so many
-- of its damages, the first ones, in order, and then none.
pub dealt-take :
    (magic_field : Option ℕ) (now time n : ℕ) (values : List ℕ) (c : Condition) (d : Damage)
    → c.ticks < 2147483648
    → think_time time < 2147483648
    → on_tick_condition magic_field c.condition_type true ≡ true
    → dealt magic_field now (think_time time) n c (burning time values d)
      ≡ take n (map negated32 values)
unfolding dealt damage_of
dealt-take magic_field now time zero values c d h k m = refl
dealt-take magic_field now time (suc n) [] c d h k m =
    let t = think_time time in
    rw (execute_damage-nothing magic_field now t c d h) (
      dealt-take magic_field now time n []
        (record c { ticks = floor_sub32 c.ticks t; kind = damage (no_damages d) }) d
        (floor_sub32_lt c.ticks t) k m
      ∙ take_nil n)
dealt-take magic_field now time (suc n) (v ∷ vs) c d h k m =
    let t = think_time time in
    rw (execute_damage-burning magic_field now time v vs c d h k m) (
      ap (λ l. negated32 v ∷ l)
        (dealt-take magic_field now time n vs
          (record c { ticks = floor_sub32 c.ticks t; kind = damage (burning time vs d) }) d
          (floor_sub32_lt c.ticks t) k m))
