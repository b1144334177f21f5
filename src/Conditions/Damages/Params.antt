-- ===== src/Conditions/Damages/Params.antt =====
-- The parameters of a damage condition (`setParam` and `getParam` of Condition and ConditionDamage).
use projeto_bruxo.Base.{ℕ, ◌≡◌, refl, Bool, true, false, not, ◌==◌}
use projeto_bruxo.Conditions.{Damage, Condition}
use projeto_bruxo.Conditions.Fields.{bit}
use projeto_bruxo.Conditions.Damages.{abs32}

-- `ConditionParam_t` of enums.h: those that a damage condition knows, and the rest.
pub data ConditionParam : Type 0 where
  param_owner param_ticks param_delayed param_min_value param_max_value param_start_value
        param_tick_interval param_force_update param_periodic_damage param_buff_spell param_sub_id
        param_field param_aggressive param_other :
      ConditionParam

-- `Condition::setParam`
unfoldable pub set_base_param : ConditionParam → ℕ → Condition → Bool × Condition
set_base_param param_ticks v c = (true, record c { ticks = v })
set_base_param param_buff_spell v c = (true, record c { is_buff = not (v == 0) })
set_base_param param_sub_id v c = (true, record c { sub_id = v })
set_base_param param_aggressive v c = (true, record c { aggressive = not (v == 0) })
set_base_param _ v c = (false, c)

-- `Condition::getParam`; the greatest `int32_t` where it knows nothing.
unfoldable pub get_base_param : ConditionParam → Condition → ℕ
get_base_param param_ticks c = c.ticks
get_base_param param_buff_spell c = bit c.is_buff
get_base_param param_sub_id c = c.sub_id
get_base_param _ c = 2147483647

-- `ConditionDamage::setParam`: what the base has answered, the answer, and the data.
unfoldable pub set_damage_param : ConditionParam → ℕ → Bool → Damage → Bool × Damage
set_damage_param param_owner v ret d = (true, record d { owner = v })
set_damage_param param_force_update v ret d = (true, record d { force_update = not (v == 0) })
set_damage_param param_delayed v ret d = (true, record d { delayed = not (v == 0) })
set_damage_param param_max_value v ret d = (ret, record d { max_damage = abs32 v })
set_damage_param param_min_value v ret d = (ret, record d { min_damage = abs32 v })
set_damage_param param_start_value v ret d = (ret, record d { start_damage = abs32 v })
set_damage_param param_tick_interval v ret d = (ret, record d { tick_interval = abs32 v })
set_damage_param param_periodic_damage v ret d = (ret, record d { period_damage = v })
set_damage_param param_field v ret d = (ret, record d { field = not (v == 0) })
set_damage_param _ v ret d = (false, d)

unfoldable pub set_param : ConditionParam → ℕ → Condition → Damage → Bool × (Condition × Damage)
set_param p v c d =
    let base = set_base_param p v c in
    let own = set_damage_param p v base.0 d in (own.0, (base.1, own.1))

-- `ConditionDamage::getParam`
unfoldable pub get_param : ConditionParam → Condition → Damage → ℕ
get_param param_owner c d = d.owner
get_param param_force_update c d = bit d.force_update
get_param param_delayed c d = bit d.delayed
get_param param_max_value c d = d.max_damage
get_param param_min_value c d = d.min_damage
get_param param_start_value c d = d.start_damage
get_param param_tick_interval c d = d.tick_interval
get_param param_periodic_damage c d = d.period_damage
get_param param_field c d = bit d.field
get_param p c d = get_base_param p c

-- What is kept of a value: of a flag whether it is not 0, of an amount its absolute value; nothing that
-- can be asked for of `aggressive` and of parameters that a damage condition does not know.
unfoldable pub kept_value : ConditionParam → ℕ → ℕ
kept_value param_owner v = v
kept_value param_ticks v = v
kept_value param_sub_id v = v
kept_value param_periodic_damage v = v
kept_value param_max_value v = abs32 v
kept_value param_min_value v = abs32 v
kept_value param_start_value v = abs32 v
kept_value param_tick_interval v = abs32 v
kept_value param_aggressive v = 2147483647
kept_value param_other v = 2147483647
kept_value _ v = bit (not (v == 0))

unfoldable pub get_after_set : ConditionParam → ℕ → Condition → Damage → ℕ
get_after_set p v c d = let r = set_param p v c d in get_param p r.1.0 r.1.1

-- The value of a parameter of a damage condition after it was set is what is kept of what was given.
pub get_param-set_param :
    (p : ConditionParam) (v : ℕ) (c : Condition) (d : Damage)
    → get_after_set p v c d ≡ kept_value p v
unfolding get_after_set set_param get_param set_base_param get_base_param set_damage_param
    kept_value
get_param-set_param param_owner v c d = refl
get_param-set_param param_ticks v c d = refl
get_param-set_param param_delayed v c d = refl
get_param-set_param param_min_value v c d = refl
get_param-set_param param_max_value v c d = refl
get_param-set_param param_start_value v c d = refl
get_param-set_param param_tick_interval v c d = refl
get_param-set_param param_force_update v c d = refl
get_param-set_param param_periodic_damage v c d = refl
get_param-set_param param_buff_spell v c d = refl
get_param-set_param param_sub_id v c d = refl
get_param-set_param param_field v c d = refl
get_param-set_param param_aggressive v c d = refl
get_param-set_param param_other v c d = refl

-- The answer is true for the owner, the forced update and the delay, and false for every other
-- parameter, also where the value is kept.
pub set_param-answer :
    (p : ConditionParam) (v : ℕ) (c : Condition) (d : Damage)
    → (set_param p v c d).0
      ≡ elim p [ param_owner ↦ true | param_force_update ↦ true | param_delayed ↦ true | _ ↦ false ]
unfolding set_param set_base_param set_damage_param
set_param-answer param_owner v c d = refl
set_param-answer param_ticks v c d = refl
set_param-answer param_delayed v c d = refl
set_param-answer param_min_value v c d = refl
set_param-answer param_max_value v c d = refl
set_param-answer param_start_value v c d = refl
set_param-answer param_tick_interval v c d = refl
set_param-answer param_force_update v c d = refl
set_param-answer param_periodic_damage v c d = refl
set_param-answer param_buff_spell v c d = refl
set_param-answer param_sub_id v c d = refl
set_param-answer param_field v c d = refl
set_param-answer param_aggressive v c d = refl
set_param-answer param_other v c d = refl
