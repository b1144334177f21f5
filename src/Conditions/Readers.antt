-- ===== src/Conditions/Readers.antt =====
-- The readers of the attributes of conditions (`unserializeProp` of condition.cpp).
use projeto_bruxo.Base.{
  ℕ, suc, ◌+◌, ◌-◌, ◌/◌, ◌%◌, Bool, not, ◌||◌, Option, none, some, List, [], ◌∷◌, ◌++◌, ltb, ◌==◌,
  if◌then◌else◌, length, set, u32_mod,
}
use projeto_bruxo.Conditions.{
  IntervalInfo, Attributes, Regeneration, Soul, Damage, Speed, Light, Subclass, generic, attributes,
  regeneration, soul, invisible, damage, speed, outfit, light, drunk, Condition, forever, set_ticks,
}
use projeto_bruxo.Conditions.Attr

-- What an attribute byte asks to be read: a value of so many bytes, and what is done with it. None is
-- the answer false, before anything is read.
abbrev pub Reader : Type 0
Reader = Option (ℕ × (ℕ → Condition))

-- `Condition::unserializeProp`
unfoldable pub base_reader : Condition → ℕ → Reader
base_reader c attr =
    if attr == Attr.type
    then some (4, λ v. record c { condition_type = v })
    else if attr == Attr.id
    then some (4, λ v. record c { id = v % 256 })
    else if attr == Attr.ticks
    then some (4, λ v. record c { ticks = v })
    else if attr == Attr.is_buff
    then some (1, λ v. record c { is_buff = not (v == 0) })
    else if attr == Attr.sub_id
    then some (4, λ v. record c { sub_id = v })
    else if attr == Attr.is_aggressive
    then some (1, λ v. record c { aggressive = not (v == 0) })
    else if attr == Attr.constant
    then some (1, λ v. record c { constant = not (v == 0) })
    else if attr == Attr.end_time
    then some (8, λ v. record c { end_time = v })
    else if attr == Attr.end
    then some (0, λ v. c)
    else none

unfoldable pub past_end : List ℕ → ℕ → Bool
past_end xs i = not (ltb i (length xs))

-- A write to an array that another follows in the object, where it may go past the end of the first.
unfoldable pub set_across : List ℕ → List ℕ → ℕ → ℕ → List ℕ × List ℕ
set_across xs ys i v = if past_end xs i then (xs, set ys (i - length xs) v) else (set xs i v, ys)

unfoldable pub read_skill : Attributes → ℕ → Attributes
read_skill a v =
    let both = set_across a.skills a.skills_percent a.current_skill v in
    record a {
      skills = both.0;
      skills_percent = both.1;
      current_skill = suc a.current_skill;
      overrun = a.overrun || past_end a.skills a.current_skill;
    }

unfoldable pub read_special_skill : Attributes → ℕ → Attributes
read_special_skill a v =
    let both = set_across a.special_skills a.stats a.current_special_skill v in
    record a {
      special_skills = both.0;
      stats = both.1;
      current_special_skill = suc a.current_special_skill;
      overrun = a.overrun || past_end a.special_skills a.current_special_skill;
    }

unfoldable pub read_stat : Attributes → ℕ → Attributes
read_stat a v =
    let both = set_across a.stats a.stats_percent a.current_stat v in
    record a {
      stats = both.0;
      stats_percent = both.1;
      current_stat = suc a.current_stat;
      overrun = a.overrun || past_end a.stats a.current_stat;
    }

unfoldable pub read_experience_rate : Attributes → ℕ → Attributes
read_experience_rate a v = record a {
  experience_rate = set a.experience_rate a.current_experience_rate v;
  current_experience_rate = suc a.current_experience_rate;
  overrun = a.overrun || past_end a.experience_rate a.current_experience_rate;
}

-- `ConditionAttributes::unserializeProp`
unfoldable pub attributes_reader : Condition → Attributes → ℕ → Reader
attributes_reader c a attr =
    if attr == Attr.skills
    then some (4, λ v. record c { kind = attributes (read_skill a v) })
    else if attr == Attr.special_skills
    then some (4, λ v. record c { kind = attributes (read_special_skill a v) })
    else if attr == Attr.stats
    then some (4, λ v. record c { kind = attributes (read_stat a v) })
    else if attr == Attr.experience_rate
    then some (4, λ v. record c { kind = attributes (read_experience_rate a v) })
    else if attr == Attr.disable_defense
    then some (1, λ v. record c { kind = attributes (record a { disable_defense = not (v == 0) }) })
    else base_reader c attr

-- `ConditionRegeneration::unserializeProp`
unfoldable pub regeneration_reader : Condition → Regeneration → ℕ → Reader
regeneration_reader c r attr =
    if attr == Attr.health_ticks
    then some (4, λ v. record c { kind = regeneration (record r { health_ticks = v }) })
    else if attr == Attr.health_gain
    then some (4, λ v. record c { kind = regeneration (record r { health_gain = v }) })
    else if attr == Attr.health_gain_percent
    then some (4, λ v. record c { kind = regeneration (record r { health_gain_percent = v }) })
    else if attr == Attr.mana_ticks
    then some (4, λ v. record c { kind = regeneration (record r { mana_ticks = v }) })
    else if attr == Attr.mana_gain
    then some (4, λ v. record c { kind = regeneration (record r { mana_gain = v }) })
    else if attr == Attr.mana_gain_percent
    then some (4, λ v. record c { kind = regeneration (record r { mana_gain_percent = v }) })
    else base_reader c attr

-- `ConditionSoul::unserializeProp`
unfoldable pub soul_reader : Condition → Soul → ℕ → Reader
soul_reader c s attr =
    if attr == Attr.soul_gain
    then some (4, λ v. record c { kind = soul (record s { soul_gain = v }) })
    else if attr == Attr.soul_ticks
    then some (4, λ v. record c { kind = soul (record s { soul_ticks = v }) })
    else base_reader c attr

-- An `IntervalInfo` from its twelve bytes.
unfoldable pub unpacked : ℕ → IntervalInfo
unpacked v = record {
  time_left = v % u32_mod;
  value = v / u32_mod % u32_mod;
  interval = v / u32_mod / u32_mod;
}

-- A damage that is due after an interval lengthens the condition by it.
unfoldable pub push_interval : ℕ → Condition → Damage → IntervalInfo → Condition
push_interval now c d i =
    let pushed = record c {
      kind = damage (record d { damage_list = d.damage_list ++ (i ∷ []) });
    } in
    if not (c.ticks == forever)
    then set_ticks now ((c.ticks + i.interval) % u32_mod) pushed
    else pushed

-- `ConditionDamage::unserializeProp`
unfoldable pub damage_reader : ℕ → Condition → Damage → ℕ → Reader
damage_reader now c d attr =
    if attr == Attr.delayed
    then some (1, λ v. record c { kind = damage (record d { delayed = not (v == 0) }) })
    else if attr == Attr.period_damage
    then some (4, λ v. record c { kind = damage (record d { period_damage = v }) })
    else if attr == Attr.owner
    then some (4, λ v. c)
    else if attr == Attr.interval_data
    then some (12, λ v. push_interval now c d (unpacked v))
    else base_reader c attr

-- `ConditionSpeed::unserializeProp`
unfoldable pub speed_reader : Condition → Speed → ℕ → Reader
speed_reader c s attr =
    if attr == Attr.speed_delta
    then some (4, λ v. record c { kind = speed (record s { speed_delta = v }) })
    else if attr == Attr.formula_mina
    then some (4, λ v. record c { kind = speed (record s { mina = v }) })
    else if attr == Attr.formula_minb
    then some (4, λ v. record c { kind = speed (record s { minb = v }) })
    else if attr == Attr.formula_maxa
    then some (4, λ v. record c { kind = speed (record s { maxa = v }) })
    else if attr == Attr.formula_maxb
    then some (4, λ v. record c { kind = speed (record s { maxb = v }) })
    else base_reader c attr

-- `ConditionLight::unserializeProp`
unfoldable pub light_reader : Condition → Light → ℕ → Reader
light_reader c l attr =
    if attr == Attr.light_color
    then some (1, λ v. record c { kind = light (record l { color = v }) })
    else if attr == Attr.light_level
    then some (1, λ v. record c { kind = light (record l { level = v }) })
    else if attr == Attr.light_ticks
    then some (4, λ v. record c { kind = light (record l { internal_light_ticks = v }) })
    else if attr == Attr.light_interval
    then some (4, λ v. record c { kind = light (record l { light_change_interval = v }) })
    else base_reader c attr

-- `ConditionOutfit::unserializeProp`
unfoldable pub outfit_reader : Condition → ℕ → Reader
outfit_reader c attr =
    if attr == Attr.outfit then some (12, λ v. record c { kind = outfit v }) else base_reader c attr

-- `unserializeProp` of the condition's class
unfoldable pub reader_of : ℕ → Condition → Subclass → ℕ → Reader
reader_of now c (attributes a) attr = attributes_reader c a attr
reader_of now c (regeneration r) attr = regeneration_reader c r attr
reader_of now c (soul s) attr = soul_reader c s attr
reader_of now c (damage d) attr = damage_reader now c d attr
reader_of now c (speed s) attr = speed_reader c s attr
reader_of now c (outfit o) attr = outfit_reader c attr
reader_of now c (light l) attr = light_reader c l attr
reader_of now c generic attr = base_reader c attr
reader_of now c invisible attr = base_reader c attr
reader_of now c (drunk d) attr = base_reader c attr
