-- ===== src/Conditions/Fields.antt =====
-- The writers of conditions (`serialize` of condition.cpp, and the loop of `IOLoginData::savePlayer`).
-- A saved condition is a sequence of fields: an attribute byte, and a value of so many bytes.
use projeto_bruxo.Base.{
  ℕ, ◌+◌, ◌-◌, ◌*◌, Bool, false, ◌||◌, List, [], ◌∷◌, ◌++◌, map, ltb, ◌==◌, if◌then◌else◌, drop,
  u32_mod,
}
use projeto_bruxo.Stream.{write}
use projeto_bruxo.Conditions.{
  IntervalInfo, Attributes, Regeneration, Soul, Damage, Speed, Light, Subclass, generic, attributes,
  regeneration, soul, invisible, damage, speed, outfit, light, drunk, Condition, forever,
}
use projeto_bruxo.Conditions.Attr
use projeto_bruxo.Conditions.Types

pub record Field : Type 0 where
  pub attr : ℕ
  pub width : ℕ
  pub value : ℕ

-- The write of an attribute byte, then of the value.
unfoldable pub put_field : Field → List ℕ → List ℕ
put_field f buffer = write f.width f.value (write 1 f.attr buffer)

unfoldable pub put_all : List Field → List ℕ → List ℕ
put_all [] buffer = buffer
put_all (f ∷ fs) buffer = put_all fs (put_field f buffer)

abbrev pub field_of : ℕ → ℕ → ℕ → Field
field_of attr width value = record { attr = attr; width = width; value = value }

unfoldable pub bit : Bool → ℕ
bit b = if b then 1 else 0

-- A signed byte as a word of 32 bits.
unfoldable pub signed32 : ℕ → ℕ
signed32 x = if ltb x 128 then x else x + (u32_mod - 256)

-- `Condition::serialize`: the attributes that every class writes.
unfoldable pub base_fields : Condition → List Field
base_fields c =
    field_of Attr.type 4 c.condition_type
    ∷ (field_of Attr.id 4 (signed32 c.id)
        ∷ (field_of Attr.ticks 4 c.ticks
            ∷ (field_of Attr.is_buff 1 (bit c.is_buff)
                ∷ (field_of Attr.sub_id 4 c.sub_id
                    ∷ (field_of Attr.is_aggressive 1 (bit c.aggressive)
                        ∷ (field_of Attr.constant 1 (bit c.constant)
                            ∷ (if c.constant
                                then field_of Attr.end_time 8 c.end_time ∷ []
                                else [])))))))

-- An `IntervalInfo` as it lies in memory.
unfoldable pub packed : IntervalInfo → ℕ
packed i = i.time_left + u32_mod * (i.value + u32_mod * i.interval)

unfoldable pub attributes_fields : Attributes → List Field
attributes_fields a =
    map (field_of Attr.skills 4) a.skills
    ++ (map (field_of Attr.stats 4) a.stats
        ++ (field_of Attr.disable_defense 1 (bit a.disable_defense)
            ∷ (map (field_of Attr.special_skills 4) a.special_skills
                ++ map (field_of Attr.special_skills 4) (drop 1 a.experience_rate))))

unfoldable pub regeneration_fields : Regeneration → List Field
regeneration_fields r =
    field_of Attr.health_ticks 4 r.health_ticks
    ∷ (field_of Attr.health_gain 4 r.health_gain
        ∷ (field_of Attr.health_gain_percent 4 r.health_gain_percent
            ∷ (field_of Attr.mana_ticks 4 r.mana_ticks
                ∷ (field_of Attr.mana_gain 4 r.mana_gain
                    ∷ (field_of Attr.mana_gain_percent 4 r.mana_gain_percent ∷ [])))))

unfoldable pub soul_fields : Soul → List Field
soul_fields s =
    field_of Attr.soul_gain 4 s.soul_gain ∷ (field_of Attr.soul_ticks 4 s.soul_ticks ∷ [])

unfoldable pub interval_field : IntervalInfo → Field
interval_field i = field_of Attr.interval_data 12 (packed i)

unfoldable pub damage_fields : Damage → List Field
damage_fields d =
    field_of Attr.delayed 1 (bit d.delayed)
    ∷ (field_of Attr.period_damage 4 d.period_damage ∷ map interval_field d.damage_list)

unfoldable pub speed_fields : Speed → List Field
speed_fields s =
    field_of Attr.speed_delta 4 s.speed_delta
    ∷ (field_of Attr.formula_mina 4 s.mina
        ∷ (field_of Attr.formula_minb 4 s.minb
            ∷ (field_of Attr.formula_maxa 4 s.maxa ∷ (field_of Attr.formula_maxb 4 s.maxb ∷ []))))

unfoldable pub light_fields : Light → List Field
light_fields l =
    field_of Attr.light_color 4 l.color
    ∷ (field_of Attr.light_level 4 l.level
        ∷ (field_of Attr.light_ticks 4 l.internal_light_ticks
            ∷ (field_of Attr.light_interval 4 l.light_change_interval ∷ [])))

-- What the class of a condition writes after the base.
unfoldable pub own_fields : Subclass → List Field
own_fields generic = []
own_fields (attributes a) = attributes_fields a
own_fields (regeneration r) = regeneration_fields r
own_fields (soul s) = soul_fields s
own_fields invisible = []
own_fields (damage d) = damage_fields d
own_fields (speed s) = speed_fields s
own_fields (outfit o) = field_of Attr.outfit 12 o ∷ []
own_fields (light l) = light_fields l
own_fields (drunk _) = []

-- `serialize` of every class
unfoldable pub serialize : Condition → List ℕ → List ℕ
serialize c buffer = put_all (own_fields c.kind) (put_all (base_fields c) buffer)

-- `Condition::isPersistent`: -1 and 0 are the default slot and that of combat.
unfoldable pub is_persistent : Condition → Bool
is_persistent c =
    if c.ticks == forever
    then false
    else c.id == 255 || c.id == 0 || c.condition_type == Types.muted

-- The conditions in `IOLoginData::savePlayer`
unfoldable pub save_conditions : List Condition → List ℕ → List ℕ
save_conditions [] buffer = buffer
save_conditions (c ∷ cs) buffer =
    if is_persistent c || c.constant
    then save_conditions cs (write 1 Attr.end (serialize c buffer))
    else save_conditions cs buffer
