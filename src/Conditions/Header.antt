-- ===== src/Conditions/Header.antt =====
-- What `Condition::createCondition(propStream)` makes of the attributes that `Condition::serialize`
-- writes.
use projeto_bruxo.Base.{
  ℕ, ◌%◌, ◌<◌, ◌≡◌, refl, Bool, true, false, not, some, List, [], ◌∷◌, ◌++◌, ◌==◌, if◌then◌else◌,
  arith, u32_mod, u64_mod,
}
use mathlib.Core.List.{append_assoc}
use projeto_bruxo.Stream.{bytes_of, read, write}
use projeto_bruxo.Stream.RoundTrip.{values, read_byte_lem, read-write}
use projeto_bruxo.Conditions.{
  Subclass, generic, attributes, regeneration, soul, invisible, damage, speed, outfit, light, drunk,
  Condition, set_end_time,
}
use projeto_bruxo.Conditions.Classes.{
  Class, of_generic, of_attributes, of_regeneration, of_soul, of_invisible, of_damage, of_speed,
  of_outfit, of_light, of_drunk, class_of_type, make, create_condition,
}
use projeto_bruxo.Conditions.Fields.{Field, field_of, bit, signed32, base_fields}
use projeto_bruxo.Conditions.Load.{with_value, value_after, expect, with_end_time, create_stored}
use projeto_bruxo.Conditions.Encoding.{encoded_all, InRange}
use projeto_bruxo.Conditions.Attr

unfoldable pub class_of : Subclass → Class
class_of generic = of_generic
class_of (attributes _) = of_attributes
class_of (regeneration _) = of_regeneration
class_of (soul _) = of_soul
class_of invisible = of_invisible
class_of (damage _) = of_damage
class_of (speed _) = of_speed
class_of (outfit _) = of_outfit
class_of (light _) = of_light
class_of (drunk _) = of_drunk

-- A condition whose numbers fit their types and whose class is that of its type.
pub record IsTyped (c : Condition) : Type 0 where
  pub type_fits : c.condition_type < u32_mod
  pub id_fits : c.id < 256
  pub ticks_fit : c.ticks < u32_mod
  pub sub_id_fits : c.sub_id < u32_mod
  pub end_time_fits : c.end_time < u64_mod
  pub has_class : class_of_type c.condition_type ≡ some (class_of c.kind)

-- A new condition with the base of `c`, which has the data of a new one.
unfoldable pub fresh : Condition → Condition
fresh c =
    let made =
      make (class_of c.kind) c.id c.condition_type c.ticks 0 c.is_buff c.sub_id c.aggressive in
    record made {
      constant = c.constant;
      end_time = if c.constant then c.end_time else made.end_time;
    }

pub bit_lem : (b : Bool) → not (bit b == 0) ≡ b
unfolding bit
bit_lem true = refl
bit_lem false = refl

pub bit_fits : (b : Bool) → bit b < 256
unfolding bit
bit_fits true = omega arith
bit_fits false = omega arith

signed32_lem : (x : ℕ) → x < 256 → signed32 x % 256 ≡ x
unfolding signed32
signed32_lem x h = ground arith

signed32_fits : (x : ℕ) → x < 256 → signed32 x < u32_mod
unfolding signed32
signed32_fits x h = ground arith

end_fields-InRange :
    (b : Bool) (t : ℕ) → t < u64_mod → InRange (if b then field_of Attr.end_time 8 t ∷ [] else [])
end_fields-InRange true t h = (omega arith, (h, omega arith))
end_fields-InRange false t h = omega arith

pub base_fields-InRange : (c : Condition) → IsTyped c → InRange (base_fields c)
unfolding base_fields
base_fields-InRange c t = (
  omega arith,
  (
    t.type_fits,
    (
      omega arith,
      (
        signed32_fits c.id t.id_fits,
        (
          omega arith,
          (
            t.ticks_fit,
            (
              omega arith,
              (
                bit_fits c.is_buff,
                (
                  omega arith,
                  (
                    t.sub_id_fits,
                    (
                      omega arith,
                      (
                        bit_fits c.aggressive,
                        (
                          omega arith,
                          (
                            bit_fits c.constant,
                            end_fields-InRange c.constant c.end_time t.end_time_fits,
                          ),
                        ),
                      ),
                    ),
                  ),
                ),
              ),
            ),
          ),
        ),
      ),
    ),
  ),
)

expect-fields :
    (attr width v : ℕ) (fs : List Field) (s : List ℕ)
    → v < values width
    → expect attr width (encoded_all (field_of attr width v ∷ fs) ++ s)
      ≡ some (v, encoded_all fs ++ s)
unfolding expect value_after with_value write
expect-fields attr width v fs s h =
    let rest = encoded_all fs ++ s in
    let same : (attr == attr) ≡ true = ground arith in
    let back : read width (bytes_of width v ++ rest) ≡ (some v, rest) = read-write width v rest h in
    rw
      (
        append_assoc (bytes_of width v) (encoded_all fs) s,
        read_byte_lem attr (bytes_of width v ++ rest),
        same,
        back,
      )
      refl

create_condition_lem :
    (c : Condition)
    → IsTyped c
    → create_condition c.id c.condition_type c.ticks 0 c.is_buff c.sub_id c.aggressive
      ≡ some
          (make (class_of c.kind) c.id c.condition_type c.ticks 0 c.is_buff c.sub_id c.aggressive)
unfolding create_condition
create_condition_lem c t = rw (t.has_class, create_condition) refl

-- The end of `createCondition`, for a condition that is made.
ended :
    (made : Condition) (b : Bool) (end_time : ℕ) (s : List ℕ)
    → end_time < u64_mod
    → (if b
        then with_end_time
            (record made { constant = b })
            (encoded_all (if b then field_of Attr.end_time 8 end_time ∷ [] else []) ++ s)
        else some (
          record made { constant = b },
          encoded_all (if b then field_of Attr.end_time 8 end_time ∷ [] else []) ++ s,
        ))
      ≡ some (record made { constant = b; end_time = if b then end_time else made.end_time }, s)
unfolding with_end_time set_end_time
ended made false end_time s h = refl
ended made true end_time s h = rw (expect-fields Attr.end_time 8 end_time [] s h) refl

pub create_stored-base_fields :
    (c : Condition) (s : List ℕ)
    → IsTyped c
    → create_stored (encoded_all (base_fields c) ++ s) ≡ some (fresh c, s)
unfolding create_stored base_fields fresh
create_stored-base_fields c s t =
    let fields7 : List Field =
      if c.constant then field_of Attr.end_time 8 c.end_time ∷ [] else [] in
    let fields6 = field_of Attr.constant 1 (bit c.constant) ∷ fields7 in
    let fields5 = field_of Attr.is_aggressive 1 (bit c.aggressive) ∷ fields6 in
    let fields4 = field_of Attr.sub_id 4 (c.sub_id) ∷ fields5 in
    let fields3 = field_of Attr.is_buff 1 (bit c.is_buff) ∷ fields4 in
    let fields2 = field_of Attr.ticks 4 (c.ticks) ∷ fields3 in
    let fields1 = field_of Attr.id 4 (signed32 c.id) ∷ fields2 in
    rw
      (
        expect-fields Attr.type 4 (c.condition_type) fields1 s (t.type_fits),
        expect-fields Attr.id 4 (signed32 c.id) fields2 s (signed32_fits c.id t.id_fits),
        expect-fields Attr.ticks 4 (c.ticks) fields3 s (t.ticks_fit),
        expect-fields Attr.is_buff 1 (bit c.is_buff) fields4 s (bit_fits c.is_buff),
        expect-fields Attr.sub_id 4 (c.sub_id) fields5 s (t.sub_id_fits),
        expect-fields Attr.is_aggressive 1 (bit c.aggressive) fields6 s (bit_fits c.aggressive),
        expect-fields Attr.constant 1 (bit c.constant) fields7 s (bit_fits c.constant),
        bit_lem c.is_buff,
        bit_lem c.aggressive,
        bit_lem c.constant,
        signed32_lem c.id t.id_fits,
        create_condition_lem c t,
      )
      (ended
        (make (class_of c.kind) c.id c.condition_type c.ticks 0 c.is_buff c.sub_id c.aggressive)
        c.constant c.end_time s t.end_time_fits)
