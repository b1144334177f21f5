-- ===== src/Conditions/RoundTrip.antt =====
-- What `IOLoginData::savePlayer` writes of the conditions, `IOLoginData::loadPlayer` reads.
use projeto_bruxo.Base.{
  ℕ, ◌<◌, ◌≤◌, ◌≡◌, refl, ap, ◌∙◌, false, some, List, [], ◌∷◌, ◌++◌, arith, length, u32_mod,
}
use mathlib.Core.List.{append_assoc}
use projeto_bruxo.Stream.{bytes_of, write}
use projeto_bruxo.Stream.RoundTrip.{values}
use projeto_bruxo.Conditions.{
  Damage, Subclass, generic, attributes, regeneration, soul, invisible, damage, speed, outfit,
  light, drunk, Condition,
}
use projeto_bruxo.Conditions.Classes.{blank_data, make, initial_ticks}
use projeto_bruxo.Conditions.Fields.{
  put_all, base_fields, regeneration_fields, soul_fields, damage_fields, speed_fields, own_fields,
  serialize,
}
use projeto_bruxo.Conditions.Readers.{
  regeneration_reader, soul_reader, damage_reader, speed_reader, outfit_reader, reader_of,
}
use projeto_bruxo.Conditions.Load.{create_stored, unserialize}
use projeto_bruxo.Conditions.Encoding.{
  encoded_all, InRange, put_all_lem, taken_by, taken_all, unserialize-fields, unserialize-end,
}
use projeto_bruxo.Conditions.Header.{
  class_of, IsTyped, fresh, bit_lem, bit_fits, base_fields-InRange, create_stored-base_fields,
}
use projeto_bruxo.Conditions.Intervals.{
  IntervalsFit, total_interval, lengthened, interval_fields-InRange, taken_all-intervals,
}
use projeto_bruxo.Conditions.Attr

-- The numbers of a condition's data fit their types. No light and no attributes: those are not read
-- back. The intervals of the damages still to do are together less than 2^31.
unfoldable pub KindFits : Subclass → Type 0
KindFits generic = 0 ≤ 0
KindFits (attributes _) = 1 ≤ 0
KindFits (regeneration r) =
    (r.health_ticks < u32_mod)
    × ((r.health_gain < u32_mod)
        × ((r.health_gain_percent < u32_mod)
            × ((r.mana_ticks < u32_mod)
                × ((r.mana_gain < u32_mod) × (r.mana_gain_percent < u32_mod)))))
KindFits (soul s) = (s.soul_gain < u32_mod) × (s.soul_ticks < u32_mod)
KindFits invisible = 0 ≤ 0
KindFits (damage d) =
    (d.period_damage < u32_mod)
    × (IntervalsFit d.damage_list × (total_interval d.damage_list < 2147483648))
KindFits (speed s) =
    (s.speed_delta < u32_mod)
    × ((s.mina < u32_mod) × ((s.minb < u32_mod) × ((s.maxa < u32_mod) × (s.maxb < u32_mod))))
KindFits (outfit o) = o < values 12
KindFits (light _) = 1 ≤ 0
KindFits (drunk _) = 0 ≤ 0

-- A damage condition as it is before its damages are read.
unfoldable pub fresh_damage : Damage → Damage
fresh_damage d = record {
  max_damage = 0;
  min_damage = 0;
  start_damage = 0;
  period_damage = d.period_damage;
  period_damage_tick = 0;
  tick_interval = 2000;
  init_damage = 0;
  force_update = false;
  delayed = d.delayed;
  field = false;
  owner = 0;
  damage_list = [];
}

-- What is left of a condition that is saved and loaded. Counters start anew, a drunk condition gets the
-- default strength, and a damage condition keeps the delay, the period damage and the damages ahead, and
-- lasts for their intervals.
unfoldable pub as_loaded : ℕ → Condition → Condition
as_loaded now c = elim c.kind [
  | regeneration r ↦ record (fresh c) {
    kind = regeneration (record r { internal_health_ticks = 0; internal_mana_ticks = 0 });
  }
  | soul s ↦ record (fresh c) { kind = soul (record s { internal_soul_ticks = 0 }) }
  | damage d ↦ lengthened now (fresh c) (fresh_damage d) d.damage_list
  | speed s ↦ record (fresh c) { kind = speed s }
  | outfit o ↦ record (fresh c) { kind = outfit o }
  | _ ↦ fresh c
]

pub own_fields-InRange : (k : Subclass) → KindFits k → InRange (own_fields k)
unfolding KindFits own_fields regeneration_fields soul_fields damage_fields speed_fields
own_fields-InRange generic h = h
own_fields-InRange (attributes a) h = absurd (omega arith)
own_fields-InRange (regeneration r) (h1, (h2, (h3, (h4, (h5, h6))))) = (
  omega arith,
  (
    h1,
    (
      omega arith,
      (
        h2,
        (
          omega arith,
          (h3, (omega arith, (h4, (omega arith, (h5, (omega arith, (h6, omega arith))))))),
        ),
      ),
    ),
  ),
)
own_fields-InRange (soul s) (h1, h2) = (omega arith, (h1, (omega arith, (h2, omega arith))))
own_fields-InRange invisible h = h
own_fields-InRange (damage d) (h1, (h2, h3)) = (
  omega arith,
  (bit_fits d.delayed, (omega arith, (h1, interval_fields-InRange d.damage_list h2))),
)
own_fields-InRange (speed s) (h1, (h2, (h3, (h4, h5)))) = (
  omega arith,
  (
    h1,
    (omega arith, (h2, (omega arith, (h3, (omega arith, (h4, (omega arith, (h5, omega arith)))))))),
  ),
)
own_fields-InRange (outfit o) h = (omega arith, (h, omega arith))
own_fields-InRange (light l) h = absurd (omega arith)
own_fields-InRange (drunk s) h = h

-- The fields of a condition's class turn a new condition into the loaded one.
pub taken_all-own_fields :
    (now : ℕ) (c : Condition) (k : Subclass)
    → KindFits k
    → taken_all now (fresh (record c { kind = k })) (own_fields k)
      ≡ some (as_loaded now (record c { kind = k }))
unfolding KindFits own_fields regeneration_fields soul_fields damage_fields speed_fields taken_all
    taken_by fresh make blank_data class_of reader_of regeneration_reader soul_reader damage_reader
    speed_reader outfit_reader as_loaded fresh_damage initial_ticks
taken_all-own_fields now c generic h = refl
taken_all-own_fields now c (attributes a) h = absurd (omega arith)
taken_all-own_fields now c (regeneration r) h = refl
taken_all-own_fields now c (soul s) h = refl
taken_all-own_fields now c invisible h = refl
taken_all-own_fields now c (damage d) (h1, (h2, h3)) = rw (bit_lem d.delayed) (
    taken_all-intervals now (fresh (record c { kind = damage d })) (fresh_damage d) d.damage_list h2
      (omega arith))
taken_all-own_fields now c (speed s) h = refl
taken_all-own_fields now c (outfit o) h = refl
taken_all-own_fields now c (light l) h = absurd (omega arith)
taken_all-own_fields now c (drunk s) h = refl

-- The bytes of a saved condition.
unfoldable pub saved : Condition → List ℕ
saved c = encoded_all (base_fields c) ++ (encoded_all (own_fields c.kind) ++ (Attr.end ∷ []))

pub saved_pos : (c : Condition) → 0 < length (saved c)
unfolding saved base_fields
saved_pos c = omega arith

pub record IsRestorable (c : Condition) : Type 0 where
  pub typed : IsTyped c
  pub fits : KindFits c.kind

pub serialize_lem :
    (c : Condition) (buffer : List ℕ)
    → IsTyped c
    → InRange (own_fields c.kind)
    → write 1 Attr.end (serialize c buffer) ≡ buffer ++ saved c
unfolding serialize saved write bytes_of
serialize_lem c buffer t r =
    rw
      (
        put_all_lem (own_fields c.kind) (put_all (base_fields c) buffer) r,
        put_all_lem (base_fields c) buffer (base_fields-InRange c t),
      )
      (simp (append_assoc))

-- A saved condition is made again from its bytes, as the fields of its class make it, and the stream
-- stands after them.
pub load_one :
    (now : ℕ) (c d : Condition) (s : List ℕ)
    → IsTyped c
    → InRange (own_fields c.kind)
    → taken_all now (fresh c) (own_fields c.kind) ≡ some d
    → (create_stored (saved c ++ s)
        ≡ some (fresh c, encoded_all (own_fields c.kind) ++ (Attr.end ∷ s)))
      × (unserialize now (fresh c) (encoded_all (own_fields c.kind) ++ (Attr.end ∷ s))
          ≡ (some d, s))
unfolding saved
load_one now c d s t r e =
    let own = encoded_all (own_fields c.kind) in
    let joined : saved c ++ s ≡ encoded_all (base_fields c) ++ (own ++ (Attr.end ∷ s)) =
      rw
        (
          append_assoc (encoded_all (base_fields c)) (own ++ (Attr.end ∷ [])) s,
          append_assoc own (Attr.end ∷ []) s,
        )
        refl in
    (
      ap create_stored joined ∙ create_stored-base_fields c (own ++ (Attr.end ∷ s)) t,
      unserialize-fields now (fresh c) d (own_fields c.kind) (Attr.end ∷ s) r e
          ∙ unserialize-end now d s,
    )
