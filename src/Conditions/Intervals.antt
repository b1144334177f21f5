-- ===== src/Conditions/Intervals.antt =====
-- The damages that a saved damage condition still has to do (`CONDITIONATTR_INTERVALDATA`).
use projeto_bruxo.Base.{
  ℕ, ◌+◌, ◌*◌, ◌/◌, ◌%◌, ◌<◌, ◌≤◌, ◌≡◌, refl, ap, ◌∙◌, true, false, some, List, [], ◌∷◌, ◌++◌, map,
  ltb, ◌==◌, arith, u32_mod, u64_mod,
}
use mathlib.Core.List.{append_assoc}
use projeto_bruxo.Stream.RoundTrip.{values}
use projeto_bruxo.Conditions.{
  IntervalInfo, Damage, damage, Condition, forever, signed64, set_end_time, set_ticks,
}
use projeto_bruxo.Conditions.Fields.{packed, interval_field}
use projeto_bruxo.Conditions.Readers.{unpacked, push_interval, damage_reader, reader_of}
use projeto_bruxo.Conditions.Encoding.{InRange, taken_by, taken_all}

abbrev pub IntervalFits : IntervalInfo → Type 0
IntervalFits i = (i.time_left < u32_mod) × ((i.value < u32_mod) × (i.interval < u32_mod))

abbrev pub IntervalsFit : List IntervalInfo → Type 0
IntervalsFit [] = 0 ≤ 0
IntervalsFit (i ∷ is) = IntervalFits i × IntervalsFit is

abbrev pub total_interval : List IntervalInfo → ℕ
total_interval [] = 0
total_interval (i ∷ is) = i.interval + total_interval is

unpacked-packed : (i : IntervalInfo) → IntervalFits i → unpacked (packed i) ≡ i
unfolding unpacked packed
unpacked-packed i (h, (k, l)) =
    let a : (i.time_left + u32_mod * (i.value + u32_mod * i.interval)) % u32_mod ≡ i.time_left =
      omega arith in
    let b : (i.time_left + u32_mod * (i.value + u32_mod * i.interval)) / u32_mod
        ≡ i.value + u32_mod * i.interval =
      omega arith in
    let c : (i.value + u32_mod * i.interval) % u32_mod ≡ i.value = omega arith in
    let d : (i.value + u32_mod * i.interval) / u32_mod ≡ i.interval = omega arith in
    rw (a, b, c, d) refl

packed_fits : (i : IntervalInfo) → IntervalFits i → packed i < values 12
unfolding packed
packed_fits i (h, (k, l)) = omega arith

pub interval_fields-InRange :
    (is : List IntervalInfo) → IntervalsFit is → InRange (map interval_field is)
unfolding interval_field
interval_fields-InRange [] h = omega arith
interval_fields-InRange (i ∷ is) (h, k) =
    (omega arith, (packed_fits i h, interval_fields-InRange is k))

-- A condition with these damages added at its end: each lengthens it.
unfoldable pub lengthened : ℕ → Condition → Damage → List IntervalInfo → Condition
lengthened now c d [] = record c { kind = damage d }
lengthened now c d (i ∷ is) = record c {
  ticks = c.ticks + total_interval (i ∷ is);
  end_time = (c.ticks + total_interval (i ∷ is) + now) % u64_mod;
  kind = damage (record d { damage_list = d.damage_list ++ (i ∷ is) });
}

-- A condition that one damage is added to.
unfoldable pub one_more : ℕ → Condition → IntervalInfo → Condition
one_more now c i = record c {
  ticks = c.ticks + i.interval;
  end_time = (c.ticks + i.interval + now) % u64_mod;
}

pub push_interval_lem :
    (now : ℕ) (c : Condition) (d : Damage) (i : IntervalInfo)
    → c.ticks + i.interval < 2147483648
    → push_interval now (record c { kind = damage d }) d i ≡ record (one_more now c i) {
      kind = damage (record d { damage_list = d.damage_list ++ (i ∷ []) });
    }
unfolding push_interval one_more set_ticks set_end_time signed64
push_interval_lem now c d i h =
    let a : (c.ticks == forever) ≡ false = ground arith in
    let b : (c.ticks + i.interval) % u32_mod ≡ c.ticks + i.interval = omega arith in
    let e : ltb (c.ticks + i.interval) 2147483648 ≡ true = ground arith in rw (a, b, e) refl

pub lengthened-one_more :
    (now : ℕ) (c : Condition) (d : Damage) (i : IntervalInfo) (is : List IntervalInfo)
    → lengthened now (one_more now c i) (record d { damage_list = d.damage_list ++ (i ∷ []) }) is
      ≡ lengthened now c d (i ∷ is)
unfolding lengthened one_more
lengthened-one_more now c d i [] = let z : i.interval + 0 ≡ i.interval = omega arith in rw z refl
lengthened-one_more now c d i (j ∷ is) =
    let t = total_interval (j ∷ is) in
    let z : c.ticks + i.interval + t ≡ c.ticks + (i.interval + t) = omega arith in
    rw (z, append_assoc d.damage_list (i ∷ []) (j ∷ is)) refl

-- Reading the damages lengthens the condition by their intervals.
pub taken_all-intervals :
    (now : ℕ) (c : Condition) (d : Damage) (is : List IntervalInfo)
    → IntervalsFit is
    → c.ticks + total_interval is < 2147483648
    → taken_all now (record c { kind = damage d }) (map interval_field is)
      ≡ some (lengthened now c d is)
unfolding taken_all taken_by reader_of damage_reader interval_field lengthened one_more
taken_all-intervals now c d [] h k = refl
taken_all-intervals now c d (i ∷ is) (h, l) k =
    rw (unpacked-packed i h, push_interval_lem now c d i (omega arith))
      (let e = record d { damage_list = d.damage_list ++ (i ∷ []) } in
        taken_all-intervals now (one_more now c i) e is l (omega arith)
        ∙ ap some (lengthened-one_more now c d i is))
