-- ===== src/Conditions/Fuel.antt =====
-- The fuel of the loops of `Condition::unserialize` and `IOLoginData::loadPlayer` is enough.
use projeto_bruxo.Base.{
  ℕ, zero, suc, ◌%◌, not, ◌≤◌, ◌<◌, ◌≡◌, refl, ◌⊎◌, inl, inr, Bool, true, false, Option, none, some,
  List, [], ◌∷◌, ltb, ◌==◌, if◌then◌else◌, length, drop, arith, Option-cases, if_cases, ◌>>=◌,
}
use projeto_bruxo.Stream.{read}
use projeto_bruxo.Stream.RoundTrip.{read_byte_lem}
use projeto_bruxo.Conditions.{Condition}
use projeto_bruxo.Conditions.Classes.{create_condition}
use projeto_bruxo.Conditions.Load.{
  Pass, over, onward, pass, pass_at, pass_of, set_field, unserialize_prop, unserialize_loop,
  unserialize, with_value, value_after, expect, with_end_time, create_stored, store_read, load_loop,
  load_conditions,
}
use projeto_bruxo.Conditions.Readers.{Reader, reader_of}
use projeto_bruxo.Conditions.Attr

length-drop : (n : ℕ) (s : List ℕ) → length (drop n s) ≤ length s
length-drop zero s = omega arith
length-drop (suc n) [] = omega arith
length-drop (suc n) (b ∷ s) = omega (arith, length-drop n s)

-- A read leaves no more than there was.
read-Shrinks : (n : ℕ) (s : List ℕ) → length (read n s).1 ≤ length s
unfolding read
read-Shrinks n s =
    if_cases (λ (o : Option ℕ × List ℕ). length o.1 ≤ length s) (ltb (length s) n)
      (λ h. omega arith) (λ h. length-drop n s)

set_field-Shrinks :
    (store : ℕ → Condition) (o : Option ℕ × List ℕ) → length (set_field store o).1 ≤ length o.1
unfolding set_field
set_field-Shrinks store (none, s) = omega arith
set_field-Shrinks store (some v, s) = omega arith

unserialize_prop-Shrinks : (r : Reader) (s : List ℕ) → length (unserialize_prop r s).1 ≤ length s
unfolding unserialize_prop
unserialize_prop-Shrinks none s = omega arith
unserialize_prop-Shrinks (some (n, store)) s =
    omega (arith, set_field-Shrinks store (read n s), read-Shrinks n s)

unfoldable Leaves : ℕ → Pass → Type 0
Leaves n (over a s) = length s ≤ n
Leaves n (onward c s) = length s < n

pass_of-Leaves : (n : ℕ) (o : Option Condition × List ℕ) → length o.1 < n → Leaves n (pass_of o)
unfolding Leaves pass_of
pass_of-Leaves n (none, s) h = omega arith
pass_of-Leaves n (some c, s) h = h

pass_at-Leaves :
    (now : ℕ) (c : Condition) (n attr : ℕ) (s : List ℕ)
    → length s < n
    → Leaves n (pass_at now c (some attr, s))
unfolding Leaves pass_at
pass_at-Leaves now c n attr s h =
    if_cases (λ (p : Pass). Leaves n p) (attr == Attr.end) (λ e. omega arith)
      (λ e.
        let o = unserialize_prop (reader_of now c c.kind attr) s in
        pass_of-Leaves n o
          (omega (arith, unserialize_prop-Shrinks (reader_of now c c.kind attr) s)))

-- A pass that goes on has read at least its attribute byte.
pass-Leaves : (now : ℕ) (c : Condition) (s : List ℕ) → Leaves (length s) (pass now c s)
unfolding Leaves pass pass_at read
pass-Leaves now c [] = omega arith
pass-Leaves now c (b ∷ s) =
    rw (read_byte_lem b s) (pass_at-Leaves now c (suc (length s)) b s (omega arith))

pass-cases :
    (p : Pass)
    → ((a : Option Condition) × (r : List ℕ) × (p ≡ over a r))
      ⊎ ((c : Condition) × (r : List ℕ) × (p ≡ onward c r))
pass-cases (over a r) = inl (a, r, refl)
pass-cases (onward c r) = inr (c, r, refl)

-- Two amounts of fuel that are more than the stream's length give one answer.
pub unserialize_loop_fuel :
    (f g now : ℕ) (c : Condition) (s : List ℕ)
    → length s < f
    → length s < g
    → unserialize_loop f now c s ≡ unserialize_loop g now c s
unfolding unserialize_loop Leaves
unserialize_loop_fuel zero g now c s h k = absurd (omega arith)
unserialize_loop_fuel (suc f) zero now c s h k = absurd (omega arith)
unserialize_loop_fuel (suc f) (suc g) now c s h k = elim (pass-cases (pass now c s)) [
  | inl (a, r, e) ↦ rw (e, unserialize_loop) refl
  | inr (d, r, e) ↦
      let fewer : length r < length s = rw e at (pass-Leaves now c s) in
      rw (e, unserialize_loop) (unserialize_loop_fuel f g now d r (omega arith) (omega arith))
]

module _ {A : Type 0} where
  -- What is found leaves fewer than `n` bytes.
  Below : ℕ → Option (A × List ℕ) → Type 0
  Below n none = 0 ≤ 0
  Below n (some (a, r)) = length r < n

  Below-bind :
      {B : Type 0} (n : ℕ) (o : Option (B × List ℕ)) (f : B × List ℕ → Option (A × List ℕ))
      → ((b : B) (r : List ℕ) → o ≡ some (b, r) → Below n (f (b, r)))
      → Below n (o >>= f)
  unfolding Below
  Below-bind n none f h = omega arith
  Below-bind n (some (b, r)) f h = h b r refl

found-Below : (n : ℕ) (o : Option ℕ × List ℕ) → length o.1 < n → Below n (with_value o)
unfolding Below with_value
found-Below n (none, s) h = omega arith
found-Below n (some v, s) h = h

expect-Below : (attr width : ℕ) (s : List ℕ) → Below (length s) (expect attr width s)
unfolding Below expect value_after read
expect-Below attr width [] = omega arith
expect-Below attr width (b ∷ s) = rw (read_byte_lem b s) (
    if_cases (λ (o : Option (ℕ × List ℕ)). Below (suc (length s)) o) (b == attr)
      (λ e. found-Below (suc (length s)) (read width s) (omega (arith, read-Shrinks width s)))
      (λ e. omega arith))

expect_lt :
    (attr width : ℕ) (s : List ℕ) (v : ℕ) (r : List ℕ)
    → expect attr width s ≡ some (v, r)
    → length r < length s
unfolding Below
expect_lt attr width s v r e = rw e at (expect-Below attr width s)

with_end_time-Below :
    (n : ℕ) (c : Condition) (s : List ℕ) → length s < n → Below n (with_end_time c s)
unfolding Below with_end_time
with_end_time-Below n c s h =
    Below-bind n (expect Attr.end_time 8 s) _
      (λ v r e. omega (arith, expect_lt Attr.end_time 8 s v r e))

-- A condition that is made of what was read leaves fewer bytes than there were.
made-Below :
    (n : ℕ) (o : Option Condition) (b : Bool) (s : List ℕ)
    → length s < n
    → Below n (
        o >>= (λ made.
          let c = record made { constant = b } in if b then with_end_time c s else some (c, s)))
unfolding Below
made-Below n none b s h = omega arith
made-Below n (some made) true s h = with_end_time-Below n (record made { constant = true }) s h
made-Below n (some made) false s h = h

create_stored-Below : (s : List ℕ) → Below (length s) (create_stored s)
unfolding Below create_stored
create_stored-Below s =
    let n = length s in
    Below-bind n (expect Attr.type 4 s) _ (λ type s1 e1.
      Below-bind n (expect Attr.id 4 s1) _ (λ id s2 e2.
        Below-bind n (expect Attr.ticks 4 s2) _ (λ ticks s3 e3.
          Below-bind n (expect Attr.is_buff 1 s3) _ (λ buff s4 e4.
            Below-bind n (expect Attr.sub_id 4 s4) _ (λ sub_id s5 e5.
              Below-bind n (expect Attr.is_aggressive 1 s5) _ (λ aggressive s6 e6.
                Below-bind n (expect Attr.constant 1 s6) _ (λ constant s7 e7.
                  made-Below n
                    (create_condition (id % 256) type ticks 0 (not (buff == 0)) sub_id
                      (not (aggressive == 0)))
                    (not (constant == 0)) s7
                    (omega (
                      arith,
                      expect_lt Attr.type 4 s type s1 e1,
                      expect_lt Attr.id 4 s1 id s2 e2,
                      expect_lt Attr.ticks 4 s2 ticks s3 e3,
                      expect_lt Attr.is_buff 1 s3 buff s4 e4,
                      expect_lt Attr.sub_id 4 s4 sub_id s5 e5,
                      expect_lt Attr.is_aggressive 1 s5 aggressive s6 e6,
                      expect_lt Attr.constant 1 s6 constant s7 e7,
                    )))))))))

unserialize_loop-Shrinks :
    (f now : ℕ) (c : Condition) (s : List ℕ) → length (unserialize_loop f now c s).1 ≤ length s
unfolding unserialize_loop Leaves
unserialize_loop-Shrinks zero now c s = omega arith
unserialize_loop-Shrinks (suc f) now c s = elim (pass-cases (pass now c s)) [
  | inl (a, r, e) ↦ rw (e, unserialize_loop) (rw e at (pass-Leaves now c s))
  | inr (d, r, e) ↦
      let fewer : length r < length s = rw e at (pass-Leaves now c s) in
      rw (e, unserialize_loop) (omega (arith, unserialize_loop-Shrinks f now d r))
]

pub load_loop_fuel :
    (f g now : ℕ) (s : List ℕ) (stored : List Condition)
    → length s < f
    → length s < g
    → load_loop f now s stored ≡ load_loop g now s stored
unfolding load_loop Below unserialize
load_loop_fuel zero g now s stored h k = absurd (omega arith)
load_loop_fuel (suc f) zero now s stored h k = absurd (omega arith)
load_loop_fuel (suc f) (suc g) now s stored h k = elim (Option-cases (create_stored s)) [
  | inl e ↦ rw (e, load_loop) refl
  | inr ((c, r), e) ↦
      let fewer : length r < length s = rw e at (create_stored-Below s) in
      let answer = unserialize now c r in
      let left : length answer.1 ≤ length r = unserialize_loop-Shrinks (suc (length r)) now c r in
      rw (e, load_loop)
        (load_loop_fuel f g now answer.1 (store_read answer.0 stored) (omega arith) (omega arith))
]

-- With more fuel than the stream has bytes, whatever the bytes are, the loop over the attributes of a
-- condition and the loop over the saved conditions give the answers that they give with any more: they
-- end.
pub fuel_is_enough :
    (f now : ℕ) (c : Condition) (s : List ℕ)
    → length s < f
    → (unserialize_loop f now c s ≡ unserialize now c s)
      × (load_loop f now s [] ≡ load_conditions now s)
unfolding unserialize load_conditions
fuel_is_enough f now c s h = (
  unserialize_loop_fuel f (suc (length s)) now c s h (omega arith),
  load_loop_fuel f (suc (length s)) now s [] h (omega arith),
)
