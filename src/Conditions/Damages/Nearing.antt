-- ===== src/Conditions/Damages/Nearing.antt =====
-- The comparison of `generateDamageList` finds one more damage nearer only below the middle.
use projeto_bruxo.Base.{
  ℕ, ◌+◌, ◌*◌, ◌<◌, ◌≤◌, ◌≡◌, true, false, ltb, ◌==◌, Bool-cases, inl, inr, arith, ap, sym, ◌∙◌,
  mul_le_mono,
}
use projeto_bruxo.Conditions.Damages.Floats.{
  rounded, float_half, double_half, one_unit, to_float, quotient, gap, nearer,
}
use projeto_bruxo.Conditions.Damages.Rounding.{
  rounded_low, rounded_mono, rounded_power, rounded-rounded,
}

gap_mono : (x y : ℕ) → one_unit ≤ x → x ≤ y → gap x ≤ gap y
unfolding gap
gap_mono x y h k = rounded_mono double_half 200 _ _ 1 (omega arith) (omega arith)

quotient_mono : (x y z : ℕ) → 0 < z → x ≤ y → quotient x z ≤ quotient y z
unfolding quotient
quotient_mono x y z h k =
    rounded_mono float_half 200 (x * one_unit) (y * one_unit) z h (mul_le_mono x y one_unit k)

one_le_quotient : (x z : ℕ) → 0 < z → z ≤ x → one_unit ≤ quotient x z
unfolding quotient
one_le_quotient x z h k =
    rounded_power float_half 200 149 (x * one_unit) z (omega arith) h (omega arith)

to_float_mono : (x y : ℕ) → x ≤ y → to_float x ≤ to_float y
unfolding to_float
to_float_mono x y h = rounded_mono float_half 200 x y 1 (omega arith) h

to_float_pos : (x : ℕ) → 0 < x → 0 < to_float x
unfolding to_float
to_float_pos x h = rounded_low float_half 200 1 x 1 (omega arith) (omega arith) (omega arith)

to_float-to_float : (x : ℕ) → to_float (to_float x) ≡ to_float x
unfolding to_float
to_float-to_float x =
    let same : rounded float_half 200 x 1 * 1 ≡ rounded float_half 200 x 1 = omega arith in
    ap (λ y. rounded float_half 200 y 1) (sym same)
    ∙ rounded-rounded float_half 200 x 1 1 (omega arith) (omega arith) (omega arith)

-- One more damage is found nearer only where the sum is below the middle: rounding keeps the order, and
-- at or above the middle one more goes further from it.
pub nearer-below : (sum i med : ℕ) → nearer sum i med ≡ true → sum < med
unfolding nearer
nearer-below sum i med h = elim (Bool-cases (ltb sum med)) [
  | inl below ↦ ground arith
  | inr above ↦ elim (Bool-cases (med == 0)) [
    | inl nothing ↦ absurd (let no : false ≡ true = rw nothing at h in ground arith)
    | inr something ↦
        let m = to_float med in
        let s = to_float sum in
        let p = to_float (s + to_float i) in
        let a : 0 < m = to_float_pos med (ground arith) in
        let b : m ≤ s = to_float_mono med sum (ground arith) in
        let c : to_float s ≤ p = to_float_mono s (s + to_float i) (omega arith) in
        let d : s ≤ p = rw (to_float-to_float sum) at c in
        let e = one_le_quotient s m a b in
        let f = gap_mono (quotient s m) (quotient p m) e (quotient_mono s p m a d) in
        let found : ltb (gap (quotient p m)) (gap (quotient s m)) ≡ true = rw something at h in
        absurd (ground arith)
  ]
]
