-- ===== src/Conditions/Damages/Rounding.antt =====
-- How numbers are rounded to so many binary digits.
use projeto_bruxo.Base.{
  ℕ, zero, suc, ◌+◌, ◌*◌, ◌/◌, ◌%◌, ◌^◌, ◌<◌, ◌≤◌, ◌≡◌, refl, true, false, ltb, if_cases,
  Bool-cases, inl, inr, arith, ap, sym, mul_le_mono,
}
use native.Mathlib.Nat.{
  div-add-mod, le-div_iff_mul-le, div-lt_iff_lt-mul, mul-div_cancel, mul-mod_left, pow-succ',
}
use projeto_bruxo.Conditions.Damages.Floats.{nearest, half_even, rounded}

double_mul : (h d : ℕ) → h * (2 * d) ≡ 2 * h * d
double_mul h d = grind arith

nearest_bounds : (q r d : ℕ) → (q ≤ nearest q r d) × (nearest q r d ≤ q + 1)
unfolding nearest
nearest_bounds q r d =
    let goal = λ (x : ℕ). (q ≤ x) × (x ≤ q + 1) in
    if_cases goal (ltb (2 * r) d) (λ h. (omega arith, omega arith))
      (λ h.
        if_cases goal (ltb d (2 * r)) (λ k. (omega arith, omega arith))
          (λ k. (omega arith, omega arith)))

nearest_mono : (q r s d : ℕ) → r ≤ s → nearest q r d ≤ nearest q s d
unfolding nearest
nearest_mono q r s d h = ground arith

half_even-whole : (q d : ℕ) → 0 < d → half_even (q * d) d ≡ q
unfolding half_even nearest
half_even-whole q d h =
    let a : q * d / d ≡ q = mul-div_cancel q h in
    let b : q * d % d ≡ 0 = mul-mod_left q d in
    let c : ltb (2 * 0) d ≡ true = ground arith in rw (a, b, c) refl

at_most : (c n d : ℕ) → 0 < d → c * d ≤ n → c ≤ half_even n d
unfolding half_even
at_most c n d h k =
    let a : c ≤ n / d = (le-div_iff_mul-le h).1 k in
    let b = nearest_bounds (n / d) (n % d) d in omega arith

half_even-bounded : (c n d : ℕ) → 0 < d → n < c * d → half_even n d ≤ c
unfolding half_even
half_even-bounded c n d h k =
    let a : n / d < c = (div-lt_iff_lt-mul h).1 k in
    let b = nearest_bounds (n / d) (n % d) d in omega arith

div_mono : (n m d : ℕ) → 0 < d → n ≤ m → n / d ≤ m / d
div_mono n m d h k =
    (le-div_iff_mul-le h).1
      (let a : n / d * d ≤ n = (le-div_iff_mul-le h).0 (omega arith) in omega arith)

half_even_mono : (n m d : ℕ) → 0 < d → n ≤ m → half_even n d ≤ half_even m d
unfolding half_even
half_even_mono n m d h k = elim (Bool-cases (ltb (n / d) (m / d))) [
  | inl apart ↦
      let a = nearest_bounds (n / d) (n % d) d in
      let b = nearest_bounds (m / d) (m % d) d in
      let c : n / d < m / d = ground arith in omega arith
  | inr together ↦
      let a : n / d ≡ m / d = let b = div_mono n m d h k in ground arith in
      let c : d * (m / d) + n % d ≡ n = rw (← a) (div-add-mod n d) in
      let e = div-add-mod m d in rw a (nearest_mono (m / d) (n % d) (m % d) d (omega arith))
]

pub rounded_low : (half f c n d : ℕ) → 0 < d → c ≤ 2 * half → c * d ≤ n → c ≤ rounded half f n d
unfolding rounded
rounded_low half zero c n d p l h = at_most c n d p h
rounded_low half (suc f) c n d p l h = elim (Bool-cases (ltb n (2 * half * d))) [
  | inl below ↦ rw below (at_most c n d p h)
  | inr above ↦
      let e : half * (2 * d) ≤ n = rw (double_mul half d) (ground arith) in
      let low : half ≤ rounded half f n (2 * d) =
        rounded_low half f half n (2 * d) (omega arith) (omega arith) e in
      rw above (omega arith)
]

pub rounded_mono : (half f n m d : ℕ) → 0 < d → n ≤ m → rounded half f n d ≤ rounded half f m d
unfolding rounded
rounded_mono half zero n m d p h = half_even_mono n m d p h
rounded_mono half (suc f) n m d p h = elim (Bool-cases (ltb m (2 * half * d))) [
  | inl below ↦
      let also : ltb n (2 * half * d) ≡ true = ground arith in
      rw (below, also) (half_even_mono n m d p h)
  | inr above ↦ elim (Bool-cases (ltb n (2 * half * d))) [
    | inl apart ↦
        let e : half * (2 * d) ≤ m = rw (double_mul half d) (ground arith) in
        let low : half ≤ rounded half f m (2 * d) =
          rounded_low half f half m (2 * d) (omega arith) (omega arith) e in
        let high : half_even n d ≤ 2 * half = half_even-bounded (2 * half) n d p (ground arith) in
        rw (above, apart) (omega arith)
    | inr also ↦
        let rest = rounded_mono half f n m (2 * d) (omega arith) h in rw (above, also) (omega arith)
  ]
]

pub rounded_power :
    (half f k n d : ℕ) → 0 < half → 0 < d → 2 ^ k * d ≤ n → 2 ^ k ≤ rounded half f n d
unfolding rounded
rounded_power half zero k n d q p h = at_most (2 ^ k) n d p h
rounded_power half (suc f) zero n d q p h = rounded_low half (suc f) 1 n d p (omega arith) h
rounded_power half (suc f) (suc k) n d q p h = elim (Bool-cases (ltb n (2 * half * d))) [
  | inl below ↦ rw below (at_most (2 ^ suc k) n d p h)
  | inr above ↦
      let e : 2 ^ k * (2 * d) ≤ n = rw (double_mul (2 ^ k) d, ← pow-succ' 2 k) h in
      let low : 2 ^ k ≤ rounded half f n (2 * d) =
        rounded_power half f k n (2 * d) q (omega arith) e in
      rw (above, pow-succ' 2 k) (omega arith)
]

rounded-half : (half f e : ℕ) → 0 < half → 0 < e → rounded half f (half * (2 * e)) (2 * e) ≡ half
unfolding rounded
rounded-half half zero e q r = half_even-whole half (2 * e) (omega arith)
rounded-half half (suc f) e q r =
    let a : suc half * (2 * e) ≤ 2 * half * (2 * e) =
      mul_le_mono (suc half) (2 * half) (2 * e) (omega arith) in
    let b : ltb (half * (2 * e)) (2 * half * (2 * e)) ≡ true = grind arith in
    rw b (half_even-whole half (2 * e) (omega arith))

rounded-small : (half f r e : ℕ) → 0 < half → 0 < e → r ≤ 2 * half → rounded half f (r * e) e ≡ r
unfolding rounded
rounded-small half zero r e q p h = half_even-whole r e p
rounded-small half (suc f) r e q p h = elim (Bool-cases (ltb (r * e) (2 * half * e))) [
  | inl below ↦ rw below (half_even-whole r e p)
  | inr above ↦
      let top : r ≡ 2 * half = elim (Bool-cases (ltb r (2 * half))) [
        | inl less ↦
            let a : suc r * e ≤ 2 * half * e = mul_le_mono (suc r) (2 * half) e (ground arith) in
            grind arith
        | inr more ↦ ground arith
      ] in
      let a : r * e ≡ half * (2 * e) = rw (top, double_mul half e) refl in
      rw (above, a, rounded-half half f e q p) (sym top)
]

-- A number that is rounded already stays.
pub rounded-rounded :
    (half f n d e : ℕ)
    → 0 < half
    → 0 < d
    → 0 < e
    → rounded half f (rounded half f n d * e) e ≡ rounded half f n d
unfolding rounded
rounded-rounded half zero n d e q p r = half_even-whole (half_even n d) e r
rounded-rounded half (suc f) n d e q p r = elim (Bool-cases (ltb n (2 * half * d))) [
  | inl below ↦
      let high = half_even-bounded (2 * half) n d p (ground arith) in
      let same : rounded half (suc f) n d ≡ half_even n d = rw (below, rounded) refl in
      rw (same) (rounded-small half (suc f) (half_even n d) e q r high)
  | inr above ↦
      let x = rounded half f n (2 * d) in
      let same : rounded half (suc f) n d ≡ 2 * x = rw (above, rounded) refl in
      let b : half * (2 * d) ≤ n = rw (double_mul half d) (ground arith) in
      let low : half ≤ x = rounded_low half f half n (2 * d) (omega arith) (omega arith) b in
      let c : 2 * half * e ≤ 2 * x * e = mul_le_mono (2 * half) (2 * x) e (omega arith) in
      let over : ltb (2 * x * e) (2 * half * e) ≡ false = ground arith in
      let next : rounded half (suc f) (2 * x * e) e ≡ 2 * rounded half f (2 * x * e) (2 * e) =
        rw (over, rounded) refl in
      rw (same, next, ← double_mul x e)
        (ap (λ y. 2 * y) (rounded-rounded half f n (2 * d) (2 * e) q (omega arith) (omega arith)))
]
