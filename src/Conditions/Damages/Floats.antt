-- ===== src/Conditions/Damages/Floats.antt =====
-- The arithmetic of `float` and `double` in `generateDamageList`, rounded to nearest, ties to even.
use projeto_bruxo.Base.{
  ℕ, zero, suc, ◌+◌, ◌-◌, ◌*◌, ◌/◌, ◌%◌, ◌^◌, Bool, false, ltb, ◌==◌, if◌then◌else◌,
}

-- Down, up, or to the even one of the two.
unfoldable pub nearest : (floor rest d : ℕ) → ℕ
nearest floor rest d =
    if ltb (2 * rest) d then floor else if ltb d (2 * rest) then floor + 1 else floor + floor % 2

-- `n / d` to the nearest whole number.
unfoldable pub half_even : (n d : ℕ) → ℕ
half_even n d = nearest (n / d) (n % d) d

-- `n / d` to the nearest number of so many binary digits: `half` is the first with all of them.
unfoldable pub rounded : (half fuel n d : ℕ) → ℕ
rounded half zero n d = half_even n d
rounded half (suc fuel) n d =
    let rest = rounded half fuel n (2 * d) in
    if ltb n (2 * half * d) then half_even n d else 2 * rest

-- A `float` has 24 binary digits and a `double` 53; 158 doublings are the most there are.
abbrev pub float_half : ℕ
float_half = 2 ^ 23

abbrev pub double_half : ℕ
double_half = 2 ^ 52

-- A whole number as a `float`.
unfoldable pub to_float : ℕ → ℕ
to_float n = rounded float_half 200 n 1

-- Quotients count in the unit of `float`, 2^-149.
abbrev pub one_unit : ℕ
one_unit = 2 ^ 149

unfoldable pub quotient : (x y : ℕ) → ℕ
quotient x y = rounded float_half 200 (x * one_unit) y

-- `std::fabs(1.0 - x)`, of doubles
unfoldable pub gap : ℕ → ℕ
gap x = rounded double_half 200 ((one_unit - x) + (x - one_unit)) 1

-- The comparison at the end of a pass, `x1 < x2`: whether one more `i` brings `sum` nearer to `med`. Where
-- `med` is 0 both are infinite.
unfoldable pub nearer : (sum i med : ℕ) → Bool
nearer sum i med =
    if med == 0
    then false
    else ltb (gap (quotient (to_float (to_float sum + to_float i)) (to_float med)))
        (gap (quotient (to_float sum) (to_float med)))
