-- ===== src/Progress/Curve.antt =====
-- The experience curve: `Player::getExpForLevel` of player.h, in wrapping 64-bit arithmetic.
use Prim.Native.Nat.add
use native.Mathlib.Decide.{dec_lt}
use projeto_bruxo.Base.{
  ℕ, zero, suc, ◌+◌, ◌-◌, ◌*◌, ◌/◌, ◌≤◌, ◌<◌, ◌≡◌, refl, ap, arith, add64, sub64, mul64, add64_lem,
  sub64_lem, mul64_lem,
}

unfoldable pub get_exp_for_level : ℕ → ℕ
unfolding add64 sub64 mul64
get_exp_for_level lv = mul64 (sub64 (mul64 (add64 (mul64 (sub64 lv 6) lv) 17) lv) 12 / 6) 100

-- Up to this level the curve stays below 2 ^ 63.
abbrev pub top_level : ℕ
top_level = 800000

-- What it takes to climb from level `n + 1` to the next one, in hundreds of points: 1, 1, 2, 4, 7, …
unfoldable pub cost : ℕ → ℕ
cost zero = 1
cost (suc n) = cost n + n

-- The points of level `n + 1`, in hundreds.
unfoldable pub hundreds : ℕ → ℕ
hundreds zero = 0
hundreds (suc n) = hundreds n + cost n

cost_closed : (n : ℕ) → 2 * cost n + n ≡ n * n + 2
unfolding cost
cost_closed zero = omega arith
cost_closed (suc n) = omega (arith, cost_closed n)

hundreds_closed : (n : ℕ) → 6 * hundreds n + 3 * (n * n) ≡ n * n * n + 8 * n
unfolding hundreds
hundreds_closed zero = omega arith
hundreds_closed (suc n) = omega (arith, hundreds_closed n, cost_closed n)

pub cost_pos : (n : ℕ) → 0 < cost n
unfolding cost
cost_pos zero = omega arith
cost_pos (suc n) = omega (arith, cost_pos n)

curve_runs : get_exp_for_level 8 ≡ 4200
unfolding get_exp_for_level
curve_runs = refl

-- No step of the computation wraps above level 5.
unwrapped :
    (k : ℕ)
    → k < top_level
    → get_exp_for_level (k + 6) ≡ (((k * (k + 6) + 17) * (k + 6) - 12) / 6) * 100
unfolding get_exp_for_level
unwrapped k h =
    let p : k * (k + 6) ≤ 800000 * 800006 = grind arith in
    let q : (k * (k + 6) + 17) * (k + 6) ≤ (800000 * 800006 + 17) * 800006 = grind arith in
    let e : sub64 (k + 6) 6 ≡ k = omega (arith, sub64_lem (k + 6) 6) in
    rw (e, mul64_lem k (k + 6) (omega arith), add64_lem (k * (k + 6)) 17 (omega arith))
      (omega (arith, q))

from_six : (k : ℕ) → k < top_level → get_exp_for_level (k + 6) ≡ 100 * hundreds (k + 5)
from_six k h = omega (arith, unwrapped k h, hundreds_closed (k + 5))

above_five :
    (k n lv : ℕ) → k < top_level → n ≡ k + 5 → lv ≡ k + 6 → get_exp_for_level lv ≡ 100 * hundreds n
above_five k n lv h e e' = cc (from_six k h)

-- `getExpForLevel` loses nothing to wrap-around or to the division by 6: up to level 800000 it is
-- a hundred times the sum of the costs of the levels below.
pub exp_for_level_sum : (n : ℕ) → n < top_level → get_exp_for_level (suc n) ≡ 100 * hundreds n
unfolding get_exp_for_level hundreds cost
exp_for_level_sum zero h = refl
exp_for_level_sum (suc zero) h = refl
exp_for_level_sum (suc (suc zero)) h = refl
exp_for_level_sum (suc (suc (suc zero))) h = refl
exp_for_level_sum (suc (suc (suc (suc zero)))) h = refl
exp_for_level_sum (suc (suc (suc (suc (suc k))))) h =
    above_five k (suc (suc (suc (suc (suc k))))) _ (omega arith) (omega arith) (omega arith)

hundreds-suc : (n : ℕ) → hundreds n + 1 ≤ hundreds (suc n)
unfolding hundreds
hundreds-suc n = omega (arith, cost_pos n)

hundreds-add : (n k : ℕ) → hundreds n + k ≤ hundreds (k + n)
hundreds-add n zero = omega (arith, ap hundreds (add.zero n))
hundreds-add n (suc k) =
    omega (arith, hundreds-suc (k + n), hundreds-add n k, ap hundreds (add.suc k n))

pub get_exp_for_level_one : get_exp_for_level 1 ≡ 0
unfolding get_exp_for_level
get_exp_for_level_one = refl

pub get_exp_for_level_top : get_exp_for_level top_level ≡ 8533269333559999800
unfolding get_exp_for_level
get_exp_for_level_top = refl

-- From level 1 up to level 800000 each level takes at least a hundred points more than the one
-- below.
pub exp_for_level_grows :
    (a b : ℕ)
    → 0 < a
    → a ≤ b
    → b ≤ top_level
    → get_exp_for_level a + 100 * (b - a) ≤ get_exp_for_level b
exp_for_level_grows zero b p h k = absurd (omega arith)
exp_for_level_grows (suc a) zero p h k = absurd (omega arith)
exp_for_level_grows (suc a) (suc b) p h k =
    let e : b - a + a ≡ b = omega arith in
    omega (
      arith,
      exp_for_level_sum a (omega arith),
      exp_for_level_sum b k,
      hundreds-add a (b - a),
      ap hundreds e,
    )

-- Every point total below that of the top level lies in one level.
pub level_unique :
    (a b e : ℕ)
    → 0 < a
    → 0 < b
    → a < top_level
    → b < top_level
    → get_exp_for_level a ≤ e
    → e < get_exp_for_level (a + 1)
    → get_exp_for_level b ≤ e
    → e < get_exp_for_level (b + 1)
    → a ≡ b
level_unique a b e p q h k la ua lb ub = elim (dec_lt a b) [
  | yes l ↦ absurd (omega (arith, exp_for_level_grows (a + 1) b))
  | no l ↦ elim (dec_lt b a) [
    | yes m ↦ absurd (omega (arith, exp_for_level_grows (b + 1) a))
    | no m ↦ omega arith
  ]
]
