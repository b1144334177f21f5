-- ===== src/Progress/Level.antt =====
-- The level that an experience total reaches, on the curve of `Player::getExpForLevel`.
use projeto_bruxo.Base.{
  ℕ, ◌+◌, ◌%◌, ◌≤◌, ◌<◌, ◌≡◌, ap, false, inl, inr, arith, leb, ltb, Bool-cases, u32_mod,
}
use projeto_bruxo.Progress.Curve.{
  get_exp_for_level, top_level, exp_for_level_grows, get_exp_for_level_top,
}

-- The level is the one that the experience reaches.
pub record InLevel (level experience : ℕ) : Type 0 where
  pub positive : 0 < level
  pub below_top : level < top_level
  pub reached : get_exp_for_level level ≤ experience
  pub short : experience < get_exp_for_level (level + 1)

-- Below the top level the next level costs more.
pub next_above :
    (lv : ℕ) → 0 < lv → lv < top_level → get_exp_for_level lv + 100 ≤ get_exp_for_level (lv + 1)
next_above lv p h = omega (arith, exp_for_level_grows lv (lv + 1))

-- Experience below the top reaches only levels below the top.
pub below_of_reached :
    (lv e : ℕ)
    → 0 < lv
    → lv ≤ top_level
    → get_exp_for_level lv ≤ e
    → e < get_exp_for_level top_level
    → lv < top_level
below_of_reached lv e p h r s = elim (Bool-cases (ltb lv top_level)) [
  | inl y ↦ ground arith
  | inr n ↦
      let same : lv ≡ top_level = ground arith in absurd (omega (arith, ap get_exp_for_level same))
]

pub level_wraps_not : (lv : ℕ) → lv < top_level → (lv + 1) % u32_mod ≡ lv + 1
level_wraps_not lv h = omega arith

pub gt→leb : (a b : ℕ) → b < a → leb a b ≡ false
gt→leb a b h = ground arith

pub top_in_range : get_exp_for_level top_level < 9223372036854775808
top_in_range = rw get_exp_for_level_top (omega arith)
