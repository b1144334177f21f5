-- ===== src/Training/Rank.antt =====
-- The level that a total of tries reaches.
use projeto_bruxo.Base.{
  ℕ, zero, suc, ◌+◌, ◌≤◌, ◌<◌, ◌≡◌, ap, inl, inr, arith, ltb, Bool-cases, u64_mod,
}

-- The tries that the levels up to one have taken.
abbrev pub spent : (ℕ → ℕ) → ℕ → ℕ
spent req zero = 0
spent req (suc l) = spent req l + req (suc l)

-- Below the level `top`, each level takes more tries than the one below; levels and tries up to it
-- are machine words.
pub record IsCurve (width : ℕ) (req : ℕ → ℕ) (top : ℕ) : Type 0 where
  pub grows : (l : ℕ) → l < top → req l < req (suc l)
  pub fits : top + 1 < width
  pub bounded : spent req top + req (suc top) < u64_mod

-- Fewer tries than the next level takes.
pub record InRank (req : ℕ → ℕ) (level tries : ℕ) : Type 0 where
  pub short : tries < req (suc level)

pub spent_mono : (req : ℕ → ℕ) (l n : ℕ) → l ≤ n → spent req l ≤ spent req n
spent_mono req l zero h = ground arith
spent_mono req l (suc n) h = elim (Bool-cases (ltb l (suc n))) [
  | inl below ↦ omega (arith, spent_mono req l n (ground arith))
  | inr same ↦ let e : l ≡ suc n = ground arith in rw e (omega arith)
]

spent_above : (req : ℕ → ℕ) (l n : ℕ) → l < n → spent req l + req (suc l) ≤ spent req n
spent_above req l n h = spent_mono req (suc l) n h

-- Totals below that of a level reach only levels below.
pub below_top : (req : ℕ → ℕ) (l top : ℕ) → spent req l < spent req top → l < top
below_top req l top h = elim (Bool-cases (ltb l top)) [
  | inl y ↦ ground arith
  | inr n ↦ absurd (omega (arith, spent_mono req top l (ground arith)))
]

pub req_bounded :
    {width : ℕ} (req : ℕ → ℕ) (l top : ℕ)
    → IsCurve width req top
    → l < top
    → spent req l + req (suc l) < u64_mod
req_bounded req l top c h = omega (arith, spent_above req l top h, c.bounded)

-- A total determines the level and the tries on it.
pub rank_unique :
    (req : ℕ → ℕ) (l n a b : ℕ)
    → InRank req l a
    → InRank req n b
    → spent req l + a ≡ spent req n + b
    → (l ≡ n) × (a ≡ b)
rank_unique req l n a b v w e = elim (Bool-cases (ltb l n)) [
  | inl y ↦ absurd (omega (arith, spent_above req l n (ground arith), v.short))
  | inr x ↦ elim (Bool-cases (ltb n l)) [
    | inl y ↦ absurd (omega (arith, spent_above req n l (ground arith), w.short))
    | inr z ↦ let same : l ≡ n = ground arith in (same, omega (arith, ap (spent req) same))
  ]
]

-- A larger total reaches no lower level.
pub rank_mono : (req : ℕ → ℕ) (l n b : ℕ) → InRank req n b → spent req l ≤ spent req n + b → l ≤ n
rank_mono req l n b w h = elim (Bool-cases (ltb n l)) [
  | inl y ↦ absurd (omega (arith, spent_above req n l (ground arith), w.short))
  | inr x ↦ ground arith
]
