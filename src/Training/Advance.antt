-- ===== src/Training/Advance.antt =====
-- `Player::addSkillAdvance` and `Player::addManaSpent` reach the level of the new total.
use projeto_bruxo.Base.{
  ℕ, zero, suc, ◌+◌, ◌-◌, ◌%◌, ◌≤◌, ◌<◌, ◌≡◌, refl, inl, inr, false, arith, leb, ◌==◌,
  if◌then◌else◌, Bool-cases, if_cases, u16_mod, u32_mod, u64_mod, add64, sub64, add64_lem,
  sub64_lem,
}
use projeto_bruxo.Training.{
  Counter, Env, Kind, skill, magic, Run, begin, advance_once, advance, settle, add_skill_advance,
  add_mana_spent,
}
use projeto_bruxo.Training.Rank.{spent, IsCurve, InRank, below_top, req_bounded}
use native.Mathlib.Nat.{mod-eq_of_lt}

-- The variables of the loop, between two rounds, with the total they stand for.
record OnCurve (k : Kind) (req : ℕ → ℕ) (top total : ℕ) (a : Run) : Type 0 where
  curr_eq : a.curr ≡ req a.counter.level
  next_eq : a.next ≡ req (suc a.counter.level)
  short : a.counter.tries < a.next
  total_eq : spent req a.counter.level + a.counter.tries + a.count ≡ total
  not_topped : a.is_topped ≡ false

module _ (k : Kind) (req : ℕ → ℕ) (top total : ℕ) (c : IsCurve k.width req top)
    (h : total < spent req top) where
  level_below : (a : Run) → OnCurve k req top total a → a.counter.level < top
  level_below a v = below_top req a.counter.level top (omega (arith, v.total_eq))

  level_fits : (l : ℕ) → l < top → (l + 1) % k.width ≡ suc l
  level_fits l p =
      rw (mod-eq_of_lt (let e : l + 1 < k.width = omega (arith, c.fits) in e)) (omega arith)

  sum_fits :
      (a : Run)
      → OnCurve k req top total a
      → add64 a.counter.tries a.count ≡ a.counter.tries + a.count
  sum_fits a v = add64_lem a.counter.tries a.count (omega (arith, v.total_eq, c.bounded))

  left_over :
      (a : Run)
      → OnCurve k req top total a
      → a.next ≤ a.counter.tries + a.count
      → sub64 a.count (sub64 a.next a.counter.tries) + a.next ≡ a.counter.tries + a.count
  left_over a v r =
      let b : a.next < u64_mod =
        omega (arith, req_bounded req a.counter.level top c (level_below a v), v.next_eq) in
      let s : a.counter.tries + a.count < u64_mod = omega (arith, v.total_eq, c.bounded) in
      rw
        (
          sub64_lem a.next a.counter.tries b (omega (arith, v.short)),
          sub64_lem a.count (a.next - a.counter.tries) (omega arith) (omega (arith, v.short)),
        )
        (omega (arith, v.short))

  -- Where the next level is reached, it is below the top.
  next_below :
      (a : Run)
      → OnCurve k req top total a
      → a.next ≤ a.counter.tries + a.count
      → suc a.counter.level < top
  next_below a v r = below_top req (suc a.counter.level) top (omega (arith, v.total_eq, v.next_eq))

  next_grows : (l : ℕ) → suc l < top → req (suc l) < req (((l + 1) % k.width + 1) % k.width)
  next_grows l b = rw (level_fits l (omega arith), level_fits (suc l) b) (c.grows (suc l) b)

  -- A round keeps the total.
  round-OnCurve :
      (a : Run)
      → OnCurve k req top total a
      → a.next ≤ a.counter.tries + a.count
      → OnCurve k req top total (advance_once k req a)
  unfolding advance_once
  round-OnCurve a v r =
      let e = level_fits a.counter.level (level_below a v) in
      let f = level_fits (suc a.counter.level) (next_below a v r) in
      record {
        curr_eq = rw e v.next_eq;
        next_eq = rw (e, f) refl;
        short = rw (e, f) (omega (arith, c.grows (suc a.counter.level) (next_below a v r)));
        total_eq = rw e (omega (arith, left_over a v r, v.total_eq, v.next_eq));
        not_topped = refl;
      }

  round_uses :
      (a : Run)
      → OnCurve k req top total a
      → a.next ≤ a.counter.tries + a.count
      → (advance_once k req a).count < a.count
  unfolding advance_once
  round_uses a v r = omega (arith, left_over a v r, v.short)

  round_grows :
      (a : Run)
      → OnCurve k req top total a
      → a.next ≤ a.counter.tries + a.count
      → leb (advance_once k req a).next (advance_once k req a).curr ≡ false
  unfolding advance_once
  round_grows a v r = ground (arith, next_grows a.counter.level (next_below a v r), v.next_eq)

  -- The loop ends below the next level, at the same total.
  advance-OnCurve :
      (fuel : ℕ) (a : Run)
      → OnCurve k req top total a
      → a.count < fuel
      → let b = advance fuel k req a in
        OnCurve k req top total b × (b.counter.tries + b.count < b.next)
  unfolding advance
  advance-OnCurve zero a v f = absurd (omega arith)
  advance-OnCurve (suc fuel) a v f =
      elim (Bool-cases (leb a.next (add64 a.counter.tries a.count))) [
        | inl up ↦
            let r : a.next ≤ a.counter.tries + a.count = ground (arith, sum_fits a v) in
            rw (up, round_grows a v r, advance)
              (advance-OnCurve fuel (advance_once k req a) (round-OnCurve a v r)
                (omega (arith, round_uses a v r)))
        | inr stay ↦ rw (stay, advance) (v, ground (arith, sum_fits a v))
      ]

  settled :
      (env : Env) (a : Run)
      → OnCurve k req top total a
      → a.counter.tries + a.count < a.next
      → let q = settle env a.count a in
        InRank req q.level q.tries × (spent req q.level + q.tries ≡ total)
  unfolding settle
  settled env a v s =
      rw (sum_fits a v) (record { short = omega (arith, v.next_eq) }, omega (arith, v.total_eq))

  begin-OnCurve :
      (count : ℕ) (s : Counter)
      → InRank req s.level s.tries
      → spent req s.level + s.tries + count ≡ total
      → OnCurve k req top total (begin k req count s)
  unfolding begin
  begin-OnCurve count s v e =
      let f = level_fits s.level (below_top req s.level top (omega arith)) in
      record {
        curr_eq = refl;
        next_eq = rw f refl;
        short = rw f v.short;
        total_eq = e;
        not_topped = refl;
      }

  pub total-level_grows :
      (s : Counter)
      → spent req s.level + s.tries < spent req top
      → leb (req ((s.level + 1) % k.width)) (req s.level) ≡ false
  total-level_grows s b =
      let l : s.level < top = below_top req s.level top (omega arith) in
      rw (level_fits s.level l) (ground (arith, c.grows s.level l))

-- What the counter reaches: the level of the total.
pub record Reaches (req : ℕ → ℕ) (total : ℕ) (q : Counter) : Type 0 where
  pub rank : InRank req q.level q.tries
  pub total_eq : spent req q.level + q.tries ≡ total

settle-skill :
    (env : Env) (req : ℕ → ℕ) (top total : ℕ) (c : IsCurve u16_mod req top)
    (h : total < spent req top) (a : Run)
    → OnCurve skill req top total a × (a.counter.tries + a.count < a.next)
    → Reaches req total (settle env (if a.is_topped then 0 else a.count) a)
unfolding settle
settle-skill env req top total c h a (v, s) =
    let (r, e) = settled skill req top total c h env a v s in
    rw v.not_topped (record { rank = r; total_eq = e })

settle-magic :
    (env : Env) (req : ℕ → ℕ) (top total : ℕ) (c : IsCurve u32_mod req top)
    (h : total < spent req top) (a : Run)
    → OnCurve magic req top total a × (a.counter.tries + a.count < a.next)
    → Reaches req total (if a.is_topped then a.counter else settle env a.count a)
unfolding settle
settle-magic env req top total c h a (v, s) =
    let (r, e) = settled magic req top total c h env a v s in
    rw v.not_topped (record { rank = r; total_eq = e })

-- Whatever tries are gained, the skill is after `addSkillAdvance` at the level that the new total of
-- tries reaches, and no try is lost, if it was so before and the new total is below that of a level up
-- to which levels take ever more tries.
pub add_skill_advance-Reaches :
    (env : Env) (req : ℕ → ℕ) (top count : ℕ) (s : Counter)
    → IsCurve u16_mod req top
    → InRank req s.level s.tries
    → spent req s.level + s.tries + env.on_gain_skill_tries count < spent req top
    → Reaches req
        (spent req s.level + s.tries + env.on_gain_skill_tries count)
        (add_skill_advance env req count s)
unfolding add_skill_advance begin
add_skill_advance-Reaches env req top count s c v h =
    rw (total-level_grows skill req top _ c h s (omega arith)) (
      if_cases (Reaches req (spent req s.level + s.tries + env.on_gain_skill_tries count))
        (env.on_gain_skill_tries count == 0) (λ z. record { rank = v; total_eq = ground arith })
        (λ n. settle-skill env req top _ c h _ (
          advance-OnCurve skill req top _ c h (suc (env.on_gain_skill_tries count)) _
            (begin-OnCurve skill req top _ c h _ s v refl) (omega arith))))

-- The same for the magic level and `addManaSpent`, for a player that gains mana.
pub add_mana_spent-Reaches :
    (env : Env) (req : ℕ → ℕ) (top amount : ℕ) (s : Counter)
    → IsCurve u32_mod req top
    → env.not_gain_mana ≡ false
    → InRank req s.level s.tries
    → spent req s.level + s.tries + env.on_gain_skill_tries amount < spent req top
    → Reaches req
        (spent req s.level + s.tries + env.on_gain_skill_tries amount)
        (add_mana_spent env req amount s)
unfolding add_mana_spent begin settle
add_mana_spent-Reaches env req top amount s c g v h =
    rw (g, total-level_grows magic req top _ c h s (omega arith))
      (if_cases (Reaches req (spent req s.level + s.tries + env.on_gain_skill_tries amount))
        (env.on_gain_skill_tries amount == 0) (λ z. record { rank = v; total_eq = ground arith })
        (λ n. settle-magic env req top _ c h _ (
          advance-OnCurve magic req top _ c h (suc (env.on_gain_skill_tries amount)) _
            (begin-OnCurve magic req top _ c h _ s v refl) (omega arith))))
