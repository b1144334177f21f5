-- ===== src/Progress/Gain.antt =====
-- `addExperience` of player.cpp: the level follows the experience up.
use projeto_bruxo.Base.{
  ℕ, zero, suc, ◌+◌, ◌*◌, ◌%◌, ◌≤◌, ◌<◌, ◌≡◌, refl, ap, ◌∙◌, true, false, inl, inr, arith, leb,
  Bool-cases, u32_mod, ◌==◌, add64, add64_lem,
}
use projeto_bruxo.Progress.Curve.{get_exp_for_level, top_level}
use projeto_bruxo.Progress.Level.{
  InLevel, next_above, below_of_reached, level_wraps_not, gt→leb, top_in_range,
}
use projeto_bruxo.Progress.{
  Vocation, Player, Env, Climb, climb, round, add_experience, level_up, settle_gain,
}

pub record OnCurve (c : Climb) : Type 0 where
  pub positive : 0 < c.player.level
  pub below_top : c.player.level < top_level
  pub reached : get_exp_for_level c.player.level ≤ c.player.experience
  pub in_range : c.player.experience < get_exp_for_level top_level
  pub curr_eq : c.curr ≡ get_exp_for_level c.player.level
  pub next_eq : c.next ≡ get_exp_for_level (c.player.level + 1)

pub climb_stay :
    (fuel : ℕ) (voc : Vocation) (c : Climb)
    → leb c.next c.player.experience ≡ false
    → climb (suc fuel) voc c ≡ c
unfolding climb
climb_stay fuel voc c h = rw (h, climb)

pub climb_up :
    (fuel : ℕ) (voc : Vocation) (c : Climb)
    → leb c.next c.player.experience ≡ true
    → leb (round voc c).next (round voc c).curr ≡ false
    → climb (suc fuel) voc c ≡ climb fuel voc (round voc c)
unfolding climb
climb_up fuel voc c h k = rw (h, k, climb)

pub round-OnCurve :
    (voc : Vocation) (c : Climb)
    → OnCurve c
    → c.next ≤ c.player.experience
    → OnCurve (round voc c)
      × ((round voc c).curr < (round voc c).next)
      × ((round voc c).player.experience ≡ c.player.experience)
      × (get_exp_for_level c.player.level + 100 ≤ get_exp_for_level (round voc c).player.level)
unfolding round level_up
round-OnCurve voc c v h =
    let up : (c.player.level + 1) % u32_mod ≡ c.player.level + 1 =
      level_wraps_not c.player.level v.below_top in
    let low : c.player.level + 1 < top_level =
      below_of_reached (c.player.level + 1) c.player.experience (omega arith)
        (omega (arith, v.below_top)) (omega (arith, v.next_eq)) v.in_range in
    let up' : (c.player.level + 1 + 1) % u32_mod ≡ c.player.level + 1 + 1 =
      level_wraps_not (c.player.level + 1) low in
    rw (up, up')
      (
        record {
          positive = omega arith;
          below_top = low;
          reached = omega (arith, v.next_eq);
          in_range = v.in_range;
          curr_eq = v.next_eq;
          next_eq = refl;
        },
        omega (arith, v.next_eq, next_above (c.player.level + 1)),
        refl,
        next_above c.player.level v.positive v.below_top,
      )

record Settled (e : ℕ) (d : Climb) : Type 0 where
  in_level : InLevel d.player.level d.player.experience
  same : d.player.experience ≡ e
  curr_eq : d.curr ≡ get_exp_for_level d.player.level
  next_eq : d.next ≡ get_exp_for_level (d.player.level + 1)

climb-Settled :
    (fuel : ℕ) (voc : Vocation) (e : ℕ) (c : Climb)
    → OnCurve c
    → c.player.experience ≡ e
    → e < get_exp_for_level c.player.level + 100 * fuel
    → Settled e (climb fuel voc c)
unfolding climb
climb-Settled zero voc e c v s h = absurd (omega (arith, v.reached))
climb-Settled (suc fuel) voc e c v s h = elim (Bool-cases (leb c.next c.player.experience)) [
  | inl up ↦
      let (v', grows, same, step) = round-OnCurve voc c v (ground arith) in
      let open_end : leb (round voc c).next (round voc c).curr ≡ false = ground arith in
      rw (climb_up fuel voc c up open_end)
        (climb-Settled fuel voc e (round voc c) v' (same ∙ s) (omega arith))
  | inr stay ↦ rw (climb_stay fuel voc c stay) (record {
    in_level = record {
      positive = v.positive;
      below_top = v.below_top;
      reached = v.reached;
      short = ground (arith, v.next_eq);
    };
    same = s;
    curr_eq = v.curr_eq;
    next_eq = v.next_eq;
  })
]

level-settle_gain :
    (env : Env) (voc : Vocation) (prev : ℕ) (c : Climb)
    → ((settle_gain env voc prev c).level ≡ c.player.level)
      × ((settle_gain env voc prev c).experience ≡ c.player.experience)
unfolding settle_gain
level-settle_gain env voc prev c = ground arith

-- The loop starts on the curve.
pub start-OnCurve :
    (e : ℕ) (p : Player)
    → InLevel p.level p.experience
    → p.experience ≤ e
    → e < get_exp_for_level top_level
    → OnCurve (record {
      player = record p { experience = e };
      curr = get_exp_for_level p.level;
      next = get_exp_for_level ((p.level + 1) % u32_mod);
    })
start-OnCurve e p v h k = record {
  positive = v.positive;
  below_top = v.below_top;
  reached = omega (arith, v.reached);
  in_range = k;
  curr_eq = refl;
  next_eq = ap get_exp_for_level (level_wraps_not p.level v.below_top);
}

-- What the loop makes of a player whose experience has just grown to `e`.
gain-Settled :
    (voc : Vocation) (e : ℕ) (p : Player)
    → InLevel p.level p.experience
    → p.experience ≤ e
    → e < get_exp_for_level top_level
    → Settled e (
        climb (suc e) voc (record {
          player = record p { experience = e };
          curr = get_exp_for_level p.level;
          next = get_exp_for_level ((p.level + 1) % u32_mod);
        }))
gain-Settled voc e p v h k =
    climb-Settled (suc e) voc e _ (start-OnCurve e p v h k) refl (omega arith)

pub next_costs_more :
    (lv : ℕ) {e : ℕ}
    → InLevel lv e
    → leb (get_exp_for_level ((lv + 1) % u32_mod)) (get_exp_for_level lv) ≡ false
next_costs_more lv v =
    rw (level_wraps_not lv v.below_top)
      (gt→leb _ _ (omega (arith, next_above lv v.positive v.below_top)))

pub gain_sum :
    (env : Env) (exp : ℕ) (p : Player)
    → p.experience + env.on_gain_experience exp < get_exp_for_level top_level
    → add64 p.experience (env.on_gain_experience exp) ≡ p.experience + env.on_gain_experience exp
gain_sum env exp p h = add64_lem _ _ (omega (arith, top_in_range))

settle_gain-InLevel :
    (env : Env) (voc : Vocation) (prev e : ℕ) (c : Climb)
    → Settled e c
    → let q = settle_gain env voc prev c in InLevel q.level q.experience × (q.experience ≡ e)
settle_gain-InLevel env voc prev e c s =
    let (l, x) = level-settle_gain env voc prev c in rw (l, x) (s.in_level, s.same)

-- Whatever is gained, the level after `addExperience` is the one that the new experience reaches,
-- if it was so before and the new experience stays below that of level 800000.
pub add_experience-InLevel :
    (env : Env) (voc : Vocation) (exp : ℕ) (p : Player)
    → InLevel p.level p.experience
    → p.experience + env.on_gain_experience exp < get_exp_for_level top_level
    → let q = add_experience env voc exp p in
      InLevel q.level q.experience × (q.experience ≡ p.experience + env.on_gain_experience exp)
unfolding add_experience
add_experience-InLevel env voc exp p v h = elim (Bool-cases (env.on_gain_experience exp == 0)) [
  | inl nothing ↦ rw (next_costs_more p.level v, nothing) (v, ground arith)
  | inr some_gain ↦
      rw (next_costs_more p.level v, some_gain, gain_sum env exp p h)
        (settle_gain-InLevel env voc p.level _ _
          (gain-Settled voc (p.experience + env.on_gain_experience exp) p v (omega arith) h))
]
