-- ===== src/Progress/Loss.antt =====
-- `removeExperience` of player.cpp: the level follows the experience down.
use projeto_bruxo.Base.{
  ℕ, zero, suc, ◌+◌, ◌-◌, ◌≤◌, ◌<◌, ◌≡◌, refl, ◌∙◌, true, false, inl, inr, arith, ltb, Bool-cases,
  ◌==◌, if◌then◌else◌, ◌&&◌, floor_sub64, floor_sub64_lem,
}
use projeto_bruxo.Progress.Curve.{
  get_exp_for_level, top_level, exp_for_level_grows, get_exp_for_level_one,
}
use projeto_bruxo.Progress.Level.{InLevel, top_in_range}
use projeto_bruxo.Progress.{
  Vocation, Player, Env, remove_experience, level_down, settle_loss, descend,
}

level-settle_loss :
    (env : Env) (voc : Vocation) (old : ℕ) (p : Player)
    → ((settle_loss env voc old p).level ≡ p.level)
      × ((settle_loss env voc old p).experience ≡ p.experience)
unfolding settle_loss
level-settle_loss env voc old p = ground arith

level_down_lem :
    (voc : Vocation) (p : Player)
    → 0 < p.level
    → p.level < top_level
    → ((level_down voc p).level ≡ p.level - 1) × ((level_down voc p).experience ≡ p.experience)
unfolding level_down
level_down_lem voc p h t = (omega arith, refl)

descend_down :
    (fuel : ℕ) (voc : Vocation) (p : Player)
    → (ltb 1 p.level && ltb p.experience (get_exp_for_level p.level)) ≡ true
    → descend (suc fuel) voc p ≡ descend fuel voc (level_down voc p)
unfolding descend
descend_down fuel voc p h = rw (h, descend)

descend_stay :
    (fuel : ℕ) (voc : Vocation) (p : Player)
    → (ltb 1 p.level && ltb p.experience (get_exp_for_level p.level)) ≡ false
    → descend (suc fuel) voc p ≡ p
unfolding descend
descend_stay fuel voc p h = rw (h, descend)

above_one :
    (lv e : ℕ)
    → (ltb 1 lv && ltb e (get_exp_for_level lv)) ≡ true
    → (1 < lv) × (e < get_exp_for_level lv)
above_one lv e h = ground arith

stay_reached :
    (lv e : ℕ)
    → 0 < lv
    → (ltb 1 lv && ltb e (get_exp_for_level lv)) ≡ false
    → get_exp_for_level lv ≤ e
stay_reached zero e p h = absurd (omega arith)
stay_reached (suc zero) e p h = rw get_exp_for_level_one (omega arith)
stay_reached (suc (suc lv)) e p h = ground arith

descend-InLevel :
    (fuel : ℕ) (voc : Vocation) (p : Player)
    → 0 < p.level
    → p.level < top_level
    → p.level ≤ fuel
    → p.experience < get_exp_for_level (p.level + 1)
    → let q = descend fuel voc p in InLevel q.level q.experience × (q.experience ≡ p.experience)
descend-InLevel zero voc p pos top h s = absurd (omega arith)
descend-InLevel (suc fuel) voc p pos top h s =
    elim (Bool-cases (ltb 1 p.level && ltb p.experience (get_exp_for_level p.level))) [
      | inl down ↦
          let (high, e) = above_one p.level p.experience down in
          let (l, x) = level_down_lem voc p pos top in
          let up : p.level ≡ (level_down voc p).level + 1 = omega arith in
          let (v, y) =
            descend-InLevel fuel voc (level_down voc p) (omega arith) (omega arith) (omega arith)
              (rw (x, ← up) e) in
          rw (descend_down fuel voc p down) (v, y ∙ x)
      | inr stay ↦ rw (descend_stay fuel voc p stay) (
        record {
          positive = pos;
          below_top = top;
          reached = stay_reached p.level p.experience pos stay;
          short = s;
        },
        refl,
      )
    ]

-- The part of `removeExperience` after its guards.
loss-InLevel :
    (env : Env) (voc : Vocation) (lost : ℕ) (p : Player)
    → InLevel p.level p.experience
    → lost ≤ 9223372036854775808
    → let p' = record p { experience = floor_sub64 p.experience lost } in
      let q = settle_loss env voc p.level (descend p.level voc p') in
      InLevel q.level q.experience × (q.experience ≡ p.experience - lost)
loss-InLevel env voc lost p v h =
    let bound : p.experience < 9223372036854775808 =
      omega
        (arith, top_in_range, v.short, v.below_top, exp_for_level_grows (p.level + 1) top_level) in
    let less : floor_sub64 p.experience lost ≡ p.experience - lost =
      floor_sub64_lem p.experience lost bound h in
    let (w, x) =
      descend-InLevel p.level voc (record p { experience = floor_sub64 p.experience lost })
        v.positive v.below_top (omega arith) (omega (arith, v.short)) in
    let (l, y) =
      level-settle_loss env voc p.level
        (descend p.level voc (record p { experience = floor_sub64 p.experience lost })) in
    rw (l, y) (w, x ∙ less)

-- Where at most 2^63 points are lost, removeExperience ends at the level that the remaining
-- experience reaches, if the level was right before; the experience falls by the loss and stops
-- at 0, and a loss of no points is none.
pub remove_experience-InLevel :
    (env : Env) (voc : Vocation) (exp : ℕ) (p : Player)
    → InLevel p.level p.experience
    → env.on_lose_experience exp ≤ 9223372036854775808
    → let q = remove_experience env voc exp p in
      InLevel q.level q.experience
      × (q.experience
          ≡ (if exp == 0 then p.experience else p.experience - env.on_lose_experience exp))
unfolding remove_experience
remove_experience-InLevel env voc exp p v h = elim (Bool-cases (exp == 0)) [
  | inl none_asked ↦ rw none_asked (ground arith)
  | inr asked ↦ elim (Bool-cases (p.experience == 0)) [
    | inl empty ↦ rw (asked, empty) (v, ground arith)
    | inr some_left ↦ elim (Bool-cases (env.on_lose_experience exp == 0)) [
      | inl nothing ↦ rw (asked, some_left, nothing) (v, ground arith)
      | inr lost ↦
          rw (asked, some_left, lost) (loss-InLevel env voc (env.on_lose_experience exp) p v h)
    ]
  ]
]
