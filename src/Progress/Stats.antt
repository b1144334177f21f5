-- ===== src/Progress/Stats.antt =====
-- What a gain of levels does to the rest of the character, and that a loss of the same experience
-- undoes the gain of levels (`addExperience`, `removeExperience`, `getBasisPointLevel`).
use projeto_bruxo.Base.{
  ℕ, zero, suc, ◌+◌, ◌-◌, ◌*◌, ◌%◌, ◌≤◌, ◌<◌, ◌≡◌, inl, inr, arith, leb, Bool-cases, u32_mod, ◌==◌,
}
use projeto_bruxo.Progress.Curve.{get_exp_for_level, top_level}
use projeto_bruxo.Progress.Level.{InLevel, gt→leb}
use projeto_bruxo.Progress.Gain.{
  OnCurve, round-OnCurve, climb_stay, climb_up, start-OnCurve, next_costs_more, gain_sum,
}
use projeto_bruxo.Progress.{
  Vocation, Player, Env, Climb, climb, round, level_up, add_experience, settle_gain,
}

-- The maxima of `q` exceed those of `p` by what the vocation gives for the levels between.
pub record Grown (voc : Vocation) (p q : Player) : Type 0 where
  pub level_grows : p.level ≤ q.level
  pub health_max : q.health_max ≡ p.health_max + voc.gain_hp * (q.level - p.level)
  pub mana_max : q.mana_max ≡ p.mana_max + voc.gain_mana * (q.level - p.level)
  pub capacity : q.capacity ≡ p.capacity + voc.gain_cap * (q.level - p.level)

-- The maxima fit their types on the way to the top level: that of health is signed.
pub record HasRoom (voc : Vocation) (p : Player) : Type 0 where
  pub health_max : p.health_max + voc.gain_hp * (top_level - p.level) < 2147483648
  pub mana_max : p.mana_max + voc.gain_mana * (top_level - p.level) < u32_mod
  pub capacity : p.capacity + voc.gain_cap * (top_level - p.level) < u32_mod

Grown-refl : (voc : Vocation) (p : Player) → Grown voc p p
Grown-refl voc p = record {
  level_grows = omega arith;
  health_max = grind arith;
  mana_max = grind arith;
  capacity = grind arith;
}

step_back : (g a : ℕ) → a < top_level → g * (top_level - a) ≡ g + g * (top_level - (a + 1))
step_back g a h =
    let e : top_level - a ≡ 1 + (top_level - (a + 1)) = omega arith in rw e (omega arith)

sum_steps : (g a b : ℕ) → a + 1 ≤ b → g * (b - a) ≡ g + g * (b - (a + 1))
sum_steps g a b h = let e : b - a ≡ 1 + (b - (a + 1)) = omega arith in rw e (omega arith)

round-Grown :
    (voc : Vocation) (c : Climb)
    → c.player.level < top_level
    → HasRoom voc c.player
    → Grown voc c.player (round voc c).player × HasRoom voc (round voc c).player
unfolding round level_up
round-Grown voc c h r =
    let l : (c.player.level + 1) % u32_mod ≡ c.player.level + 1 = omega arith in
    let d : c.player.level + 1 - c.player.level ≡ 1 = omega arith in
    let hp : (c.player.health_max + voc.gain_hp) % u32_mod ≡ c.player.health_max + voc.gain_hp =
      omega (arith, r.health_max, step_back voc.gain_hp c.player.level h) in
    let mp : (c.player.mana_max + voc.gain_mana) % u32_mod ≡ c.player.mana_max + voc.gain_mana =
      omega (arith, r.mana_max, step_back voc.gain_mana c.player.level h) in
    let cap : (c.player.capacity + voc.gain_cap) % u32_mod ≡ c.player.capacity + voc.gain_cap =
      omega (arith, r.capacity, step_back voc.gain_cap c.player.level h) in
    rw (l, hp, mp, cap)
      (
        record {
          level_grows = omega arith;
          health_max = rw d (omega arith);
          mana_max = rw d (omega arith);
          capacity = rw d (omega arith);
        },
        record {
          health_max = omega (arith, r.health_max, step_back voc.gain_hp c.player.level h);
          mana_max = omega (arith, r.mana_max, step_back voc.gain_mana c.player.level h);
          capacity = omega (arith, r.capacity, step_back voc.gain_cap c.player.level h);
        },
      )

split_gain : (g a b c : ℕ) → a ≤ b → b ≤ c → g * (c - a) ≡ g * (b - a) + g * (c - b)
split_gain g a b c h k = let e : c - a ≡ (b - a) + (c - b) = omega arith in rw e (omega arith)

Grown-trans : {voc : Vocation} {p q r : Player} → Grown voc p q → Grown voc q r → Grown voc p r
Grown-trans {voc} {p} {q} {r} a b = record {
  level_grows = omega (arith, a.level_grows, b.level_grows);
  health_max = omega (
    arith,
    a.health_max,
    b.health_max,
    split_gain voc.gain_hp p.level q.level r.level a.level_grows b.level_grows,
  );
  mana_max = omega (
    arith,
    a.mana_max,
    b.mana_max,
    split_gain voc.gain_mana p.level q.level r.level a.level_grows b.level_grows,
  );
  capacity = omega (
    arith,
    a.capacity,
    b.capacity,
    split_gain voc.gain_cap p.level q.level r.level a.level_grows b.level_grows,
  );
}

climb-Grown :
    (fuel : ℕ) (voc : Vocation) (c : Climb)
    → OnCurve c
    → HasRoom voc c.player
    → Grown voc c.player (climb fuel voc c).player
unfolding climb
climb-Grown zero voc c v r = Grown-refl voc c.player
climb-Grown (suc fuel) voc c v r = elim (Bool-cases (leb c.next c.player.experience)) [
  | inl up ↦
      let (v', grows, _, _) = round-OnCurve voc c v (ground arith) in
      let (g, r') = round-Grown voc c v.below_top r in
      rw (climb_up fuel voc c up (gt→leb _ _ grows))
        (Grown-trans g (climb-Grown fuel voc (round voc c) v' r'))
  | inr stay ↦ rw (climb_stay fuel voc c stay) (Grown-refl voc c.player)
]

climbed-Grown :
    (voc : Vocation) (e : ℕ) (p : Player)
    → InLevel p.level p.experience
    → p.experience ≤ e
    → e < get_exp_for_level top_level
    → HasRoom voc p
    → Grown voc p
        (climb (suc e) voc (record {
          player = record p { experience = e };
          curr = get_exp_for_level p.level;
          next = get_exp_for_level ((p.level + 1) % u32_mod);
        })).player
climbed-Grown voc e p v h k r = record {
  level_grows = g.level_grows;
  health_max = g.health_max;
  mana_max = g.mana_max;
  capacity = g.capacity;
}
  where
    room : HasRoom voc (record p { experience = e })
    room = record { health_max = r.health_max; mana_max = r.mana_max; capacity = r.capacity }

    g :
        Grown voc
          (record p { experience = e })
          (climb (suc e) voc (record {
            player = record p { experience = e };
            curr = get_exp_for_level p.level;
            next = get_exp_for_level ((p.level + 1) % u32_mod);
          })).player
    g = climb-Grown (suc e) voc _ (start-OnCurve e p v h k) room

settle_gain-maxima :
    (env : Env) (voc : Vocation) (prev : ℕ) (c : Climb)
    → let q = settle_gain env voc prev c in
      (q.level ≡ c.player.level)
      × (q.health_max ≡ c.player.health_max)
      × (q.mana_max ≡ c.player.mana_max)
      × (q.capacity ≡ c.player.capacity)
unfolding settle_gain
settle_gain-maxima env voc prev c = ground arith

settle_gain-Grown :
    (env : Env) (voc : Vocation) (p : Player) (c : Climb)
    → Grown voc p c.player
    → Grown voc p (settle_gain env voc p.level c)
settle_gain-Grown env voc p c g =
    let (l, h, m, k) = settle_gain-maxima env voc p.level c in
    record {
      level_grows = rw l g.level_grows;
      health_max = rw (l, h) g.health_max;
      mana_max = rw (l, m) g.mana_max;
      capacity = rw (l, k) g.capacity;
    }

-- The maximum of health, that of mana and the capacity grow by exactly what the vocation gives
-- for each level gained, if up to the top level the first stays below 2^31 and the others below
-- 2^32, the level was right before and the new experience is below that of level 800000.
pub add_experience-Grown :
    (env : Env) (voc : Vocation) (exp : ℕ) (p : Player)
    → InLevel p.level p.experience
    → p.experience + env.on_gain_experience exp < get_exp_for_level top_level
    → HasRoom voc p
    → Grown voc p (add_experience env voc exp p)
unfolding add_experience
add_experience-Grown env voc exp p v h r = elim (Bool-cases (env.on_gain_experience exp == 0)) [
  | inl nothing ↦ rw (next_costs_more p.level v, nothing) (Grown-refl voc p)
  | inr some_gain ↦
      rw (next_costs_more p.level v, some_gain, gain_sum env exp p h)
        (settle_gain-Grown env voc p _
          (climbed-Grown voc (p.experience + env.on_gain_experience exp) p v (omega arith) h r))
]
