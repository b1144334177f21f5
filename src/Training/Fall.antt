-- ===== src/Training/Fall.antt =====
-- `Player::removeSkillTries` takes tries away from the total.
use projeto_bruxo.Base.{
  ℕ, zero, suc, ◌+◌, ◌-◌, ◌/◌, ◌%◌, ◌≤◌, ◌<◌, ◌≡◌, refl, ap, inl, inr, Bool, arith, ltb, leb,
  Bool-cases, u64_mod, sub64_lem, max,
}
use projeto_bruxo.Training.{
  Counter, Env, Rest, skill_down, fall_skill, floor_cast32, notify_loss, remove_skill_tries,
  minimum_skill_level,
}
use projeto_bruxo.Progress.{get_basis_point_level}
use projeto_bruxo.Training.Rank.{spent, InRank, spent_mono}
use projeto_bruxo.Training.Advance.{Reaches}

-- Counters of tries that an `int32_t` can hold.
pub record IsSmall (req : ℕ → ℕ) (level : ℕ) : Type 0 where
  pub small : (l : ℕ) → l ≤ level + 1 → req l < 2147483648

pub notify_loss-same :
    (notify : Bool) (old s : Counter)
    → ((notify_loss notify old s).level ≡ s.level) × ((notify_loss notify old s).tries ≡ s.tries)
unfolding notify_loss
notify_loss-same notify old s = ground arith

floor_cast32_lem : (a b : ℕ) → a < 2147483648 → b ≤ a → floor_cast32 a b ≡ a - b
unfolding floor_cast32
floor_cast32_lem a b h k = ground (arith, sub64_lem a b (omega arith) k)

-- What the loop of a skill ends in, when `cost` is to be taken from `total`: no more is left to
-- remove than there are tries on the level.
record IsDone (req : ℕ → ℕ) (total cost : ℕ) (r : Rest) : Type 0 where
  above : 10 ≤ r.level
  small : r.tries < 2147483648
  enough : r.count ≤ r.tries
  rank : r.tries < req (suc r.level) + r.count
  total_eq : spent req r.level + r.tries ≡ max (spent req 10) (total - cost) + r.count

-- What holds between two rounds.
pub record IsOwed (bound : ℕ) (req : ℕ → ℕ) (total cost : ℕ) (r : Rest) : Type 0 where
  pub fits : r.count < u64_mod
  pub small : (l : ℕ) → l ≤ r.level + 1 → req l < bound
  pub rank : r.tries < req (suc r.level) + r.count
  pub held : r.tries ≤ req (suc r.level)
  pub balance : spent req r.level + r.tries + cost ≡ total + r.count

one_less :
    (req : ℕ → ℕ) (l : ℕ) → 0 < l → (suc (l - 1) ≡ l) × (spent req l ≡ spent req (l - 1) + req l)
one_less req zero h = absurd (omega arith)
one_less req (suc l) h = let e : suc l - 1 ≡ l = omega arith in rw e (refl, refl)

pub skill_down-IsOwed :
    (bound : ℕ) (req : ℕ → ℕ) (total cost : ℕ) (r : Rest)
    → IsOwed bound req total cost r
    → 0 < r.level
    → r.tries < r.count
    → IsOwed bound req total cost (skill_down req r)
unfolding skill_down
skill_down-IsOwed bound req total cost r v l h =
    let (e, f) = one_less req r.level l in
    let g = sub64_lem r.count r.tries v.fits (omega arith) in
    record {
      fits = rw g (omega (arith, v.fits));
      small = λ n k. v.small n (omega arith);
      rank = rw (g, e) (omega arith);
      held = rw e (omega arith);
      balance = rw g (omega (arith, v.balance, f));
    }

stay-IsDone :
    (req : ℕ → ℕ) (total cost : ℕ) (r : Rest)
    → IsOwed 2147483648 req total cost r
    → 10 ≤ r.level
    → r.count ≤ r.tries
    → IsDone req total cost r
stay-IsDone req total cost r v l h = record {
  above = l;
  small = omega (arith, v.small (suc r.level) (omega arith), v.held);
  enough = h;
  rank = v.rank;
  total_eq = omega (arith, v.balance, spent_mono req 10 r.level l);
}

pub level-skill_down : (req : ℕ → ℕ) (r : Rest) → (skill_down req r).level ≡ r.level - 1
unfolding skill_down
level-skill_down req r = refl

bottom :
    (req : ℕ → ℕ) (total cost : ℕ) (r : Rest)
    → IsOwed 2147483648 req total cost r
    → r.level ≡ 10
    → r.tries < r.count
    → spent req 10 + 0 ≡ max (spent req 10) (total - cost) + 0
bottom req total cost r v e h = omega (arith, v.balance, ap (spent req) e)

fall_skill-IsDone :
    (req : ℕ → ℕ) (total cost fuel : ℕ) (r : Rest)
    → IsOwed 2147483648 req total cost r
    → 0 < req 11
    → 10 ≤ r.level
    → r.level < fuel
    → IsDone req total cost (fall_skill fuel req r)
unfolding fall_skill
fall_skill-IsDone req total cost zero r v z l f = absurd (omega arith)
fall_skill-IsDone req total cost (suc fuel) r v z l f = elim (Bool-cases (ltb r.tries r.count)) [
  | inr n ↦ rw (n, fall_skill) (stay-IsDone req total cost r v l (ground arith))
  | inl y ↦ elim (Bool-cases (leb r.level minimum_skill_level)) [
    | inl low ↦
        rw (y, low, fall_skill)
          (record {
            above = omega arith;
            small = omega arith;
            enough = omega arith;
            rank = omega arith;
            total_eq = bottom req total cost r v (ground arith) (ground arith);
          })
    | inr high ↦
        rw (y, high, fall_skill)
          (fall_skill-IsDone req total cost fuel (skill_down req r)
            (skill_down-IsOwed 2147483648 req total cost r v (omega arith) (ground arith)) z
            (ground (arith, level-skill_down req r)) (ground (arith, level-skill_down req r)))
  ]
]

-- From level 10 on, removeSkillTries takes the tries off the total of a skill and stops at the
-- lowest level of a skill, if the tries on the level are fewer than the next one takes, the
-- requirements up to the next level fit an int32_t, and level 11 takes some tries.
pub remove_skill_tries-Reaches :
    (env : Env) (req : ℕ → ℕ) (count : ℕ) (notify : Bool) (s : Counter)
    → IsSmall req s.level
    → InRank req s.level s.tries
    → 10 ≤ s.level
    → 0 < req 11
    → count < u64_mod
    → Reaches req
        (max (spent req 10) (spent req s.level + s.tries - count))
        (remove_skill_tries env req count notify s)
unfolding remove_skill_tries
remove_skill_tries-Reaches env req count notify s m v l z w =
    let first : Rest = record { level = s.level; tries = s.tries; count = count } in
    let d : IsDone req (spent req s.level + s.tries) count (fall_skill (suc s.level) req first) =
      fall_skill-IsDone req _ count (suc s.level) first
        (record {
          fits = w;
          small = m.small;
          rank = omega (arith, v.short);
          held = omega (arith, v.short);
          balance = refl;
        })
        z l (omega arith) in
    let r = fall_skill (suc s.level) req first in
    let f = floor_cast32_lem r.tries r.count d.small d.enough in
    let q : Counter = record {
      level = r.level;
      tries = floor_cast32 r.tries r.count;
      percent =
          get_basis_point_level env.scaled_quotient (floor_cast32 r.tries r.count) (req r.level)
          / 100
          % 256;
      events = s.events;
    } in
    let (e, g) = notify_loss-same notify s q in
    record {
      rank = rw (e, g, f) (record { short = omega (arith, d.rank, d.enough) });
      total_eq = rw (e, g, f) (omega (arith, d.total_eq, d.enough));
    }
