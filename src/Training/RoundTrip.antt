-- ===== src/Training/RoundTrip.antt =====
-- Losing what was just trained restores the level.
use projeto_bruxo.Base.{ℕ, ◌+◌, ◌≤◌, ◌<◌, ◌≡◌, Bool, false, arith, u16_mod, u32_mod, u64_mod}
use projeto_bruxo.Training.{
  Counter, Env, add_skill_advance, remove_skill_tries, add_mana_spent, remove_mana_spent,
}
use projeto_bruxo.Training.Rank.{
  spent, spent_mono, IsCurve, InRank, rank_unique, rank_mono, below_top,
}
use projeto_bruxo.Training.Advance.{Reaches, add_skill_advance-Reaches, add_mana_spent-Reaches}
use projeto_bruxo.Training.Fall.{remove_skill_tries-Reaches}
use projeto_bruxo.Training.Drain.{remove_mana_spent-Reaches}

Reaches-unique :
    (req : ℕ → ℕ) (s q : Counter) (total : ℕ)
    → InRank req s.level s.tries
    → Reaches req total q
    → total ≡ spent req s.level + s.tries
    → (q.level ≡ s.level) × (q.tries ≡ s.tries)
Reaches-unique req s q total v r e =
    rank_unique req q.level s.level q.tries s.tries r.rank v (omega (arith, r.total_eq))

-- Removing as many tries as a skill of at least level 10 has just gained restores its level and
-- its tries, if these were fewer than the next level takes, and the new total is below that of a
-- level up to which levels take ever more tries and counters fit an int32_t.
pub remove_skill_tries-add_skill_advance :
    (env : Env) (req : ℕ → ℕ) (top count : ℕ) (notify : Bool) (s : Counter)
    → IsCurve u16_mod req top
    → ((l : ℕ) → l ≤ top + 1 → req l < 2147483648)
    → InRank req s.level s.tries
    → 10 ≤ s.level
    → spent req s.level + s.tries + env.on_gain_skill_tries count < spent req top
    → let q =
        remove_skill_tries env req
          (env.on_gain_skill_tries count)
          notify
          (add_skill_advance env req count s) in
      (q.level ≡ s.level) × (q.tries ≡ s.tries)
remove_skill_tries-add_skill_advance env req top count notify s c m v l h =
    let g = add_skill_advance env req count s in
    let a = add_skill_advance-Reaches env req top count s c v h in
    let t : g.level < top = below_top req g.level top (omega (arith, a.total_eq)) in
    let k : 10 ≤ g.level =
      omega (arith, rank_mono req s.level g.level g.tries a.rank (omega (arith, a.total_eq))) in
    let z : 0 < req 11 = (let y : req 10 < req 11 = c.grows 10 (omega arith) in omega arith) in
    let r =
      remove_skill_tries-Reaches env req (env.on_gain_skill_tries count) notify g
        (record { small = λ n p. m n (omega arith) }) a.rank k z (omega (arith, c.bounded)) in
    Reaches-unique req s _ _ v r (omega (arith, a.total_eq, spent_mono req 10 s.level l))

-- Removing as much mana as a player that gains mana has just spent restores the magic level and
-- the mana spent on it, if this was less than the next level takes, and the new total is below
-- that of a level up to which levels take ever more mana and counters are 64-bit words.
pub remove_mana_spent-add_mana_spent :
    (env : Env) (req : ℕ → ℕ) (top amount : ℕ) (notify : Bool) (s : Counter)
    → IsCurve u32_mod req top
    → ((l : ℕ) → l ≤ top + 1 → req l < u64_mod)
    → env.not_gain_mana ≡ false
    → InRank req s.level s.tries
    → spent req s.level + s.tries + env.on_gain_skill_tries amount < spent req top
    → let q =
        remove_mana_spent env req
          (env.on_gain_skill_tries amount)
          notify
          (add_mana_spent env req amount s) in
      (q.level ≡ s.level) × (q.tries ≡ s.tries)
remove_mana_spent-add_mana_spent env req top amount notify s c m f v h =
    let g = add_mana_spent env req amount s in
    let a = add_mana_spent-Reaches env req top amount s c f v h in
    let t : g.level < top = below_top req g.level top (omega (arith, a.total_eq)) in
    let r =
      remove_mana_spent-Reaches env req (env.on_gain_skill_tries amount) notify g
        (λ n p. m n (omega arith)) a.rank (omega (arith, a.total_eq)) (omega (arith, c.bounded)) in
    Reaches-unique req s _ _ v r (omega (arith, a.total_eq))
