-- ===== src/Training/Drain.antt =====
-- `Player::removeManaSpent` takes mana away from the total.
use projeto_bruxo.Base.{
  ℕ, zero, suc, ◌+◌, ◌-◌, ◌≤◌, ◌<◌, ◌≡◌, ◌⊎◌, refl, ap, ◌∙◌, inl, inr, true, false, ◌&&◌, arith,
  ltb, ◌==◌, Bool, Bool-cases, u64_mod, sub64, sub64_lem,
}
use projeto_bruxo.Training.{Counter, Env, Rest, skill_down, fall_mana, remove_mana_spent}
use projeto_bruxo.Training.Rank.{spent, InRank}
use projeto_bruxo.Training.Advance.{Reaches}
use projeto_bruxo.Training.Fall.{IsOwed, skill_down-IsOwed, level-skill_down, notify_loss-same}

-- The loop of `removeManaSpent` ends with no more to remove than was spent on the level, or at level 0.
fall_mana-IsOwed :
    (bound : ℕ) (req : ℕ → ℕ) (total cost fuel : ℕ) (r : Rest)
    → IsOwed bound req total cost r
    → r.level ≤ fuel
    → let q = fall_mana fuel req r in
      IsOwed bound req total cost q × ((q.count ≤ q.tries) ⊎ (q.level ≡ 0))
unfolding fall_mana
fall_mana-IsOwed bound req total cost zero r v f = (v, inr (omega arith))
fall_mana-IsOwed bound req total cost (suc fuel) r v f =
    elim (Bool-cases (ltb r.tries r.count && ltb 0 r.level)) [
      | inl y ↦
          rw (y, fall_mana)
            (fall_mana-IsOwed bound req total cost fuel (skill_down req r)
              (skill_down-IsOwed bound req total cost r v (ground arith) (ground arith))
              (ground (arith, level-skill_down req r)))
      | inr n ↦ rw (n, fall_mana) (v, ended r n)
    ]
  where
    ended :
        (r : Rest)
        → (ltb r.tries r.count && ltb 0 r.level) ≡ false
        → (r.count ≤ r.tries) ⊎ (r.level ≡ 0)
    ended r n = elim (Bool-cases (ltb r.tries r.count)) [
      | inl y ↦ inr (ground arith)
      | inr x ↦ inl (ground arith)
    ]

-- `removeManaSpent` as a whole: what is left to remove is taken off the last level, with wrap-around.
removed :
    (env : Env) (req : ℕ → ℕ) (amount : ℕ) (notify : Bool) (s : Counter)
    → (amount == 0) ≡ false
    → let r = fall_mana s.level req (record { level = s.level; tries = s.tries; count = amount }) in
      let q = remove_mana_spent env req amount notify s in
      (q.level ≡ r.level) × (q.tries ≡ sub64 r.tries r.count)
unfolding remove_mana_spent
removed env req amount notify s n = rw n (notify_loss-same notify s _)

removed_none :
    (env : Env) (req : ℕ → ℕ) (amount : ℕ) (notify : Bool) (s : Counter)
    → (amount == 0) ≡ true
    → remove_mana_spent env req amount notify s ≡ s
unfolding remove_mana_spent
removed_none env req amount notify s z = rw z refl

begin-IsOwed :
    (req : ℕ → ℕ) (amount : ℕ) (s : Counter)
    → ((l : ℕ) → l ≤ s.level + 1 → req l < u64_mod)
    → InRank req s.level s.tries
    → amount < u64_mod
    → IsOwed u64_mod req
        (spent req s.level + s.tries)
        amount
        (record { level = s.level; tries = s.tries; count = amount })
begin-IsOwed req amount s m v w = record {
  fits = w;
  small = m;
  rank = omega (arith, v.short);
  held = omega (arith, v.short);
  balance = refl;
}

-- If enough was spent, the last level covers what is left.
covered :
    (req : ℕ → ℕ) (total cost : ℕ) (r : Rest)
    → IsOwed u64_mod req total cost r
    → (r.count ≤ r.tries) ⊎ (r.level ≡ 0)
    → cost ≤ total
    → r.count ≤ r.tries
covered req total cost r o (inl y) h = y
covered req total cost r o (inr z) h = omega (arith, o.balance, ap (spent req) z)

at_bottom :
    (req : ℕ → ℕ) (total cost : ℕ) (r : Rest)
    → IsOwed u64_mod req total cost r
    → (r.count ≤ r.tries) ⊎ (r.level ≡ 0)
    → total < cost
    → r.level ≡ 0
at_bottom req total cost r o (inl y) h = absurd (omega (arith, o.balance))
at_bottom req total cost r o (inr z) h = z

last_fits :
    {req : ℕ → ℕ} {total cost : ℕ} (r : Rest)
    → IsOwed u64_mod req total cost r
    → r.count ≤ r.tries
    → sub64 r.tries r.count ≡ r.tries - r.count
last_fits r o h =
    sub64_lem r.tries r.count (omega (arith, o.held, o.small (suc r.level) (omega arith))) h

wrapped :
    (req : ℕ → ℕ) (total cost : ℕ) (r : Rest)
    → IsOwed u64_mod req total cost r
    → r.level ≡ 0
    → total < cost
    → sub64 r.tries r.count + cost ≡ total + u64_mod
unfolding sub64
wrapped req total cost r o z h = omega (arith, o.balance, o.fits, ap (spent req) z)

-- removeManaSpent takes the mana off the total, if so much has been spent, the mana on the level
-- is less than the next one takes, and all counters are 64-bit words.
pub remove_mana_spent-Reaches :
    (env : Env) (req : ℕ → ℕ) (amount : ℕ) (notify : Bool) (s : Counter)
    → ((l : ℕ) → l ≤ s.level + 1 → req l < u64_mod)
    → InRank req s.level s.tries
    → amount ≤ spent req s.level + s.tries
    → amount < u64_mod
    → Reaches req (spent req s.level + s.tries - amount) (remove_mana_spent env req amount notify s)
remove_mana_spent-Reaches env req amount notify s m v h w = elim (Bool-cases (amount == 0)) [
  | inl z ↦
      rw (removed_none env req amount notify s z) (record { rank = v; total_eq = ground arith })
  | inr n ↦
      let (e, f) = removed env req amount notify s n in
      let (o, p) =
        fall_mana-IsOwed u64_mod req (spent req s.level + s.tries) amount s.level _
          (begin-IsOwed req amount s m v w) (omega arith) in
      let r = fall_mana s.level req (record { level = s.level; tries = s.tries; count = amount }) in
      let g = last_fits r o (covered req _ amount r o p h) in
      record {
        rank =
            rw (e, f, g)
              (record { short = omega (arith, o.rank, covered req _ amount r o p h, o.held) });
        total_eq = rw (e, f, g) (omega (arith, o.balance, covered req _ amount r o p h));
      }
]

-- More mana than has ever been spent is not refused: the magic level falls to 0, and the mana
-- spent on it wraps around to 2^64 less what is missing, if the mana on the level was less than
-- the next one takes and all counters are 64-bit words.
pub remove_mana_spent-wraps :
    (env : Env) (req : ℕ → ℕ) (amount : ℕ) (notify : Bool) (s : Counter)
    → ((l : ℕ) → l ≤ s.level + 1 → req l < u64_mod)
    → InRank req s.level s.tries
    → spent req s.level + s.tries < amount
    → amount < u64_mod
    → let q = remove_mana_spent env req amount notify s in
      (q.level ≡ 0) × (q.tries + amount ≡ spent req s.level + s.tries + u64_mod)
remove_mana_spent-wraps env req amount notify s m v h w =
    let (e, f) = removed env req amount notify s (ground arith) in
    let (o, p) =
      fall_mana-IsOwed u64_mod req (spent req s.level + s.tries) amount s.level _
        (begin-IsOwed req amount s m v w) (omega arith) in
    let r = fall_mana s.level req (record { level = s.level; tries = s.tries; count = amount }) in
    let l = at_bottom req _ amount r o p h in (e ∙ l, rw f (wrapped req _ amount r o l h))
