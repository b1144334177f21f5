-- ===== src/Party/Leaving.antt =====
-- `Party::leaveParty` and `Party::passPartyLeadership` keep the heap consistent.
use projeto_bruxo.Base.{
  ℕ, ◌≢◌, ◌≡◌, refl, Bool, true, false, not, ◌&&◌, ◌||◌, none, some, List, [], ◌∷◌, ◌==◌, arith,
  Bool-cases, Option-cases, if_cases, inl, inr,
}
use projeto_bruxo.Party.Shared.{
  Env, Party, SameLists, SameLists-trans, clear_player_points-SameLists,
  update_shared_experience-SameLists, update_shared_experience, clear_player_points,
}
use projeto_bruxo.Party.{
  World, points, empty, set_party, leave_party, pass_party_leadership, succeed, depart,
  leader_departs,
}
use projeto_bruxo.Party.Invariant.{belongs, IsConsistent, belongs-SameLists}
use projeto_bruxo.Party.Disband.{disband-IsConsistent}
use projeto_bruxo.Party.Fits.{
  Fits, Fits-IsConsistent, Fits-SameLists, departed, departed-Fits, departed-Covers, passed,
  passed-Fits,
}

-- The party that `depart` writes back.
abbrev pub remains : Env → Party → ℕ → Party
remains env p x = clear_player_points env x (update_shared_experience env (departed p x))

pub remains-SameLists : (env : Env) (p : Party) (x : ℕ) → SameLists (departed p x) (remains env p x)
remains-SameLists env p x =
    SameLists-trans (update_shared_experience-SameLists env (departed p x))
      (clear_player_points-SameLists env x (update_shared_experience env (departed p x)))

-- Whoever leaves, the heap is consistent after; a party that loses its last leader is disbanded.
depart-IsConsistent :
    (env : Env) (pid : ℕ) (p : Party) (missing : Bool) (x : ℕ) (w : World)
    → env.on_disband pid ≡ true
    → Fits pid p w
    → belongs (some p) x ≡ true
    → (missing || not (p.leader == x)) ≡ true
    → IsConsistent (depart env pid p missing x w)
unfolding depart
depart-IsConsistent env pid p missing x w d f b m =
    elim (Bool-cases (missing || empty (remains env p x))) [
      | inl gone ↦ rw gone (
          disband-IsConsistent env pid (remains env p x) _ d
            (departed-Covers pid p (remains env p x) x w f b (remains-SameLists env p x)))
      | inr kept ↦ rw kept (
          Fits-IsConsistent pid (remains env p x) (set_party x none w)
            (Fits-SameLists pid (remains-SameLists env p x)
              (departed-Fits pid p x w f (ground arith) b))
            (ground arith))
    ]

forced_pass :
    (env : Env) (pid : ℕ) (p : Party) (x : ℕ) (w : World)
    → (p.leader == x) ≡ false
    → points (w.party_of x) pid ≡ true
    → pass_party_leadership env pid p x true w ≡ some (update_shared_experience env (passed p x))
unfolding pass_party_leadership
forced_pass env pid p x w n b = ground arith

-- The player to whom `leaveParty` passes the leadership takes it.
succeed-some :
    (env : Env) (pid : ℕ) (p : Party) (m : ℕ) (ms : List ℕ) (w : World) (q : Party)
    → (p.leader == m) ≡ false
    → points (w.party_of m) pid ≡ true
    → succeed env pid p (m ∷ ms) w ≡ some q
    → q ≡ update_shared_experience env (passed p m)
unfolding succeed
succeed-some env pid p m ms w q n b h = ground (arith, forced_pass env pid p m w n b)

succeed-none :
    (env : Env) (pid : ℕ) (p : Party) (w : World) (q : Party) → succeed env pid p [] w ≢ some q
unfolding succeed
succeed-none env pid p w q = λ h. cc

succeed-Fits :
    (env : Env) (pid : ℕ) (p : Party) (ms : List ℕ) (w : World) (q : Party)
    → Fits pid p w
    → p.members ≡ ms
    → succeed env pid p ms w ≡ some q
    → Fits pid q w × (belongs (some q) p.leader ≡ true) × ((q.leader == p.leader) ≡ false)
succeed-Fits env pid p [] w q f e h = absurd (succeed-none env pid p w q h)
succeed-Fits env pid p (m ∷ ms) w q f e h =
    let apart : (p.leader == m) ≡ false = ground (arith, f.proper.leader_apart) in
    let here : points (w.party_of m) pid ≡ true = ground (arith, f.belongs_here m) in
    let now : q ≡ update_shared_experience env (passed p m) =
      succeed-some env pid p m ms w q apart here h in
    let lists = update_shared_experience-SameLists env (passed p m) in
    rw now (
      Fits-SameLists pid lists (passed-Fits pid p m w f apart here),
      rw (belongs-SameLists p.leader lists) (ground arith),
      rw lists.leader (ground arith),
    )

leader_departs-IsConsistent :
    (env : Env) (pid : ℕ) (p : Party) (w : World)
    → env.on_disband pid ≡ true
    → Fits pid p w
    → IsConsistent (leader_departs env pid p p.leader w)
unfolding leader_departs
leader_departs-IsConsistent env pid p w d f = elim (Option-cases (succeed env pid p p.members w)) [
  | inl e ↦
      rw (e, leader_departs) (depart-IsConsistent env pid p true p.leader w d f (ground arith) refl)
  | inr (q, e) ↦
      let (g, b, n) = succeed-Fits env pid p p.members w q f refl e in
      rw (e, leader_departs) (depart-IsConsistent env pid q false p.leader w d g b (ground arith))
]

-- A player of the party, or its leader, leaves it.
pub leave_party-IsConsistent :
    (env : Env) (pid : ℕ) (p : Party) (x : ℕ) (force : Bool) (w : World)
    → env.on_disband pid ≡ true
    → Fits pid p w
    → IsConsistent w
    → IsConsistent (leave_party env pid p x force w).0
unfolding leave_party
leave_party-IsConsistent env pid p x force w d f v =
    if_cases Kept (not (points (w.party_of x) pid) && not (p.leader == x)) (λ _. v)
      λ inside.
        if_cases Kept (not force && not env.on_leave) (λ _. v)
          λ _.
            if_cases Kept (p.leader == x)
              (λ same.
                let e : x ≡ p.leader = ground arith in
                rw e (leader_departs-IsConsistent env pid p w d f))
              (λ other.
                depart-IsConsistent env pid p false x w d f (ground (arith, f.belongs_here x))
                  (ground arith))
  where
    Kept : World × Bool → Type 0
    Kept r = IsConsistent r.0
