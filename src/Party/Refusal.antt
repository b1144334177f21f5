-- ===== src/Party/Refusal.antt =====
-- `Party::leaveParty` where a script refuses that the party disbands.
use projeto_bruxo.Base.{ℕ, ◌≡◌, refl, ◌∙◌, Bool, true, false, none, some, List, [], ◌==◌, arith}
use projeto_bruxo.Party.Shared.{Env, Party}
use projeto_bruxo.Party.{
  World, leave_party, leader_departs, succeed, depart, disband, put_party, set_party,
}
use projeto_bruxo.Party.Leaving.{remains, remains-SameLists}

disband-refused :
    (env : Env) (pid : ℕ) (p : Party) (w : World)
    → env.on_disband pid ≡ false
    → disband env pid p w ≡ w
unfolding disband
disband-refused env pid p w d = rw d refl

succeed-empty :
    (env : Env) (pid : ℕ) (p : Party) (ms : List ℕ) (w : World)
    → ms ≡ []
    → succeed env pid p ms w ≡ none
unfolding succeed
succeed-empty env pid p ms w e = rw e refl

leaver_alone :
    (env : Env) (pid : ℕ) (p : Party) (x : ℕ) (w : World)
    → p.members ≡ []
    → leader_departs env pid p x w ≡ depart env pid p true x w
unfolding leader_departs
leaver_alone env pid p x w m = rw (succeed-empty env pid p p.members w m, leader_departs) refl

departs_alone :
    (env : Env) (pid : ℕ) (p : Party) (x : ℕ) (w : World)
    → env.on_disband pid ≡ false
    → depart env pid p true x w ≡ put_party pid (some (remains env p x)) (set_party x none w)
unfolding depart
departs_alone env pid p x w d = disband-refused env pid (remains env p x) _ d

leaves_alone :
    (env : Env) (pid : ℕ) (p : Party) (x : ℕ) (force : Bool) (w : World)
    → env.on_leave ≡ true
    → (p.leader == x) ≡ true
    → leave_party env pid p x force w ≡ (leader_departs env pid p x w, true)
unfolding leave_party
leaves_alone env pid p x force w l e = ground arith

-- If a script refuses to disband the party of a leader who leaves it alone, the leader is out of a
-- party that still names it as leader.
pub refused_disband :
    (env : Env) (pid : ℕ) (p : Party) (x : ℕ) (force : Bool) (w : World)
    → env.on_disband pid ≡ false
    → env.on_leave ≡ true
    → p.leader ≡ x
    → p.members ≡ []
    → let w' = (leave_party env pid p x force w).0 in
      (w'.party_of x ≡ none) × ((r : Party) × (w'.parties pid ≡ some r) × (r.leader ≡ x))
unfolding put_party set_party
refused_disband env pid p x force w d l e m =
    rw
      (
        leaves_alone env pid p x force w l (ground arith),
        leaver_alone env pid p x w m,
        departs_alone env pid p x w d,
      )
      (ground arith, (remains env p x, ground arith, (remains-SameLists env p x).leader ∙ e))
