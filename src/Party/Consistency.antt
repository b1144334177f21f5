-- ===== src/Party/Consistency.antt =====
-- Every call on the parties, in any order, keeps the pointers consistent.
use projeto_bruxo.Base.{
  ℕ, ◌≡◌, refl, Bool, true, false, not, Option, none, some, ◌==◌, arith, if◌then◌else◌, Bool-cases,
  if_cases, inl, inr,
}
use projeto_bruxo.Party.Shared.{Env, Party}
use projeto_bruxo.Party.{
  World, empty, set_party, put_party, add_party_invitation, join_party, revoke_invitation,
  invite_player, pass_party_leadership,
}
use projeto_bruxo.Party.Invariant.{IsProper, Stands, IsConsistent, Stands-SameLists}
use projeto_bruxo.Party.Fits.{
  IsConsistent-Fits, Fits-IsConsistent, Fits-SameLists, pass_party_leadership-Fits,
}
use projeto_bruxo.Party.Calls.{clear_party_invitations}
use projeto_bruxo.Party.Joining.{join_party-IsConsistent}
use projeto_bruxo.Party.Leaving.{leave_party-IsConsistent}
use projeto_bruxo.Party.Invitations.{
  remove_invite-IsConsistent, clear_party_invitations-IsConsistent,
}
use projeto_bruxo.Party.Invariant.{invite_player-IsConsistent}
use projeto_bruxo.Party.Shared.{set_shared_experience-SameLists}
use projeto_bruxo.Party.Calls.{
  find_party, new_party, create_party, invite_into, player_invite_to_party, player_join_party,
  player_revoke_party_invitation, player_pass_party_leadership, player_leave_party,
  player_enable_shared_party_experience, log_out, Request, invites, joins, revokes, passes, leaves,
  logs_out, shares, step,
}

find_party-some :
    (w : World) (x pid : ℕ) (p : Party)
    → find_party w x ≡ some (pid, p)
    → (w.party_of x ≡ some pid) × (w.parties pid ≡ some p)
find_party-some w x pid p h = ground arith

-- A call that finds the caller's party is consistent if what it does to that party is.
with_party :
    (w : World) (v : IsConsistent w) (x : ℕ) (f : ℕ → Party → World)
    → ((pid : ℕ) (p : Party) → w.parties pid ≡ some p → Stands (some p) → IsConsistent (f pid p))
    → (o : Option (ℕ × Party)) → find_party w x ≡ o
    → IsConsistent (elim o [ none ↦ w | some (pid, p) ↦ f pid p ])
with_party w v x f h none e = v
with_party w v x f h (some (pid, p)) e =
    let at = (find_party-some w x pid p e).1 in h pid p at (rw at at (v.stands pid))

taken_back :
    (x : ℕ) (w : World)
    → IsConsistent w
    → w.party_of x ≡ none
    → IsConsistent (put_party w.next_party none (set_party x none (create_party x w)))
unfolding put_party set_party create_party
taken_back x w v o = record {
  stands =
      λ q. elim (Bool-cases (w.next_party == q)) [ inl e ↦ rw e tt | inr e ↦ rw e (v.stands q) ];
  belongs_eq = λ q y. ground (arith, v.belongs_eq q y, v.fresh q);
  invited_eq = λ q y. ground (arith, v.invited_eq q y, v.fresh q);
  fresh = λ q h. ground (arith, v.fresh q);
}

first_guest :
    (x y : ℕ) (w : World)
    → IsConsistent w
    → w.party_of x ≡ none
    → IsConsistent (invite_player w.next_party (new_party x) y (create_party x w)).0
unfolding invite_player add_party_invitation put_party create_party empty
first_guest x y w v o = record {
  stands = λ q. elim (Bool-cases (w.next_party == q)) [
    | inl e ↦
        rw e (record { leader_apart = refl; members_nodup = refl; invitees_nodup = refl }, refl)
    | inr e ↦ rw e (v.stands q)
  ];
  belongs_eq = λ q z. ground (arith, v.belongs_eq q z, v.fresh q);
  invited_eq = λ q z. ground (arith, v.invited_eq q z, v.fresh q);
  fresh = λ q h. ground (arith, v.fresh q);
}

module _ (env : Env) (d : (pid : ℕ) → env.on_disband pid ≡ true) (w : World)
    (v : IsConsistent w) where
  revoke_invitation-IsConsistent :
      (pid : ℕ) (p : Party) (y : ℕ)
      → w.parties pid ≡ some p
      → IsProper p
      → IsConsistent (revoke_invitation env pid p y w)
  unfolding revoke_invitation
  revoke_invitation-IsConsistent pid p y e g =
      if_cases IsConsistent (not env.on_revoke_invitation) (λ _. v)
        λ _. remove_invite-IsConsistent env pid p y w (d pid) (IsConsistent-Fits pid p w v e g) v

  revoke-IsConsistent : (x y : ℕ) → IsConsistent (player_revoke_party_invitation env x y w)
  unfolding player_revoke_party_invitation
  revoke-IsConsistent x y =
      with_party w v x _
        (λ pid p e s.
          if_cases IsConsistent _ (λ _. v) λ _. revoke_invitation-IsConsistent pid p y e s.0)
        (find_party w x) refl

  written :
      (pid : ℕ) (p : Party) (y : ℕ) (o : Option Party)
      → w.parties pid ≡ some p
      → Stands (some p)
      → pass_party_leadership env pid p y false w ≡ o
      → IsConsistent (elim o [ none ↦ w | some q ↦ put_party pid (some q) w ])
  unfolding empty
  written pid p y none e s h = v
  written pid p y (some q) e s h =
      let (f, lists, _) =
        pass_party_leadership-Fits env pid p y false w q (IsConsistent-Fits pid p w v e s.0) h in
      Fits-IsConsistent pid q w f (rw lists.members refl)

  pass-IsConsistent : (x y : ℕ) → IsConsistent (player_pass_party_leadership env x y w)
  unfolding player_pass_party_leadership
  pass-IsConsistent x y =
      with_party w v x _
        (λ pid p e s. if_cases IsConsistent _ (λ _. v) λ _. written pid p y _ e s refl)
        (find_party w x) refl

  leave-IsConsistent : (x : ℕ) → IsConsistent (player_leave_party env x w)
  unfolding player_leave_party
  leave-IsConsistent x =
      with_party w v x _
        (λ pid p e s.
          if_cases IsConsistent _ (λ _. v)
            λ _.
              leave_party-IsConsistent env pid p x false w (d pid)
                (IsConsistent-Fits pid p w v e s.0) v)
        (find_party w x) refl

  shares-IsConsistent :
      (x : ℕ) (active : Bool) → IsConsistent (player_enable_shared_party_experience env x active w)
  unfolding player_enable_shared_party_experience
  shares-IsConsistent x active =
      with_party w v x _
        (λ pid p e s.
          let lists = set_shared_experience-SameLists env p x active in
          if_cases IsConsistent _ (λ _. v)
            λ _.
              Fits-IsConsistent pid _ w
                (Fits-SameLists pid lists (IsConsistent-Fits pid p w v e s.0))
                (Stands-SameLists lists s).1)
        (find_party w x) refl

  join-IsConsistent : (x y : ℕ) → IsConsistent (player_join_party env x y w)
  unfolding player_join_party
  join-IsConsistent x y =
      if_cases IsConsistent _ (λ _. v)
        λ _.
          with_party w v y _
            (λ pid p e s.
              if_cases IsConsistent (not (p.leader == y)) (λ _. v)
                λ _. outside pid p (w.party_of x) e s refl)
            (find_party w y) refl
    where
      outside :
          (pid : ℕ) (p : Party) (o : Option ℕ)
          → w.parties pid ≡ some p
          → Stands (some p)
          → w.party_of x ≡ o
          → IsConsistent (elim o [ some q ↦ w | none ↦ (join_party env pid p x w).0 ])
      outside pid p none e s h = join_party-IsConsistent env pid p x w v e s h
      outside pid p (some q) e s h = v

  invite_into-IsConsistent :
      (pid : ℕ) (p : Party) (x y : ℕ)
      → w.parties pid ≡ some p
      → Stands (some p)
      → IsConsistent (invite_into env pid p x y w)
  unfolding invite_into
  invite_into-IsConsistent pid p x y e s =
      if_cases IsConsistent (not env.on_invite) (λ _. rw s.1 v)
        (λ _. invite_player-IsConsistent pid p y w v e s.0)

  -- The party that an invitation founds, with its first guest, or taken back.
  founded-IsConsistent :
      (x y : ℕ)
      → w.party_of x ≡ none
      → IsConsistent (invite_into env w.next_party (new_party x) x y (create_party x w))
  unfolding invite_into create_party empty
  founded-IsConsistent x y o =
      if_cases IsConsistent (not env.on_invite) (λ _. taken_back x w v o)
        (λ _. first_guest x y w v o)

  log_out-IsConsistent : (x : ℕ) → IsConsistent (log_out env x w)
  unfolding log_out
  log_out-IsConsistent x =
      let v' = clear_party_invitations-IsConsistent env x w d v in
      with_party (clear_party_invitations env x w) v' x _
        (λ pid p e s.
          leave_party-IsConsistent env pid p x true _ (d pid) (IsConsistent-Fits pid p _ v' e s.0)
            v')
        (find_party (clear_party_invitations env x w) x) refl

  invite-IsConsistent : (x y : ℕ) → IsConsistent (player_invite_to_party env x y w)
  unfolding player_invite_to_party
  invite-IsConsistent x y = if_cases IsConsistent _ (λ _. v) λ _. guest (w.party_of y)
    where
      known :
          (pid : ℕ) (o : Option Party)
          → w.parties pid ≡ o
          → IsConsistent (elim o [
            | none ↦ w
            | some p ↦ if not (p.leader == x) then w else invite_into env pid p x y w
          ])
      known pid none h = v
      known pid (some p) h =
          if_cases IsConsistent (not (p.leader == x)) (λ _. v)
            λ _. invite_into-IsConsistent pid p x y h (rw h at (v.stands pid))

      host :
          (o : Option ℕ)
          → w.party_of x ≡ o
          → IsConsistent (elim o [
            | none ↦ invite_into env w.next_party (new_party x) x y (create_party x w)
            | some pid ↦ elim (w.parties pid) [
              | none ↦ w
              | some p ↦ if not (p.leader == x) then w else invite_into env pid p x y w
            ]
          ])
      host none h = founded-IsConsistent x y h
      host (some pid) h = known pid (w.parties pid) refl

      guest :
          (o : Option ℕ)
          → IsConsistent (elim o [
            | some q ↦ w
            | none ↦ elim (w.party_of x) [
              | none ↦ invite_into env w.next_party (new_party x) x y (create_party x w)
              | some pid ↦ elim (w.parties pid) [
                | none ↦ w
                | some p ↦ if not (p.leader == x) then w else invite_into env pid p x y w
              ]
            ]
          ])
      guest none = host (w.party_of x) refl
      guest (some q) = v

  -- Any single request keeps the pointers consistent, if the scripts let parties disband.
  pub step-IsConsistent : (r : Request) → IsConsistent (step env r w)
  unfolding step
  step-IsConsistent (invites x y) = invite-IsConsistent x y
  step-IsConsistent (joins x y) = join-IsConsistent x y
  step-IsConsistent (revokes x y) = revoke-IsConsistent x y
  step-IsConsistent (passes x y) = pass-IsConsistent x y
  step-IsConsistent (leaves x) = leave-IsConsistent x
  step-IsConsistent (logs_out x) = log_out-IsConsistent x
  step-IsConsistent (shares x active) = shares-IsConsistent x active
