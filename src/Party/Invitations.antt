-- ===== src/Party/Invitations.antt =====
-- `Party::removeInvite`, and `Player::clearPartyInvitations` of a player who leaves the game.
use projeto_bruxo.Base.{
  ℕ, ◌≤◌, ◌≡◌, Bool, true, false, not, none, some, List, [], ◌∷◌, ◌==◌, arith, contains, erase,
  update, update_all, contains-remove, contains-erase, nodup-erase, Bool-cases, Option-cases,
  if_cases, inl, inr,
}
use projeto_bruxo.Party.Shared.{Env, Party}
use projeto_bruxo.Party.{
  World, points, empty, put_party, remove_party_invitation, remove_invite, disband,
}
use projeto_bruxo.Party.Invariant.{belongs, invited, IsProper, Stands, IsConsistent}
use projeto_bruxo.Party.Disband.{Covers}
use projeto_bruxo.Party.Disband.{disband-IsConsistent}
use projeto_bruxo.Party.Fits.{Fits, Fits-IsConsistent}
use projeto_bruxo.Party.Disband.{disband_party_of, disband_invites, disband_parties, Covers}
use projeto_bruxo.Party.Calls.{drop_invitations, clear_party_invitations}

abbrev uninvited : Party → ℕ → Party
uninvited p x = record p { invitees = erase x p.invitees }

uninvited-Fits :
    (pid : ℕ) (p : Party) (x : ℕ) (w : World)
    → Fits pid p w
    → Fits pid (uninvited p x) (remove_party_invitation x pid w)
unfolding remove_party_invitation
uninvited-Fits pid p x w f = record {
  proper = record {
    leader_apart = f.proper.leader_apart;
    members_nodup = f.proper.members_nodup;
    invitees_nodup = nodup-erase x p.invitees f.proper.invitees_nodup;
  };
  stands = f.stands;
  belongs_eq = f.belongs_eq;
  belongs_here = f.belongs_here;
  invited_eq = λ q y n. ground (arith, f.invited_eq q y n, contains-remove q pid (w.invites x));
  invited_here = λ y. ground (
    arith,
    f.invited_here y,
    contains-remove pid pid (w.invites x),
    contains-erase y x p.invitees f.proper.invitees_nodup,
  );
  fresh = f.fresh;
}

Fits-Covers :
    (pid : ℕ) (p : Party) (w : World) → Fits pid p w → Covers pid p (put_party pid (some p) w)
unfolding put_party
Fits-Covers pid p w f = record {
  stands = λ q n. rw n (f.stands q n);
  belongs_eq = λ q x n. ground (arith, f.belongs_eq q x n);
  invited_eq = λ q x n. ground (arith, f.invited_eq q x n);
  fresh = λ q l n. ground (arith, f.fresh q l);
  listed = λ x. ground (arith, f.belongs_here x);
  aside = λ q x n. ground (arith, f.belongs_here x);
  invited_listed = λ x. ground (arith, f.invited_here x);
}

-- An invitation is taken back; the party goes with its last one.
pub remove_invite-IsConsistent :
    (env : Env) (pid : ℕ) (p : Party) (x : ℕ) (w : World)
    → env.on_disband pid ≡ true
    → Fits pid p w
    → IsConsistent w
    → IsConsistent (remove_invite env pid p x true w).0
unfolding remove_invite
remove_invite-IsConsistent env pid p x w d f v =
    if_cases (λ (r : World × Bool). IsConsistent r.0) (not (contains x p.invitees)) (λ _. v)
      λ guest.
        if_cases IsConsistent (empty (uninvited p x))
          (λ _.
            disband-IsConsistent env pid (uninvited p x) _ d
              (swap (Fits-Covers pid (uninvited p x) _ (uninvited-Fits pid p x w f))))
          (λ kept.
            swap' (Fits-IsConsistent pid (uninvited p x) _ (uninvited-Fits pid p x w f) kept))
  where
    swap :
        Covers pid
          (uninvited p x)
          (put_party pid (some (uninvited p x)) (remove_party_invitation x pid w))
        → Covers pid
            (uninvited p x)
            (remove_party_invitation x pid (put_party pid (some (uninvited p x)) w))
    swap c = unfold put_party remove_party_invitation in c

    swap' :
        IsConsistent (put_party pid (some (uninvited p x)) (remove_party_invitation x pid w))
        → IsConsistent (remove_party_invitation x pid (put_party pid (some (uninvited p x)) w))
    swap' c = unfold put_party remove_party_invitation in c

-- While a player's invitations are dropped one by one, `rest` holds those to come.
record IsLeaving (x : ℕ) (rest : List ℕ) (w : World) : Type 0 where
  stands : (q : ℕ) → Stands (w.parties q)
  belongs_eq : (q y : ℕ) → points (w.party_of y) q ≡ belongs (w.parties q) y
  invited_eq : (q y : ℕ) → (x == y) ≡ false → contains q (w.invites y) ≡ invited (w.parties q) y
  left : (q : ℕ) → invited (w.parties q) x ≡ true → contains q rest ≡ true
  fresh : (q : ℕ) → w.next_party ≤ q → w.parties q ≡ none

dropped_kept :
    (env : Env) (pid : ℕ) (p : Party) (x : ℕ) (rest : List ℕ) (w : World)
    → IsLeaving x (pid ∷ rest) w
    → w.parties pid ≡ some p
    → IsProper p
    → empty (uninvited p x) ≡ false
    → IsLeaving x rest (put_party pid (some (uninvited p x)) w)
unfolding put_party
dropped_kept env pid p x rest w l e g n = record {
  stands =
      update_all Stands w.parties pid _
        (
          record {
            leader_apart = g.leader_apart;
            members_nodup = g.members_nodup;
            invitees_nodup = nodup-erase x p.invitees g.invitees_nodup;
          },
          n,
        )
        l.stands;
  belongs_eq = λ q y. ground (arith, l.belongs_eq q y);
  invited_eq =
      λ q y m. ground (arith, l.invited_eq q y m, contains-erase y x p.invitees g.invitees_nodup);
  left = λ q. ground (arith, l.left q, contains-erase x x p.invitees g.invitees_nodup);
  fresh = λ q h. ground (arith, l.fresh q h);
}

dropped_gone :
    (env : Env) (pid : ℕ) (p : Party) (x : ℕ) (rest : List ℕ) (w : World)
    → env.on_disband pid ≡ true
    → IsLeaving x (pid ∷ rest) w
    → w.parties pid ≡ some p
    → IsProper p
    → IsLeaving x rest (disband env pid (uninvited p x) (put_party pid (some (uninvited p x)) w))
unfolding put_party
dropped_gone env pid p x rest w d l e g = record {
  stands = λ q.
      rw same (elim (Bool-cases (pid == q)) [
        | inl here ↦ rw here tt
        | inr other ↦ rw other (l.stands q)
      ]);
  belongs_eq = λ q y.
      rw
        (
          disband_party_of env pid (uninvited p x) (put_party pid (some (uninvited p x)) w) q y d,
          same,
        )
        (ground (arith, l.belongs_eq q y, l.belongs_eq pid y));
  invited_eq = λ q y n.
      rw
        (
          disband_invites env pid (uninvited p x) (put_party pid (some (uninvited p x)) w) q y d,
          same,
        )
        (ground (arith, l.invited_eq q y n, contains-erase y x p.invitees g.invitees_nodup));
  left = λ q. rw same (ground (arith, l.left q));
  fresh = λ q h. rw same (ground (arith, l.fresh q, next));
}
  where
    same :
        (disband env pid (uninvited p x) (put_party pid (some (uninvited p x)) w)).parties
        ≡ update (update w.parties pid (some (uninvited p x))) pid none
    same = (disband_parties env pid (uninvited p x) (put_party pid (some (uninvited p x)) w) d).0

    next :
        (disband env pid (uninvited p x) (put_party pid (some (uninvited p x)) w)).next_party
        ≡ w.next_party
    next = (disband_parties env pid (uninvited p x) (put_party pid (some (uninvited p x)) w) d).1

-- One round of the loop of `clearPartyInvitations`.
drop_one :
    (env : Env) (pid : ℕ) (p : Party) (x : ℕ) (rest : List ℕ) (w : World)
    → env.on_disband pid ≡ true
    → IsLeaving x (pid ∷ rest) w
    → w.parties pid ≡ some p
    → IsProper p
    → IsLeaving x rest (remove_invite env pid p x false w).0
unfolding remove_invite
drop_one env pid p x rest w d l e g =
    if_cases (λ (r : World × Bool). IsLeaving x rest r.0) (not (contains x p.invitees))
      (λ stranger. record {
        stands = l.stands;
        belongs_eq = l.belongs_eq;
        invited_eq = l.invited_eq;
        left = λ q. ground (arith, l.left q);
        fresh = l.fresh;
      })
      λ guest.
        if_cases (IsLeaving x rest) (empty (uninvited p x))
          (λ _. dropped_gone env pid p x rest w d l e g)
          (λ kept. dropped_kept env pid p x rest w l e g kept)

drop_none :
    (pid x : ℕ) (rest : List ℕ) (w : World)
    → IsLeaving x (pid ∷ rest) w
    → w.parties pid ≡ none
    → IsLeaving x rest w
drop_none pid x rest w l e = record {
  stands = l.stands;
  belongs_eq = l.belongs_eq;
  invited_eq = l.invited_eq;
  left = λ q. ground (arith, l.left q);
  fresh = l.fresh;
}

pub IsConsistent-IsProper :
    (pid : ℕ) (p : Party) (w : World)
    → ((q : ℕ) → Stands (w.parties q))
    → w.parties pid ≡ some p
    → IsProper p
IsConsistent-IsProper pid p w s e = (rw e at (s pid)).0

drop_invitations-IsLeaving :
    (env : Env) (x : ℕ) (rest : List ℕ) (w : World)
    → ((pid : ℕ) → env.on_disband pid ≡ true)
    → IsLeaving x rest w
    → IsLeaving x [] (drop_invitations env x rest w)
unfolding drop_invitations
drop_invitations-IsLeaving env x [] w d l = l
drop_invitations-IsLeaving env x (pid ∷ rest) w d l = elim (Option-cases (w.parties pid)) [
  | inl e ↦
      rw (e, drop_invitations)
        (drop_invitations-IsLeaving env x rest w d (drop_none pid x rest w l e))
  | inr (p, e) ↦
      rw (e, drop_invitations)
        (drop_invitations-IsLeaving env x rest _ d
          (drop_one env pid p x rest w (d pid) l e (IsConsistent-IsProper pid p w l.stands e)))
]

pub clear_party_invitations-IsConsistent :
    (env : Env) (x : ℕ) (w : World)
    → ((pid : ℕ) → env.on_disband pid ≡ true)
    → IsConsistent w
    → IsConsistent (clear_party_invitations env x w)
unfolding clear_party_invitations
clear_party_invitations-IsConsistent env x w d v =
    let start : IsLeaving x (w.invites x) w = record {
      stands = v.stands;
      belongs_eq = v.belongs_eq;
      invited_eq = λ q y _. v.invited_eq q y;
      left = λ q. ground (arith, v.invited_eq q x);
      fresh = v.fresh;
    } in
    let l = drop_invitations-IsLeaving env x (w.invites x) w d start in
    record {
      stands = l.stands;
      belongs_eq = l.belongs_eq;
      invited_eq = λ q y. ground (arith, l.invited_eq q y, l.left q);
      fresh = l.fresh;
    }
