-- ===== src/Party.antt =====
-- party.cpp, party.h, and the party calls of game.cpp and player.cpp.
-- The heap is explicit: players and parties are numbers, `party_of` is `Player::party`, `invites`
-- is `Player::invitePartyList`, and a deleted party is one that `parties` no longer has.
-- Messages and icons sent to the clients are not modelled.
pub mod Shared
pub mod Calls
pub mod Invariant
pub mod Disband
pub mod Joining
pub mod Fits
pub mod Leaving
pub mod Invitations
pub mod Consistency
pub mod History
pub mod Refusal
pub mod Levels
mod Examples
use Shared.{Env, Party, update_shared_experience, clear_player_points}
use projeto_bruxo.Base.{
  ℕ, suc, ◌+◌, Bool, true, false, not, ◌&&◌, ◌||◌, Option, none, some, List, [], ◌∷◌, ◌++◌, ◌==◌,
  if◌then◌else◌, contains, erase, remove, update,
}

pub record World : Type 0 where
  pub party_of : ℕ → Option ℕ
  pub invites : ℕ → List ℕ
  pub parties : ℕ → Option Party
  pub next_party : ℕ

abbrev pub points : Option ℕ → ℕ → Bool
points none pid = false
points (some q) pid = q == pid

abbrev pub is_nil : List ℕ → Bool
is_nil [] = true
is_nil (x ∷ xs) = false

-- `Party::empty`
unfoldable pub empty : Party → Bool
empty p = is_nil p.members && is_nil p.invitees

pub set_party : ℕ → Option ℕ → World → World
set_party x o w = record w { party_of = update w.party_of x o }

pub put_party : ℕ → Option Party → World → World
put_party pid o w = record w { parties = update w.parties pid o }

-- `Player::removePartyInvitation`
pub remove_party_invitation : ℕ → ℕ → World → World
remove_party_invitation x pid w = record w {
  invites = update w.invites x (remove pid (w.invites x));
}

-- `Player::addPartyInvitation`
pub add_party_invitation : ℕ → ℕ → World → World
add_party_invitation x pid w =
    let list = w.invites x in
    record w { invites = update w.invites x (if contains pid list then list else pid ∷ list) }

-- The two loops of `disband` over the invited and over the members.
pub forget_invitees : ℕ → List ℕ → World → World
unfolding remove_party_invitation
forget_invitees pid [] w = w
forget_invitees pid (x ∷ xs) w = forget_invitees pid xs (remove_party_invitation x pid w)

pub release_members : List ℕ → World → World
unfolding set_party
release_members [] w = w
release_members (x ∷ xs) w = release_members xs (set_party x none w)

-- `Party::disband`; the party is deleted unless the script refuses.
pub disband : Env → ℕ → Party → World → World
disband env pid p w =
    if not (env.on_disband pid)
    then w
    else put_party pid none
        (release_members p.members (forget_invitees pid p.invitees (set_party p.leader none w)))

-- `Party::passPartyLeadership`: the party as it is after, `none` where it refuses.
pub pass_party_leadership : Env → ℕ → Party → ℕ → Bool → World → Option Party
pass_party_leadership env pid p x force w =
    if p.leader == x || not (points (w.party_of x) pid)
    then none
    else if not env.on_pass_leadership && not force
    then none
    else some (
        update_shared_experience env
          (record p { leader = x; members = p.leader ∷ erase x p.members }))

-- The start of `leaveParty`, when the leader goes, by the list of members: the party after the
-- leadership has been passed on, or `none` for `missingLeader`.
pub succeed : Env → ℕ → Party → List ℕ → World → Option Party
succeed env pid p [] w = none
succeed env pid p (m ∷ ms) w =
    if is_nil ms && is_nil p.invitees
    then none
    else elim (pass_party_leadership env pid p m true w) [ none ↦ some p | some q ↦ some q ]

-- The rest of `leaveParty`, for a player whose leadership has been passed on.
pub depart : Env → ℕ → Party → Bool → ℕ → World → World
depart env pid p missing_leader x w =
    let q = record p { members = erase x p.members } in
    let r = clear_player_points env x (update_shared_experience env q) in
    let w' = put_party pid (some r) (set_party x none w) in
    if missing_leader || empty r then disband env pid r w' else w'

-- `leaveParty` where the leader goes.
pub leader_departs : Env → ℕ → Party → ℕ → World → World
leader_departs env pid p x w = elim (succeed env pid p p.members w) [
  | none ↦ depart env pid p true x w
  | some q ↦ depart env pid q false x w
]

-- `Party::leaveParty`
pub leave_party : Env → ℕ → Party → ℕ → Bool → World → World × Bool
leave_party env pid p x force w =
    if not (points (w.party_of x) pid) && not (p.leader == x)
    then (w, false)
    else if not force && not env.on_leave
    then (w, false)
    else if p.leader == x
    then (leader_departs env pid p x w, true)
    else (depart env pid p false x w, true)

-- `Party::joinParty`
pub join_party : Env → ℕ → Party → ℕ → World → World × Bool
join_party env pid p x w =
    if not env.on_join
    then (w, false)
    else if not (contains x p.invitees)
    then (w, false)
    else let q = record p { invitees = erase x p.invitees; members = p.members ++ x ∷ [] } in
      (
        put_party pid (some (update_shared_experience env q))
            (remove_party_invitation x pid (set_party x (some pid) w)),
        true,
      )

-- `Party::removeInvite`
pub remove_invite : Env → ℕ → Party → ℕ → Bool → World → World × Bool
remove_invite env pid p x remove_from_player w =
    if not (contains x p.invitees)
    then (w, false)
    else let q = record p { invitees = erase x p.invitees } in
      let w' = put_party pid (some q) w in
      let w'' = if remove_from_player then remove_party_invitation x pid w' else w' in
      (if empty q then disband env pid q w'' else w'', true)

-- `Party::revokeInvitation`
pub revoke_invitation : Env → ℕ → Party → ℕ → World → World
revoke_invitation env pid p x w =
    if not env.on_revoke_invitation then w else (remove_invite env pid p x true w).0

-- `Party::invitePlayer`
pub invite_player : ℕ → Party → ℕ → World → World × Bool
invite_player pid p x w = if contains x p.invitees then (w, false) else (
  add_party_invitation x pid
      (put_party pid (some (record p { invitees = p.invitees ++ x ∷ [] })) w),
  true,
)
