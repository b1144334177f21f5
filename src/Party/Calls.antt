-- ===== src/Party/Calls.antt =====
-- The party calls of the clients (`Game::player…Party…` of game.cpp), and a logout (player.cpp).
use projeto_bruxo.Base.{
  ℕ, ◌+◌, Bool, true, false, not, ◌&&◌, ◌||◌, Option, none, some, List, [], ◌∷◌, ◌==◌,
  if◌then◌else◌, contains, update,
}
use projeto_bruxo.Party.Shared.{Env, Party, set_shared_experience}
use projeto_bruxo.Party.{
  World, points, empty, set_party, put_party, leave_party, join_party, remove_invite,
  revoke_invitation, invite_player, pass_party_leadership,
}

-- The party of a player, through its pointer.
abbrev pub find_party : World → ℕ → Option (ℕ × Party)
find_party w x = elim (w.party_of x) [
  | none ↦ none
  | some pid ↦ elim (w.parties pid) [ none ↦ none | some p ↦ some (pid, p) ]
]

-- `Player::isInviting`
unfoldable pub is_inviting : World → ℕ → ℕ → Bool
is_inviting w x y = elim (find_party w x) [
  | none ↦ false
  | some (pid, p) ↦ p.leader == x && contains y p.invitees
]

-- `Player::isPartner`
unfoldable pub is_partner : World → ℕ → ℕ → Bool
is_partner w x y = elim (w.party_of x) [
  | none ↦ false
  | some pid ↦ not (x == y) && points (w.party_of y) pid
]

-- `new Party(player)`
abbrev pub new_party : ℕ → Party
new_party x = record {
  leader = x;
  members = [];
  invitees = [];
  shared_active = false;
  shared_enabled = false;
  ticks = [];
}

unfoldable pub create_party : ℕ → World → World
create_party x w = record w {
  party_of = update w.party_of x (some w.next_party);
  parties = update w.parties w.next_party (some (new_party x));
  next_party = w.next_party + 1;
}

-- The end of `playerInviteToParty`, once there is a party.
unfoldable pub invite_into : Env → ℕ → Party → ℕ → ℕ → World → World
invite_into env pid p x y w =
    if not env.on_invite
    then if empty p then put_party pid none (set_party x none w) else w
    else (invite_player pid p y w).0

-- `Game::playerInviteToParty`
unfoldable pub player_invite_to_party : Env → ℕ → ℕ → World → World
player_invite_to_party env x y w =
    if x == y || not (env.is_online x) || not (env.is_online y) || is_inviting w y x
    then w
    else elim (w.party_of y) [
      | some q ↦ w
      | none ↦ elim (w.party_of x) [
        | none ↦ invite_into env w.next_party (new_party x) x y (create_party x w)
        | some pid ↦ elim (w.parties pid) [
          | none ↦ w
          | some p ↦ if not (p.leader == x) then w else invite_into env pid p x y w
        ]
      ]
    ]

-- `Game::playerJoinParty`
unfoldable pub player_join_party : Env → ℕ → ℕ → World → World
player_join_party env x leader w =
    if not (env.is_online x) || not (env.is_online leader) || not (is_inviting w leader x)
    then w
    else elim (find_party w leader) [
      | none ↦ w
      | some (pid, p) ↦
          if not (p.leader == leader)
          then w
          else elim (w.party_of x) [ some q ↦ w | none ↦ (join_party env pid p x w).0 ]
    ]

-- `Game::playerRevokePartyInvitation`
unfoldable pub player_revoke_party_invitation : Env → ℕ → ℕ → World → World
player_revoke_party_invitation env x y w = elim (find_party w x) [
  | none ↦ w
  | some (pid, p) ↦
      if not (env.is_online x)
        || not (p.leader == x)
        || not (env.is_online y)
        || not (is_inviting w x y)
      then w
      else revoke_invitation env pid p y w
]

-- `Game::playerPassPartyLeadership`
unfoldable pub player_pass_party_leadership : Env → ℕ → ℕ → World → World
player_pass_party_leadership env x y w = elim (find_party w x) [
  | none ↦ w
  | some (pid, p) ↦
      if not (env.is_online x)
        || not (p.leader == x)
        || not (env.is_online y)
        || not (is_partner w x y)
      then w
      else elim (pass_party_leadership env pid p y false w) [
        | none ↦ w
        | some q ↦ put_party pid (some q) w
      ]
]

-- `Game::playerLeaveParty`
unfoldable pub player_leave_party : Env → ℕ → World → World
player_leave_party env x w = elim (find_party w x) [
  | none ↦ w
  | some (pid, p) ↦
      if not (env.is_online x) || env.in_fight x then w else (leave_party env pid p x false w).0
]

-- `Game::playerEnableSharedPartyExperience`
unfoldable pub player_enable_shared_party_experience : Env → ℕ → Bool → World → World
player_enable_shared_party_experience env x active w = elim (find_party w x) [
  | none ↦ w
  | some (pid, p) ↦
      if not (env.is_online x) || (env.in_fight x && not (env.in_protection_zone x))
      then w
      else put_party pid (some (set_shared_experience env p x active).0) w
]

-- `Player::clearPartyInvitations`
unfoldable pub drop_invitations : Env → ℕ → List ℕ → World → World
drop_invitations env x [] w = w
drop_invitations env x (pid ∷ rest) w = elim (w.parties pid) [
  | none ↦ drop_invitations env x rest w
  | some p ↦ drop_invitations env x rest (remove_invite env pid p x false w).0
]

unfoldable pub clear_party_invitations : Env → ℕ → World → World
clear_party_invitations env x w =
    let w' = drop_invitations env x (w.invites x) w in
    record w' { invites = update w'.invites x [] }

-- The party part of `Player::onRemoveCreature`, when the player leaves the game.
unfoldable pub log_out : Env → ℕ → World → World
log_out env x w =
    let w' = clear_party_invitations env x w in
    elim (find_party w' x) [ none ↦ w' | some (pid, p) ↦ (leave_party env pid p x true w').0 ]

-- What the clients and the connection can ask of the parties.
pub data Request : Type 0 where
  invites joins revokes passes : ℕ → ℕ → Request
  leaves logs_out : ℕ → Request
  shares : ℕ → Bool → Request

unfoldable pub step : Env → Request → World → World
step env (invites x y) w = player_invite_to_party env x y w
step env (joins x leader) w = player_join_party env x leader w
step env (revokes x y) w = player_revoke_party_invitation env x y w
step env (passes x y) w = player_pass_party_leadership env x y w
step env (leaves x) w = player_leave_party env x w
step env (logs_out x) w = log_out env x w
step env (shares x active) w = player_enable_shared_party_experience env x active w

unfoldable pub run : List (Env × Request) → World → World
run [] w = w
run ((env, r) ∷ rest) w = run rest (step env r w)

-- No party yet.
abbrev pub no_parties : World
no_parties = record { party_of = λ _. none; invites = λ _. []; parties = λ _. none; next_party = 0 }
