-- ===== src/Party/Examples.antt =====
-- The parties: a run of the requests, and the theorems at it.
use projeto_bruxo.Base.{
  ◌+◌, ◌≡◌, refl, true, false, none, some, List, [], ◌∷◌, ◌==◌, if◌then◌else◌, erase,
}
use projeto_bruxo.Party.Shared.{
  Env, Party, can_enable_shared_experience, update_shared_experience, clear_player_points,
  find_ticks, is_active, can_use_shared_experience, all_can_use, highest_level,
}
use projeto_bruxo.Party.{
  World, leave_party, join_party, invite_player, leader_departs, succeed, depart,
  pass_party_leadership, empty, put_party, set_party, remove_party_invitation, add_party_invitation,
}
use projeto_bruxo.Party.Calls.{
  Request, invites, joins, leaves, player_invite_to_party, player_join_party, player_leave_party,
  create_party, invite_into, is_inviting, step, run, no_parties,
}
use projeto_bruxo.Party.Invariant.{IsConsistent}
use projeto_bruxo.Party.History.{MayDisband, run-no_parties-IsConsistent}
use projeto_bruxo.Party.Refusal.{refused_disband}

abbrev plain : Env
plain = record {
  on_invite = true;
  on_join = true;
  on_leave = true;
  on_pass_leadership = true;
  on_revoke_invitation = true;
  on_disband = λ _. true;
  level_of = λ x. 30 + x;
  in_range = λ _ _. true;
  not_gain_in_fight = λ _. true;
  in_fight = λ _. false;
  in_protection_zone = λ _. false;
  is_online = λ _. true;
  now = 1000;
  pz_locked = 60000;
}

abbrev stubborn : Env
stubborn = record plain { on_disband = λ _. false }

-- Player 1 invites 2 and 3, 2 joins, 1 leaves and 2 leads.
abbrev afternoon : List (Env × Request)
afternoon =
    (plain, invites 1 2) ∷ (plain, invites 1 3) ∷ (plain, joins 2 1) ∷ (plain, leaves 1) ∷ []

afternoon-MayDisband : MayDisband afternoon
afternoon-MayDisband = (λ _. refl, (λ _. refl, (λ _. refl, (λ _. refl, tt))))

abbrev duo : Party
duo = record {
  leader = 1;
  members = 2 ∷ [];
  invitees = [];
  shared_active = true;
  shared_enabled = true;
  ticks = [];
}

abbrev alone : Party
alone = record duo { members = []; invitees = 7 ∷ [] }

abbrev lone_world : World
lone_world = record no_parties {
  party_of = λ x. if x == 1 then some 0 else none;
  parties = λ pid. if pid == 0 then some alone else none;
  next_party = 1;
}

afternoon_party : (run afternoon no_parties).party_of 2 ≡ some 0
unfolding run step player_invite_to_party player_join_party player_leave_party create_party
    invite_into is_inviting leave_party join_party invite_player leader_departs succeed depart
    pass_party_leadership put_party set_party remove_party_invitation add_party_invitation
    update_shared_experience clear_player_points find_ticks erase empty
afternoon_party = refl

run-no_parties-IsConsistent_example : IsConsistent (run afternoon no_parties)
run-no_parties-IsConsistent_example = run-no_parties-IsConsistent afternoon afternoon-MayDisband

refused_disband_example :
    let w' = (leave_party stubborn 0 alone 1 false lone_world).0 in
    (w'.party_of 1 ≡ none) × ((r : Party) × (w'.parties 0 ≡ some r) × (r.leader ≡ 1))
refused_disband_example = refused_disband stubborn 0 alone 1 false lone_world refl refl refl refl

duo-can_enable : can_enable_shared_experience plain duo ≡ true
unfolding can_enable_shared_experience can_use_shared_experience all_can_use highest_level is_active
duo-can_enable = refl
