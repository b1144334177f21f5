-- ===== src/Bans.antt =====
-- The limit on connections (Ban::acceptConnection of ban.cpp): an address that connects too often is
-- blocked for a while. Times are in milliseconds.
pub mod Rate
mod Examples
use projeto_bruxo.Base.{
  ℕ, ◌+◌, ◌-◌, ◌%◌, Bool, true, false, ◌&&◌, Option, none, some, List, [], ◌∷◌, ltb, leb,
  if◌then◌else◌, update, u32_mod, u64_mod,
}

pub record ConnectBlock : Type 0 where
  pub last_attempt : ℕ
  pub block_time : ℕ
  pub count : ℕ

-- `Ban`: `ipConnectMap`
pub record Ban : Type 0 where
  pub ip_connect_map : ℕ → Option ConnectBlock

abbrev pub no_ban : Ban
no_ban = record { ip_connect_map = λ ip. none }

-- An attempt of an address that has connected before. A clock that was set back gives a negative
-- `timeDiff` in the source and 0 here, which are below both limits.
unfoldable pub attempt : ℕ → ConnectBlock → Bool × ConnectBlock
attempt now b =
    let time_diff = now - b.last_attempt in
    let count = (b.count + 1) % u32_mod in
    if ltb now b.block_time
    then (false, record b { block_time = (b.block_time + 250) % u64_mod })
    else if leb time_diff 5000
    then if ltb 5 count
      then if leb time_diff 500
        then (false, record { last_attempt = now; block_time = (now + 3000) % u64_mod; count = 0 })
        else (true, record b { last_attempt = now; count = 0 })
      else (true, record b { last_attempt = now; count = count })
    else (true, record b { last_attempt = now; count = 1 })

unfoldable pub attempt_of : ℕ → Option ConnectBlock → Bool × ConnectBlock
attempt_of now none = (true, record { last_attempt = now; block_time = 0; count = 1 })
attempt_of now (some b) = attempt now b

-- `Ban::acceptConnection` at the time `now`
unfoldable pub accept_connection : (now client_ip : ℕ) → Ban → Bool × Ban
accept_connection now client_ip ban =
    let found = attempt_of now (ban.ip_connect_map client_ip) in
    (found.0, record { ip_connect_map = update ban.ip_connect_map client_ip (some found.1) })

-- Whether all attempts of an address at these times are accepted.
unfoldable pub accept_all : ℕ → List ℕ → Ban → Bool
accept_all client_ip [] ban = true
accept_all client_ip (now ∷ times) ban =
    let answer = accept_connection now client_ip ban in
    answer.0 && accept_all client_ip times answer.1

-- The table after attempts of addresses at times.
unfoldable pub after_attempts : List (ℕ × ℕ) → Ban → Ban
after_attempts [] ban = ban
after_attempts ((now, ip) ∷ rest) ban = after_attempts rest (accept_connection now ip ban).1
