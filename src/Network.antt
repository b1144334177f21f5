-- ===== src/Network.antt =====
-- Messages of the connections: networkmessage.h and networkmessage.cpp; how they are framed
-- (outputmessage.h, protocol.cpp, connection.cpp) is in Framing.
-- A buffer is a function of the address. Numbers go into it as bytes, the lowest first.
pub mod Framing
pub mod Buffer
pub mod Written
pub mod Fields
pub mod Checksum
pub mod Sending
pub mod Delivery
mod Examples
use projeto_bruxo.Base.{
  ℕ, zero, suc, ◌+◌, ◌-◌, ◌*◌, ◌/◌, ◌%◌, Bool, true, false, not, ◌&&◌, ◌||◌, List, [], ◌∷◌, ◌==◌,
  ltb, leb, if◌then◌else◌, Option, none, some, u8_mod, u16_mod, u32_mod, u64_mod, update, length,
  replicate, max,
}
use projeto_bruxo.Base.Int.{ℤ, pos, negsuc, pos_part, neg_part}
use projeto_bruxo.Stream.{value_of, bytes_of}

abbrev pub networkmessage_maxsize : ℕ
networkmessage_maxsize = 24590

abbrev pub initial_buffer_position : ℕ
initial_buffer_position = 8

abbrev pub header_length : ℕ
header_length = 2

abbrev pub checksum_length : ℕ
checksum_length = 4

abbrev pub max_body_length : ℕ
max_body_length = networkmessage_maxsize - header_length - checksum_length - 8

-- `NetworkMessage`, with the fields of `info`.
pub record NetworkMessage : Type 0 where
  pub length : ℕ
  pub position : ℕ
  pub overrun : Bool
  pub buffer : ℕ → ℕ

-- The `n` bytes of a buffer from address `at` on.
unfoldable pub read_bytes : (ℕ → ℕ) → (at n : ℕ) → List ℕ
read_bytes buffer at zero = []
read_bytes buffer at (suc n) = buffer at ∷ read_bytes buffer (suc at) n

-- `memcpy` of bytes to address `at`.
unfoldable pub write_bytes : (ℕ → ℕ) → (at : ℕ) → List ℕ → ℕ → ℕ
write_bytes buffer at [] = buffer
write_bytes buffer at (b ∷ bs) = update (write_bytes buffer (suc at) bs) at b

-- `canAdd`
unfoldable pub can_add : ℕ → NetworkMessage → Bool
can_add size m = ltb ((size + m.position) % u64_mod) max_body_length

-- The answer of `canRead`.
unfoldable pub can_read : ℕ → NetworkMessage → Bool
can_read size m =
    not (ltb (m.length + 8) (m.position + size) || leb networkmessage_maxsize (size + m.position))

-- What a `canRead` that fails leaves.
unfoldable pub fail_read : NetworkMessage → NetworkMessage
fail_read m = record m { overrun = true }

-- `position` and `length` moved on, as `uint16_t`.
unfoldable pub move_position : ℕ → NetworkMessage → NetworkMessage
move_position n m = record m { position = (m.position + n) % u16_mod }

unfoldable pub enlarge : ℕ → NetworkMessage → NetworkMessage
enlarge n m = record m { length = (m.length + n) % u16_mod }

-- Bytes at the position, which moves behind them.
unfoldable pub put : List ℕ → NetworkMessage → NetworkMessage
put bytes m =
    enlarge (length bytes)
      (move_position (length bytes) (record m { buffer = write_bytes m.buffer m.position bytes }))

-- `getByte`
unfoldable pub get_byte : NetworkMessage → ℕ × NetworkMessage
get_byte m = if can_read 1 m then (m.buffer m.position, move_position 1 m) else (0, fail_read m)

-- `get<T>` for an unsigned `T` of `n` bytes
unfoldable pub get : ℕ → NetworkMessage → ℕ × NetworkMessage
get n m =
    if can_read n m
    then (value_of n (read_bytes m.buffer m.position n), move_position n m)
    else (0, fail_read m)

-- `getString` with the length found.
unfoldable pub read_text : ℕ × NetworkMessage → List ℕ × NetworkMessage
read_text (len, r) =
    if can_read len r
    then (read_bytes r.buffer r.position len, move_position len r)
    else ([], fail_read r)

-- `getString`, of the length that is given or, for 0, the one that is read.
unfoldable pub get_string : ℕ → NetworkMessage → List ℕ × NetworkMessage
get_string string_len m = read_text (if string_len == 0 then get 2 m else (string_len, m))

-- `getPosition`: x, y and z.
unfoldable pub get_position : NetworkMessage → (ℕ × ℕ × ℕ) × NetworkMessage
get_position m =
    let x = get 2 m in let y = get 2 x.1 in let z = get_byte y.1 in ((x.0, y.0, z.0), z.1)

-- `skipBytes`
unfoldable pub skip_bytes : ℤ → NetworkMessage → NetworkMessage
skip_bytes count m = move_position (pos_part count + (u16_mod - neg_part count)) m

-- `addByte`
unfoldable pub add_byte : ℕ → NetworkMessage → NetworkMessage
add_byte value m = if can_add 1 m then put (value ∷ []) m else m

-- `add<T>` for an unsigned `T` of `n` bytes
unfoldable pub add : ℕ → ℕ → NetworkMessage → NetworkMessage
add n value m = if can_add n m then put (bytes_of n value) m else m

-- `addBytes`
unfoldable pub add_bytes : List ℕ → NetworkMessage → NetworkMessage
add_bytes bytes m =
    let size = length bytes in if not (can_add size m) || ltb 8192 size then m else put bytes m

-- `addString`
unfoldable pub add_string : List ℕ → NetworkMessage → NetworkMessage
add_string value m =
    let string_len = length value in
    if not (can_add (string_len + 2) m) || ltb 8192 string_len
    then m
    else put value (add 2 string_len m)

-- `addPosition`
unfoldable pub add_position : ℕ × ℕ × ℕ → NetworkMessage → NetworkMessage
add_position (x, y, z) m = add_byte z (add 2 y (add 2 x m))

-- `addPaddingBytes`: the position stays.
unfoldable pub add_padding_bytes : ℕ → NetworkMessage → NetworkMessage
add_padding_bytes n m =
    if not (can_add n m)
    then m
    else enlarge n (record m { buffer = write_bytes m.buffer m.position (replicate n 51) })

-- `setBufferPosition`
unfoldable pub set_buffer_position : ℕ → NetworkMessage → Bool × NetworkMessage
set_buffer_position at m =
    if ltb at (networkmessage_maxsize - initial_buffer_position)
    then (true, record m { position = at + initial_buffer_position })
    else (false, m)

-- `getRemainingBufferLength`
unfoldable pub get_remaining_buffer_length : NetworkMessage → ℕ
get_remaining_buffer_length m = (m.length + u16_mod - m.position) % u16_mod

-- `getLengthHeader`
unfoldable pub get_length_header : NetworkMessage → ℕ
get_length_header m = m.buffer 0 + 256 * m.buffer 1
