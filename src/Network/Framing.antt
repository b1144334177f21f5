-- ===== src/Network/Framing.antt =====
-- How messages are sent and received: outputmessage.h, protocol.cpp, connection.cpp, and
-- adlerChecksum of tools.cpp.
use projeto_bruxo.Base.{
  ℕ, zero, suc, ◌+◌, ◌-◌, ◌*◌, ◌/◌, ◌%◌, Bool, true, false, not, ◌||◌, List, [], ◌∷◌, ◌==◌, ltb,
  leb, if◌then◌else◌, Option, none, some, u16_mod, u32_mod, length, take, drop, max,
}
use projeto_bruxo.Base.Int.{negsuc}
use projeto_bruxo.Stream.{bytes_of}
use projeto_bruxo.Xtea.{encrypt, decrypt}
use projeto_bruxo.Network.{
  NetworkMessage, networkmessage_maxsize, header_length, checksum_length, read_bytes, write_bytes,
  enlarge, get, skip_bytes, add_padding_bytes, get_length_header,
}

-- The inner loop of `adlerChecksum`: `a` and `b`, which wrap at 32 bits.
unfoldable pub adler_run : List ℕ → (a b : ℕ) → ℕ × ℕ
adler_run [] a b = (a, b)
adler_run (x ∷ xs) a b = adler_run xs ((a + x) % u32_mod) ((b + (a + x) % u32_mod) % u32_mod)

abbrev pub adler : ℕ
adler = 65521

-- The outer loop, 5552 bytes at a time; each round of the fuel takes at least one.
unfoldable pub adler_rounds : ℕ → List ℕ → ℕ × ℕ → ℕ × ℕ
adler_rounds fuel [] sums = sums
adler_rounds zero (x ∷ xs) sums = sums
adler_rounds (suc fuel) (x ∷ xs) sums =
    let run = adler_run (take 5552 (x ∷ xs)) sums.0 sums.1 in
    adler_rounds fuel (drop 5552 (x ∷ xs)) (run.0 % adler, run.1 % adler)

-- `adlerChecksum`; `b << 16 | a` is a sum, for `a` is below 65536.
unfoldable pub adler_checksum : List ℕ → ℕ
adler_checksum data_bytes =
    let sums = adler_rounds (length data_bytes) data_bytes (1, 0) in
    if ltb networkmessage_maxsize (length data_bytes)
    then 0
    else (sums.1 * 65536 + sums.0) % u32_mod

-- `OutputMessage`
pub record OutputMessage : Type 0 where
  pub msg : NetworkMessage
  pub output_buffer_start : ℕ

-- `add_header<T>` for an unsigned `T` of `n` bytes
unfoldable pub add_header : ℕ → ℕ → OutputMessage → OutputMessage
add_header n value o =
    let start = (o.output_buffer_start + u16_mod - n) % u16_mod in
    record {
      output_buffer_start = start;
      msg = enlarge n (record o.msg { buffer = write_bytes o.msg.buffer start (bytes_of n value) });
    }

-- `writeMessageLength`
unfoldable pub write_message_length : OutputMessage → OutputMessage
write_message_length o = add_header 2 o.msg.length o

-- The bytes that are sent: `getLength()` bytes of `getOutputBuffer()`.
unfoldable pub output : OutputMessage → List ℕ
output o = read_bytes o.msg.buffer o.output_buffer_start o.msg.length

-- `addCryptoHeader`
unfoldable pub add_crypto_header : Bool → OutputMessage → OutputMessage
add_crypto_header add_checksum o =
    write_message_length (if add_checksum then add_header 4 (adler_checksum (output o)) o else o)

-- `append`
unfoldable pub append : NetworkMessage → OutputMessage → OutputMessage
append msg o = record o {
  msg = record o.msg {
    buffer = write_bytes o.msg.buffer o.msg.position (read_bytes msg.buffer 8 msg.length);
    length = (o.msg.length + msg.length) % u16_mod;
    position = (o.msg.position + msg.length) % u16_mod;
  };
}

-- What a `Protocol` says of its messages.
pub record Protocol : Type 0 where
  pub raw_messages : Bool
  pub encryption_enabled : Bool
  pub checksum_enabled : Bool
  pub key : List ℕ

-- The padding of `XTEA_encrypt`.
unfoldable pub pad : OutputMessage → OutputMessage
pad o =
    let padding_bytes = o.msg.length % 8 in
    if padding_bytes == 0 then o else record o { msg = add_padding_bytes (8 - padding_bytes) o.msg }

-- `XTEA_encrypt`
unfoldable pub xtea_encrypt : List ℕ → OutputMessage → OutputMessage
xtea_encrypt key o =
    let p = pad o in
    record p {
      msg = record p.msg {
        buffer = write_bytes p.msg.buffer p.output_buffer_start (encrypt key (output p));
      };
    }

-- `XTEA_decrypt`; `(length - 6) & 7` is that of `length + 2`.
unfoldable pub xtea_decrypt : List ℕ → NetworkMessage → Bool × NetworkMessage
xtea_decrypt key m =
    let plain = decrypt key (read_bytes m.buffer m.position (m.length - 6)) in
    let inner = get 2 (record m { buffer = write_bytes m.buffer m.position plain }) in
    if not ((m.length + 2) % 8 == 0)
    then (false, m)
    else if ltb inner.1.length (inner.0 + 8)
    then (false, inner.1)
    else (true, record inner.1 { length = inner.0 })

-- `Protocol::onSendMessage`
unfoldable pub on_send_message : Protocol → OutputMessage → OutputMessage
on_send_message p o =
    if p.raw_messages
    then o
    else let l = write_message_length o in
      if p.encryption_enabled
      then add_crypto_header p.checksum_enabled (xtea_encrypt p.key l)
      else l

-- `Protocol::onRecvMessage`: the message that is parsed, if one is.
unfoldable pub on_recv_message : Protocol → NetworkMessage → Option NetworkMessage
on_recv_message p m =
    let plain = xtea_decrypt p.key m in
    if p.encryption_enabled then if plain.0 then some plain.1 else none else some m

-- `Connection`
pub record Connection : Type 0 where
  pub closed : Bool
  pub packets_sent : ℕ
  pub time_connected : ℕ
  pub msg : NetworkMessage

-- `timePassed`, the seconds since the counter of packets was reset.
unfoldable pub time_passed : ℕ → Connection → ℕ
time_passed now c = max 1 ((now + u32_mod - c.time_connected % u32_mod + 1) % u32_mod)

-- Whether one more packet is more than `limit` (MAX_PACKETS_PER_SECOND) a second.
unfoldable pub is_flooding : (now limit : ℕ) → Connection → Bool
is_flooding now limit c = ltb limit ((c.packets_sent + 1) % u32_mod / time_passed now c)

-- `Connection::parseHeader` without an error of the socket, at the time `now`: the connection that
-- reads on, none where it is closed.
unfoldable pub parse_header : (now limit : ℕ) → Connection → Option Connection
parse_header now limit c =
    let passed = time_passed now c in
    let size = get_length_header c.msg in
    if c.closed
    then none
    else if is_flooding now limit c
    then none
    else if size == 0 || leb (networkmessage_maxsize - 16) size
    then none
    else some (record c {
      packets_sent = if ltb 2 passed then 0 else (c.packets_sent + 1) % u32_mod;
      time_connected = if ltb 2 passed then now else c.time_connected;
      msg = record c.msg { length = (size + header_length) % u16_mod; position = 2 };
    })

-- The checksum in `Connection::parsePacket`: whether it is there, and the message behind it.
unfoldable pub check_checksum : NetworkMessage → Bool × NetworkMessage
check_checksum m =
    let len = m.length - m.position - checksum_length in
    let checksum =
      if ltb 0 len
      then adler_checksum (read_bytes m.buffer (m.position + checksum_length) len)
      else 0 in
    let received = get 4 m in
    if received.0 == checksum then (true, received.1) else (false, skip_bytes (negsuc 3) received.1)

-- `Connection::parsePacket` after the first message, without an error of the socket.
unfoldable pub parse_packet : Protocol → Connection → Option NetworkMessage
parse_packet p c = if c.closed then none else on_recv_message p (check_checksum c.msg).1

-- `async_read` of `size` bytes to address `at`.
unfoldable pub read_from_socket : (at size : ℕ) → List ℕ → Connection → Connection
read_from_socket at size wire c = record c {
  msg = record c.msg { buffer = write_bytes c.msg.buffer at (take size wire) };
}

-- The rest of a message arrives at a connection that reads on.
unfoldable pub receive_rest : Protocol → List ℕ → Option Connection → Option NetworkMessage
receive_rest p wire none = none
receive_rest p wire (some d) =
    parse_packet p (read_from_socket d.msg.position (d.msg.length - header_length) wire d)

-- The bytes of one message arrive: the header is read, and then as much as it says.
unfoldable pub receive : (now limit : ℕ) → Protocol → Connection → List ℕ → Option NetworkMessage
receive now limit p c wire =
    receive_rest p (drop header_length wire)
      (parse_header now limit (read_from_socket 0 header_length wire c))
