-- ===== src/Network/Delivery.antt =====
-- What is received of what was sent.
use projeto_bruxo.Base.{
  ℕ, ◌+◌, ◌-◌, ◌%◌, ◌<◌, ◌≤◌, ◌≡◌, refl, sym, ap, ◌∙◌, Bool, true, false, some, List, [], ◌∷◌, ◌++◌,
  ◌||◌, ◌==◌, ltb, leb, if◌then◌else◌, u16_mod, u32_mod, length, length-append, take, arith,
}
use projeto_bruxo.Stream.{value_of, bytes_of}
use projeto_bruxo.Stream.RoundTrip.{length-bytes_of}
use projeto_bruxo.Xtea.{encrypt, decrypt}
use projeto_bruxo.Xtea.RoundTrip.{IsBlocks, decrypt-encrypt}
use projeto_bruxo.Network.{NetworkMessage, read_bytes, write_bytes, can_read, get_length_header}
use projeto_bruxo.Network.Framing.{
  OutputMessage, Protocol, Connection, output, on_send_message, adler_checksum, xtea_decrypt,
  on_recv_message, receive_rest, parse_header, is_flooding, time_passed, check_checksum,
  parse_packet, read_from_socket, receive,
}
use projeto_bruxo.Network.Buffer.{
  length-read_bytes, read_bytes-write_bytes, read_bytes_split, read_bytes_move, length-IsBlocks,
  value_of-number,
}
use projeto_bruxo.Network.Fields.{get_here}
use projeto_bruxo.Network.Sending.{IsReady, packet, body, on_send_message_lem, length-encrypt}

-- The message that `n` bytes behind the checksum make.
abbrev sealed : ℕ → Bool → (ℕ → ℕ) → NetworkMessage
sealed n w b = record { length = n + 6; position = 6; overrun = w; buffer = b }

-- Where the cipher of a size and more bytes stands, the size and these are read.
xtea_decrypt_lem :
    (key : List ℕ) (w : Bool) (b : ℕ → ℕ) (v : ℕ) (rest : List ℕ)
    → IsBlocks (bytes_of 2 v ++ rest)
    → length (bytes_of 2 v ++ rest) < 24570
    → v ≤ length rest
    → read_bytes b 6 (length (bytes_of 2 v ++ rest)) ≡ encrypt key (bytes_of 2 v ++ rest)
    → (xtea_decrypt key (sealed (length (bytes_of 2 v ++ rest)) w b) ≡ (
      true,
      record {
        length = v;
        position = 8;
        overrun = w;
        buffer = write_bytes b 6 (bytes_of 2 v ++ rest);
      },
    ))
      × (read_bytes (write_bytes b 6 (bytes_of 2 v ++ rest)) 8 (length rest) ≡ rest)
unfolding xtea_decrypt can_read
xtea_decrypt_lem key w b v rest blocks short fits here =
    let plain : List ℕ = bytes_of 2 v ++ rest in
    let k : ℕ = length plain in
    let two : k ≡ 2 + length rest =
      length-append (bytes_of 2 v) rest ∙ omega (length-bytes_of 2 v, arith) in
    let all : k + 6 - 6 ≡ k = omega arith in
    let opened : decrypt key (read_bytes b 6 (k + 6 - 6)) ≡ plain =
      ap (decrypt key) (read_bytes_move b refl all ∙ here) ∙ decrypt-encrypt key blocks in
    let after : ℕ → ℕ = write_bytes b 6 plain in
    let pieces =
      read_bytes_split after 6 (bytes_of 2 v) rest 2 (length rest) (length-bytes_of 2 v)
        (read_bytes_move after refl (sym two) ∙ read_bytes-write_bytes b 6 plain) in
    let whole : ((k + 6 + 2) % 8 == 0) ≡ true = ground (length-IsBlocks blocks, arith) in
    let inside : ltb (k + 6) (v + 8) ≡ false = ground arith in
    let got =
      get_here 2 v (sealed k w after) (ground arith) (omega arith)
        (ap (value_of 2) pieces.0 ∙ value_of-number 2 v (omega arith)) in
    (rw opened (rw (whole, got, inside) refl), pieces.1)

adler_checksum-below : (c : List ℕ) → adler_checksum c < u32_mod
unfolding adler_checksum
adler_checksum-below c = ground arith

-- Where a packet stands behind the size, its checksum is found right.
check_checksum_lem :
    (w : Bool) (b : ℕ → ℕ) (c : List ℕ)
    → 0 < length c
    → length c < 24570
    → read_bytes b 2 (4 + length c) ≡ bytes_of 4 (adler_checksum c) ++ c
    → (check_checksum (record { length = length c + 6; position = 2; overrun = w; buffer = b })
        ≡ (true, sealed (length c) w b))
      × (read_bytes b 6 (length c) ≡ c)
unfolding check_checksum can_read
check_checksum_lem w b c some_bytes short here =
    let k : ℕ = length c in
    let sum = adler_checksum c in
    let pieces = read_bytes_split b 2 (bytes_of 4 sum) c 4 k (length-bytes_of 4 sum) here in
    let left : k + 6 - 2 - 4 ≡ k = omega arith in
    let full : ltb 0 k ≡ true = ground arith in
    let equal : (sum == sum) ≡ true = ground arith in
    let got =
      get_here 4 sum (record { length = k + 6; position = 2; overrun = w; buffer = b })
        (ground arith) (omega arith)
        (ap (value_of 4) pieces.0 ∙ value_of-number 4 sum (adler_checksum-below c)) in
    (rw left (rw (full, pieces.1, got, equal) refl), pieces.1)

take_all : (xs : List ℕ) → take (length xs) xs ≡ xs
take_all [] = refl
take_all (x ∷ xs) = ap (λ l. x ∷ l) (take_all xs)

-- The size in the first two bytes.
get_length_header_lem :
    (b : ℕ → ℕ) (v n at : ℕ) (w : Bool)
    → v < u16_mod
    → get_length_header
        (record { length = n; position = at; overrun = w; buffer = write_bytes b 0 (bytes_of 2 v) })
      ≡ v
unfolding get_length_header write_bytes bytes_of
get_length_header_lem b v n at w h = omega arith

calm_after :
    (now limit : ℕ) (c : Connection) (at size : ℕ) (wire : List ℕ)
    → is_flooding now limit c ≡ false
    → is_flooding now limit (read_from_socket at size wire c) ≡ false
unfolding is_flooding time_passed read_from_socket
calm_after now limit c at size wire h = h

-- A connection that is open and whose client sends not too much takes the size.
parse_header_lem :
    (now limit : ℕ) (c : Connection) (size : ℕ)
    → c.closed ≡ false
    → is_flooding now limit c ≡ false
    → get_length_header c.msg ≡ size
    → 0 < size
    → size < 24574
    → (d : Connection) × (parse_header now limit c ≡ some d)
      × (d.closed ≡ false)
      × (d.msg ≡ record {
        length = size + 2;
        position = 2;
        overrun = c.msg.overrun;
        buffer = c.msg.buffer;
      })
unfolding parse_header is_flooding time_passed
parse_header_lem now limit c size opened calm header some_bytes short =
    let first : (size == 0 || leb 24574 size) ≡ false = ground arith in
    let whole : (size + 2) % u16_mod ≡ size + 2 = omega arith in
    let passed = time_passed now c in
    let d : Connection = record c {
      packets_sent = if ltb 2 passed then 0 else (c.packets_sent + 1) % u32_mod;
      time_connected = if ltb 2 passed then now else c.time_connected;
      msg = record c.msg { length = size + 2; position = 2 };
    } in
    (d, rw (opened, calm, header, first, whole) refl, opened, refl)

receive_rest_lem :
    (p : Protocol) (d : Connection) (bytes : List ℕ) (w : Bool) (b : ℕ → ℕ)
    → d.closed ≡ false
    → d.msg ≡ record { length = length bytes + 4 + 2; position = 2; overrun = w; buffer = b }
    → 0 < length bytes
    → length bytes < 24570
    → receive_rest p (bytes_of 4 (adler_checksum bytes) ++ bytes) (some d)
      ≡ on_recv_message p
          (sealed (length bytes) w (write_bytes b 2 (bytes_of 4 (adler_checksum bytes) ++ bytes)))
unfolding receive_rest read_from_socket parse_packet
receive_rest_lem p d bytes w b opened at some_bytes short =
    let tail : List ℕ = bytes_of 4 (adler_checksum bytes) ++ bytes in
    let total : length tail ≡ 4 + length bytes =
      length-append (bytes_of 4 (adler_checksum bytes)) bytes
      ∙ omega (length-bytes_of 4 (adler_checksum bytes), arith) in
    let all : length bytes + 4 + 2 - 2 ≡ length tail = omega (total, arith) in
    let taken : take (length bytes + 4 + 2 - 2) tail ≡ tail = rw all (take_all tail) in
    let size : length bytes + 4 + 2 ≡ length bytes + 6 = omega arith in
    let after : ℕ → ℕ = write_bytes b 2 tail in
    let found =
      check_checksum_lem w after bytes some_bytes short
        (read_bytes_move after refl (sym total) ∙ read_bytes-write_bytes b 2 tail) in
    rw (opened, at, taken, size) (ap (λ r. on_recv_message p r.1) found.0)

-- A packet is received where it is not refused.
receive_lem :
    (now limit : ℕ) (p : Protocol) (c : Connection) (bytes : List ℕ)
    → c.closed ≡ false
    → is_flooding now limit c ≡ false
    → 0 < length bytes
    → length bytes < 24570
    → receive now limit p c (packet bytes)
      ≡ on_recv_message p (
          sealed (length bytes) c.msg.overrun (
            write_bytes
              (write_bytes c.msg.buffer 0 (bytes_of 2 (length bytes + 4)))
              2
              (bytes_of 4 (adler_checksum bytes) ++ bytes)))
unfolding receive read_from_socket bytes_of
receive_lem now limit p c bytes opened calm some_bytes short =
    let n : ℕ = length bytes + 4 in
    let c1 = read_from_socket 0 2 (packet bytes) c in
    let header =
      get_length_header_lem c.msg.buffer n c.msg.length c.msg.position c.msg.overrun
        (omega arith) in
    let step =
      parse_header_lem now limit c1 n opened (calm_after now limit c 0 2 (packet bytes) calm) header
        (omega arith) (omega arith) in
    ap (receive_rest p (bytes_of 4 (adler_checksum bytes) ++ bytes)) step.1
    ∙ receive_rest_lem p step.0 bytes c1.msg.overrun c1.msg.buffer step.2 step.3 some_bytes short

on_recv_message_lem :
    (p : Protocol) (m r : NetworkMessage)
    → p.encryption_enabled ≡ true
    → xtea_decrypt p.key m ≡ (true, r)
    → on_recv_message p m ≡ some r
unfolding on_recv_message
on_recv_message_lem p m r enc h = rw (h, enc) refl

packet_place :
    (b : ℕ → ℕ) (bytes : List ℕ)
    → read_bytes (write_bytes b 2 (bytes_of 4 (adler_checksum bytes) ++ bytes)) 6 (length bytes)
      ≡ bytes
packet_place b bytes =
    let sum : List ℕ = bytes_of 4 (adler_checksum bytes) in
    let after : ℕ → ℕ = write_bytes b 2 (sum ++ bytes) in
    let total : 4 + length bytes ≡ length (sum ++ bytes) =
      omega (length-bytes_of 4 (adler_checksum bytes), length-append sum bytes, arith) in
    (read_bytes_split after 2 sum bytes 4 (length bytes) (length-bytes_of 4 (adler_checksum bytes))
      (read_bytes_move after refl total ∙ read_bytes-write_bytes b 2 (sum ++ bytes))).1

-- For a message that is written from the start of the buffer on and has at most 24566 bytes (that is
-- MAX_PROTOCOL_BODY_LENGTH), sent with encryption and a checksum, and an open connection with the
-- same keys that is not past its limit of packets: a message is received, as long as the one that
-- was sent, at its first byte, and with the same bytes.
pub receive-on_send_message :
    (now limit : ℕ) (p : Protocol) (c : Connection) (o : OutputMessage)
    → p.raw_messages ≡ false
    → p.encryption_enabled ≡ true
    → p.checksum_enabled ≡ true
    → IsReady o
    → c.closed ≡ false
    → is_flooding now limit c ≡ false
    → (r : NetworkMessage) × (receive now limit p c (output (on_send_message p o)) ≡ some r)
      × (r.length ≡ o.msg.length)
      × (r.position ≡ 8)
      × (read_bytes r.buffer 8 o.msg.length ≡ read_bytes o.msg.buffer 8 o.msg.length)
unfolding bytes_of
receive-on_send_message now limit p c o raw enc ck ready opened calm =
    let l = o.msg.length in
    let sent = on_send_message_lem p o raw enc ck ready in
    let z = sent.0 in
    let rest : List ℕ = body o ++ z in
    let plain : List ℕ = bytes_of 2 l ++ rest in
    let bytes : List ℕ = encrypt p.key plain in
    let kept : length bytes ≡ length plain = length-encrypt p.key sent.1 in
    let two : length plain ≡ 2 + length rest =
      length-append (bytes_of 2 l) rest ∙ omega (length-bytes_of 2 l, arith) in
    let more : length rest ≡ l + length z =
      length-append (body o) z ∙ omega (length-read_bytes o.msg.buffer 8 l, arith) in
    let b : ℕ → ℕ =
      write_bytes (write_bytes c.msg.buffer 0 (bytes_of 2 (length bytes + 4))) 2
        (bytes_of 4 (adler_checksum bytes) ++ bytes) in
    let arrives =
      receive_lem now limit p c bytes opened calm (omega (kept, two, arith))
        (omega (kept, sent.2, arith)) in
    let here : read_bytes b 6 (length plain) ≡ bytes =
      read_bytes_move b refl (sym kept)
      ∙ packet_place (write_bytes c.msg.buffer 0 (bytes_of 2 (length bytes + 4))) bytes in
    let read =
      xtea_decrypt_lem p.key c.msg.overrun b l rest sent.1 sent.2 (omega (more, arith)) here in
    let r : NetworkMessage = record {
      length = l;
      position = 8;
      overrun = c.msg.overrun;
      buffer = write_bytes b 6 plain;
    } in
    let taken : on_recv_message p (sealed (length bytes) c.msg.overrun b) ≡ some r =
      ap (λ n. on_recv_message p (sealed n c.msg.overrun b)) kept
      ∙ on_recv_message_lem p (sealed (length plain) c.msg.overrun b) r enc read.0 in
    (
      r,
      ap (receive now limit p c) sent.3 ∙ arrives ∙ taken,
      refl,
      refl,
      (read_bytes_split (write_bytes b 6 plain) 8 (body o) z l (length z)
          (length-read_bytes o.msg.buffer 8 l)
          (read_bytes_move (write_bytes b 6 plain) refl (sym more) ∙ read.1)).0,
    )
