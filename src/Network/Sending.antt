-- ===== src/Network/Sending.antt =====
-- What is sent.
use projeto_bruxo.Base.{
  ℕ, ◌+◌, ◌-◌, ◌%◌, ◌<◌, ◌≤◌, ◌≡◌, inl, inr, refl, sym, ap, ◌∙◌, true, false, not, List, [], ◌∷◌,
  ◌++◌, ◌==◌, ltb, u16_mod, length, length-append, length-replicate, replicate, Bool-cases, arith,
}
use projeto_bruxo.Stream.{bytes_of}
use projeto_bruxo.Stream.RoundTrip.{length-bytes_of}
use projeto_bruxo.Xtea.{encrypt, encrypt_round, put_words}
use projeto_bruxo.Xtea.RoundTrip.{IsBlocks, none_left, block, encrypt_round-IsBlocks}
use projeto_bruxo.Network.{
  NetworkMessage, read_bytes, write_bytes, enlarge, can_add, add_padding_bytes,
}
use projeto_bruxo.Network.Framing.{
  OutputMessage, Protocol, add_header, write_message_length, output, add_crypto_header, pad,
  xtea_encrypt, on_send_message, adler_checksum,
}
use projeto_bruxo.Network.Buffer.{
  IsBytes, no_byte, replicate-IsBytes, append-IsBytes, bytes_of-IsBytes, read_bytes-IsBytes,
  IsBlocks-of_IsBytes, append_nil, length-read_bytes, read_bytes-write_bytes, read_bytes_before,
  read_bytes_behind, read_bytes_move,
}

-- A message whose output starts at `s` and is `bytes`, and ends at `position`.
pub record Holds (o : OutputMessage) (s : ℕ) (bytes : List ℕ) (p : ℕ) : Type 0 where
  pub starts : o.output_buffer_start ≡ s
  pub bytes_here : output o ≡ bytes
  pub bytes_length : o.msg.length ≡ length bytes
  pub stands : o.msg.position ≡ p

-- A header goes before what is there.
pub add_header-Holds :
    (n v : ℕ) (o : OutputMessage) (s : ℕ) (bytes : List ℕ) (p : ℕ)
    → Holds o s bytes p
    → n ≤ s
    → s < u16_mod
    → length bytes + n < u16_mod
    → Holds (add_header n v o) (s - n) (bytes_of n v ++ bytes) p
unfolding add_header output enlarge
add_header-Holds n v o s bytes p h ns su room =
    let xs = bytes_of n v in
    let wide : length xs ≡ n = length-bytes_of n v in
    let start : (o.output_buffer_start + u16_mod - n) % u16_mod ≡ s - n =
      omega (h.starts, ns, su, arith) in
    let size : (o.msg.length + n) % u16_mod ≡ length xs + length bytes =
      omega (h.bytes_length, room, wide, arith) in
    let behind : read_bytes o.msg.buffer (s - n + length xs) (length bytes) ≡ bytes =
      read_bytes_move o.msg.buffer {t = o.output_buffer_start} {n = o.msg.length}
        (omega (h.starts, ns, wide, arith)) (sym h.bytes_length)
      ∙ h.bytes_here in
    record {
      starts = start;
      bytes_here =
          ap (λ t. read_bytes (write_bytes o.msg.buffer t xs) t ((o.msg.length + n) % u16_mod))
            start
          ∙ read_bytes_move (write_bytes o.msg.buffer (s - n) xs) refl size
          ∙ read_bytes_before o.msg.buffer (s - n) xs bytes (length bytes) behind;
      bytes_length = size ∙ sym (length-append xs bytes);
      stands = h.stands;
    }

-- Padding goes behind what is there.
add_padding_bytes-Holds :
    (n : ℕ) (o : OutputMessage) (s : ℕ) (bytes : List ℕ)
    → Holds o s bytes (s + length bytes)
    → s + length bytes + n < 24576
    → Holds
        (record o { msg = add_padding_bytes n o.msg })
        s
        (bytes ++ replicate n 51)
        (s + length bytes)
unfolding output enlarge add_padding_bytes can_add
add_padding_bytes-Holds n o s bytes h room =
    let fits : not (ltb ((n + o.msg.position) % 18446744073709551616) 24576) ≡ false =
      ground (h.stands, arith) in
    let m : NetworkMessage = record o.msg {
      buffer = write_bytes o.msg.buffer o.msg.position (replicate n 51);
      length = (o.msg.length + n) % u16_mod;
    } in
    let added : add_padding_bytes n o.msg ≡ m = rw fits refl in
    let z : List ℕ = replicate n 51 in
    let wide : length z ≡ n = length-replicate n 51 in
    let size : (o.msg.length + n) % u16_mod ≡ length bytes + length z =
      omega (h.bytes_length, room, wide, arith) in
    let place : o.msg.position ≡ s + length bytes = h.stands in
    let here : read_bytes o.msg.buffer s (length bytes) ≡ bytes =
      read_bytes_move o.msg.buffer (sym h.starts) (sym h.bytes_length) ∙ h.bytes_here in
    record {
      starts = h.starts;
      bytes_here =
          ap (λ m. read_bytes m.buffer o.output_buffer_start m.length) added
          ∙ ap
              (λ t.
                read_bytes (write_bytes o.msg.buffer t (replicate n 51)) o.output_buffer_start
                  ((o.msg.length + n) % u16_mod))
              place
          ∙ read_bytes_move (write_bytes o.msg.buffer (s + length bytes) (replicate n 51)) h.starts
              size
          ∙ read_bytes_behind o.msg.buffer s bytes (replicate n 51) (length bytes) here;
      bytes_length = ap (λ m. m.length) added ∙ size ∙ sym (length-append bytes (replicate n 51));
      stands = ap (λ m. m.position) added ∙ place;
    }

-- `XTEA_encrypt` pads what is there to whole blocks.
pad-Holds :
    (o : OutputMessage) (s : ℕ) (bytes : List ℕ)
    → Holds o s bytes (s + length bytes)
    → s ≤ 6
    → length bytes ≤ 24568
    → (z : List ℕ) × (length (bytes ++ z) % 8 ≡ 0)
      × IsBytes z
      × (length z < 8)
      × Holds (pad o) s (bytes ++ z) (s + length bytes)
unfolding pad
pad-Holds o s bytes h early room = elim (Bool-cases (o.msg.length % 8 == 0)) [
  | inl e ↦
      let nil : bytes ++ [] ≡ bytes = append_nil bytes in
      ([], ground (nil, h.bytes_length, arith), no_byte, omega arith, rw (e, nil) h)
  | inr e ↦
      let n : ℕ = 8 - o.msg.length % 8 in
      let z : List ℕ = replicate n 51 in
      let wide : length z ≡ n = length-replicate n 51 in
      let total = length-append bytes z in
      let padded : pad o ≡ record o { msg = add_padding_bytes n o.msg } = rw e refl in
      (
        z,
        ground (total, wide, h.bytes_length, arith),
        replicate-IsBytes n 51 (omega arith),
        ground (wide, e, arith),
        rw padded (add_padding_bytes-Holds n o s bytes h (ground arith)),
      )
]

length-encrypt_round :
    (k0 k1 : ℕ) {bytes : List ℕ}
    → IsBlocks bytes
    → length (encrypt_round k0 k1 bytes) ≡ length bytes
unfolding encrypt_round put_words
length-encrypt_round k0 k1 none_left = refl
length-encrypt_round k0 k1 (block p q r s t u v w rest) =
    let more = length-encrypt_round k0 k1 rest in omega (more, arith)

pub length-encrypt :
    (ks : List ℕ) {bytes : List ℕ} → IsBlocks bytes → length (encrypt ks bytes) ≡ length bytes
unfolding encrypt
length-encrypt [] v = refl
length-encrypt (k ∷ []) v = refl
length-encrypt (k0 ∷ k1 ∷ ks) v =
    length-encrypt ks (encrypt_round-IsBlocks k0 k1 v) ∙ length-encrypt_round k0 k1 v

-- `XTEA_encrypt` keeps where the output is.
xtea_encrypt-Holds :
    (key : List ℕ) (o : OutputMessage) (s : ℕ) (bytes : List ℕ) (p : ℕ)
    → Holds (pad o) s bytes p
    → IsBlocks bytes
    → Holds (xtea_encrypt key o) s (encrypt key bytes) p
unfolding xtea_encrypt output
xtea_encrypt-Holds key o s bytes p h v =
    let b = (pad o).msg.buffer in
    let at = (pad o).output_buffer_start in
    let kept : length (encrypt key bytes) ≡ length bytes = length-encrypt key v in
    record {
      starts = h.starts;
      bytes_here =
          ap (λ e. read_bytes (write_bytes b at (encrypt key e)) at (pad o).msg.length) h.bytes_here
          ∙ read_bytes_move (write_bytes b at (encrypt key bytes)) refl (h.bytes_length ∙ sym kept)
          ∙ read_bytes-write_bytes b at (encrypt key bytes);
      bytes_length = h.bytes_length ∙ sym kept;
      stands = h.stands;
    }

-- A message that is written from the start of the buffer on, and is not longer than
-- MAX_PROTOCOL_BODY_LENGTH.
pub record IsReady (o : OutputMessage) : Type 0 where
  pub starts : o.output_buffer_start ≡ 8
  pub stands : o.msg.position ≡ 8 + o.msg.length
  pub bytes : (k : ℕ) → o.msg.buffer k < 256
  pub short : o.msg.length ≤ 24566

abbrev pub body : OutputMessage → List ℕ
body o = read_bytes o.msg.buffer 8 o.msg.length

output_start : (o : OutputMessage) → o.output_buffer_start ≡ 8 → output o ≡ body o
unfolding output
output_start o e = ap (λ s. read_bytes o.msg.buffer s o.msg.length) e

-- What the cipher takes: the size, the body and the padding.
abbrev pub inner : OutputMessage → List ℕ
inner o = bytes_of 2 o.msg.length ++ body o

abbrev pub packet : List ℕ → List ℕ
packet c = bytes_of 2 (length c + 4) ++ (bytes_of 4 (adler_checksum c) ++ c)

on_send_message_ciphers :
    (p : Protocol) (o : OutputMessage)
    → p.raw_messages ≡ false
    → p.encryption_enabled ≡ true
    → p.checksum_enabled ≡ true
    → on_send_message p o
      ≡ add_crypto_header true (xtea_encrypt p.key (add_header 2 o.msg.length o))
unfolding on_send_message write_message_length
on_send_message_ciphers p o raw enc ck = rw (raw, enc, ck) refl

add_crypto_header-packet :
    (c : OutputMessage) (bytes : List ℕ) (s : ℕ)
    → Holds c 6 bytes s
    → length bytes < 24570
    → output (add_crypto_header true c) ≡ packet bytes
unfolding add_crypto_header write_message_length
add_crypto_header-packet c bytes s h short =
    let sum = adler_checksum bytes in
    let same : adler_checksum (output c) ≡ sum = ap adler_checksum h.bytes_here in
    let size : length (bytes_of 4 sum ++ bytes) ≡ length bytes + 4 =
      length-append (bytes_of 4 sum) bytes ∙ omega (length-bytes_of 4 sum, arith) in
    let checked : Holds (add_header 4 (adler_checksum (output c)) c) 2 (bytes_of 4 sum ++ bytes) s =
      rw same (add_header-Holds 4 sum c 6 bytes s h (omega arith) (omega arith) (omega arith)) in
    let headed =
      add_header-Holds 2 (length bytes + 4) _ 2 _ s checked (omega arith) (omega arith)
        (omega (size, short, arith)) in
    ap (λ n. output (add_header 2 n (add_header 4 (adler_checksum (output c)) c)))
      (checked.bytes_length ∙ size)
    ∙ headed.bytes_here

-- What is sent: a size and a checksum before the cipher of the inner size, the body and padding.
pub on_send_message_lem :
    (p : Protocol) (o : OutputMessage)
    → p.raw_messages ≡ false
    → p.encryption_enabled ≡ true
    → p.checksum_enabled ≡ true
    → IsReady o
    → (z : List ℕ) × IsBlocks (inner o ++ z)
      × (length (inner o ++ z) < 24570)
      × (output (on_send_message p o) ≡ packet (encrypt p.key (inner o ++ z)))
unfolding on_send_message write_message_length add_crypto_header
on_send_message_lem p o raw enc ck r =
    let l = o.msg.length in
    let size : length (body o) ≡ l = length-read_bytes o.msg.buffer 8 l in
    let whole : length (inner o) ≡ length (bytes_of 2 l) + length (body o) =
      length-append (bytes_of 2 l) (body o) in
    let two : length (bytes_of 2 l) ≡ 2 = length-bytes_of 2 l in
    let start : Holds o 8 (body o) (6 + length (inner o)) = record {
      starts = r.starts;
      bytes_here = output_start o r.starts;
      bytes_length = sym size;
      stands = omega (r.stands, size, whole, two, arith);
    } in
    let sized : Holds (add_header 2 l o) 6 (inner o) (6 + length (inner o)) =
      add_header-Holds 2 l o 8 (body o) (6 + length (inner o)) start (omega arith) (omega arith)
        (omega (size, r.stands, r.short, arith)) in
    let padded =
      pad-Holds (add_header 2 l o) 6 (inner o) sized (omega arith)
        (omega (r.short, size, whole, two, arith)) in
    let z = padded.0 in
    let v : IsBlocks (inner o ++ z) =
      IsBlocks-of_IsBytes (inner o ++ z)
        (append-IsBytes
          (append-IsBytes (bytes_of-IsBytes 2 l) (read_bytes-IsBytes o.msg.buffer 8 l r.bytes))
          padded.2)
        padded.1 in
    let total = length-append (inner o) z in
    let short : length (inner o ++ z) < 24570 =
      omega (r.short, size, whole, two, total, padded.1, padded.3, arith) in
    let c = xtea_encrypt p.key (add_header 2 l o) in
    let held = xtea_encrypt-Holds p.key (add_header 2 l o) 6 (inner o ++ z) _ padded.4 v in
    let kept : length (encrypt p.key (inner o ++ z)) ≡ length (inner o ++ z) =
      length-encrypt p.key v in
    let sent : on_send_message p o ≡ add_crypto_header true c =
      on_send_message_ciphers p o raw enc ck in
    (z, v, short, ap output sent ∙ add_crypto_header-packet c _ _ held (omega (kept, short, arith)))
