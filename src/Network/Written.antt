-- ===== src/Network/Written.antt =====
-- Messages that are written: the position stays in the body, and the length keeps up with it.
use projeto_bruxo.Base.{
  ℕ, suc, ◌+◌, ◌%◌, ◌<◌, ◌≤◌, ◌≡◌, refl, ap, ◌∙◌, true, List, ltb, if_cases, u64_mod, length, arith,
}
use projeto_bruxo.Stream.{bytes_of}
use projeto_bruxo.Stream.RoundTrip.{length-bytes_of}
use projeto_bruxo.Network.{
  NetworkMessage, write_bytes, can_add, put, move_position, enlarge, add, add_byte, add_bytes,
  add_string, add_position,
}
use projeto_bruxo.Network.Buffer.{IsBytes, no_byte, byte, bytes_of-IsBytes}

-- A message that is written from the start of the buffer on, and not past the body.
pub record IsWritten (m : NetworkMessage) : Type 0 where
  pub stands : m.position ≡ 8 + m.length
  pub inside : m.position < 24576
  pub bytes : (k : ℕ) → m.buffer k < 256

write_bytes-below :
    (b : ℕ → ℕ) (s : ℕ) {xs : List ℕ}
    → ((k : ℕ) → b k < 256)
    → IsBytes xs
    → (k : ℕ) → write_bytes b s xs k < 256
unfolding write_bytes
write_bytes-below b s h no_byte k = h k
write_bytes-below b s h (byte p v) k = let rest = write_bytes-below b (suc s) h v k in ground arith

put-IsWritten :
    (m : NetworkMessage) {xs : List ℕ}
    → IsWritten m
    → IsBytes xs
    → m.position + length xs < 24576
    → IsWritten (put xs m)
unfolding put move_position enlarge
put-IsWritten m {xs} h v room = record {
  stands = omega (h.stands, room, arith);
  inside = omega (room, arith);
  bytes = write_bytes-below m.buffer m.position h.bytes v;
}

pub add-put :
    (n x : ℕ) (m : NetworkMessage) → m.position + n < 24576 → add n x m ≡ put (bytes_of n x) m
unfolding add can_add
add-put n x m h =
    let fits : ltb ((n + m.position) % u64_mod) 24576 ≡ true = ground arith in rw fits refl

put-position :
    (xs : List ℕ) (m : NetworkMessage) (n : ℕ)
    → length xs ≡ n
    → m.position + n < 24576
    → (put xs m).position ≡ m.position + n
unfolding put move_position enlarge
put-position xs m n e h = omega arith

add-position :
    (n x : ℕ) (m : NetworkMessage) → m.position + n < 24576 → (add n x m).position ≡ m.position + n
add-position n x m h =
    let wide : length (bytes_of n x) ≡ n = length-bytes_of n x in
    ap (λ m. m.position) (add-put n x m h) ∙ put-position (bytes_of n x) m n wide h

module _ (m : NetworkMessage) (h : IsWritten m) where
  add_byte-IsWritten : (v : ℕ) → v < 256 → IsWritten (add_byte v m)
  unfolding add_byte can_add
  add_byte-IsWritten v small =
      if_cases IsWritten (can_add 1 m)
        (λ e. put-IsWritten m h (byte small no_byte) (ground (h.inside, arith))) (λ e. h)

  pub add-IsWritten : (n x : ℕ) → n ≤ 8 → IsWritten (add n x m)
  unfolding add can_add
  add-IsWritten n x small =
      let wide : length (bytes_of n x) ≡ n = length-bytes_of n x in
      if_cases IsWritten _
        (λ e. put-IsWritten m h (bytes_of-IsBytes n x) (ground (h.inside, arith))) (λ e. h)

  add_bytes-IsWritten : (s : List ℕ) → IsBytes s → IsWritten (add_bytes s m)
  unfolding add_bytes can_add
  add_bytes-IsWritten s v =
      if_cases IsWritten _ (λ e. h) (λ e. put-IsWritten m h v (ground (h.inside, arith)))

  add_string-IsWritten : (s : List ℕ) → IsBytes s → IsWritten (add_string s m)
  unfolding add_string can_add
  add_string-IsWritten s v =
      if_cases IsWritten _ (λ e. h)
        (λ e.
          let room : length s + 2 + m.position < 24576 = ground (h.inside, arith) in
          let one = add-IsWritten 2 (length s) (omega arith) in
          let place : (add 2 (length s) m).position ≡ m.position + 2 =
            add-position 2 (length s) m (omega arith) in
          put-IsWritten (add 2 (length s) m) one v (omega (place, room, arith)))

-- For a message that is written up to its position and not past the body, bytes and a number of at
-- most 8 bytes: after addByte, add, addBytes, addString and addPosition, whether what is added fits
-- or not, the message is written up to its position, and not past the body.
pub writers-IsWritten :
    (m : NetworkMessage) (v n x : ℕ) (s : List ℕ) (at : ℕ × ℕ × ℕ)
    → IsWritten m
    → v < 256
    → n ≤ 8
    → IsBytes s
    → at.2 < 256
    → IsWritten (add_byte v m)
      × IsWritten (add n x m)
      × IsWritten (add_bytes s m)
      × IsWritten (add_string s m)
      × IsWritten (add_position at m)
unfolding add_position
writers-IsWritten m v n x s at h byte_v small bytes_s byte_z = (
  add_byte-IsWritten m h v byte_v,
  add-IsWritten m h n x small,
  add_bytes-IsWritten m h s bytes_s,
  add_string-IsWritten m h s bytes_s,
  (let one = add-IsWritten m h 2 at.0 (omega arith) in
      let two = add-IsWritten _ one 2 at.1 (omega arith) in add_byte-IsWritten _ two at.2 byte_z),
)
