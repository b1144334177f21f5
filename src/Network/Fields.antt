-- ===== src/Network/Fields.antt =====
-- What is read from where it was written.
use projeto_bruxo.Base.{
  ℕ, ◌+◌, ◌%◌, ◌<◌, ◌≤◌, ◌≡◌, inl, refl, sym, ap, ◌∙◌, true, false, not, ◌||◌, List, ltb, u16_mod,
  u64_mod, length, arith,
}
use projeto_bruxo.Stream.{value_of, bytes_of}
use projeto_bruxo.Stream.RoundTrip.{values, length-bytes_of}
use projeto_bruxo.Network.{
  NetworkMessage, read_bytes, write_bytes, can_add, can_read, put, move_position, enlarge, get,
  get_string, read_text, add_string,
}
use projeto_bruxo.Network.Written.{IsWritten, add-put}
use projeto_bruxo.Network.Buffer.{
  read_bytes-write_bytes, read_bytes-apart, read_bytes_move, value_of-number,
}

-- What `put` makes, where no 16-bit word wraps.
put_lem :
    (xs : List ℕ) (m : NetworkMessage)
    → m.position + length xs < u16_mod
    → m.length + length xs < u16_mod
    → put xs m ≡ record {
      length = m.length + length xs;
      position = m.position + length xs;
      overrun = m.overrun;
      buffer = write_bytes m.buffer m.position xs;
    }
unfolding put move_position enlarge
put_lem xs m h k =
    let position : (m.position + length xs) % u16_mod ≡ m.position + length xs = omega arith in
    let size : (m.length + length xs) % u16_mod ≡ m.length + length xs = omega arith in
    rw (position, size) refl

-- A number of `n` bytes is read where it can be.
pub get_here :
    (n v : ℕ) (m : NetworkMessage)
    → can_read n m ≡ true
    → m.position + n < u16_mod
    → value_of n (read_bytes m.buffer m.position n) ≡ v
    → get n m ≡ (v, record m { position = m.position + n })
unfolding get move_position
get_here n v m h k e =
    let moved : (m.position + n) % u16_mod ≡ m.position + n = omega arith in rw (h, e, moved) refl

-- A text is read where it can be.
read_text_here :
    (s : List ℕ) (m : NetworkMessage)
    → can_read (length s) m ≡ true
    → m.position + length s < u16_mod
    → read_bytes m.buffer m.position (length s) ≡ s
    → read_text (length s, m) ≡ (s, record m { position = m.position + length s })
unfolding read_text move_position
read_text_here s m h k e =
    let moved : (m.position + length s) % u16_mod ≡ m.position + length s = omega arith in
    rw (h, e, moved) refl

abbrev pub rewind : NetworkMessage → NetworkMessage → NetworkMessage
rewind m r = record r { position = m.position }

get-put :
    (n x : ℕ) (m : NetworkMessage)
    → IsWritten m
    → m.position + n < 24576
    → x < values n
    → get n (rewind m (put (bytes_of n x) m)) ≡ (x, put (bytes_of n x) m)
unfolding can_read
get-put n x m h room small =
    let wide : length (bytes_of n x) ≡ n = length-bytes_of n x in
    let b : ℕ → ℕ = write_bytes m.buffer m.position (bytes_of n x) in
    let value : value_of n (read_bytes b m.position n) ≡ x =
      ap (value_of n) (
        read_bytes_move b refl (sym wide)
        ∙ read_bytes-write_bytes m.buffer m.position (bytes_of n x))
      ∙ value_of-number n x small in
    let w : NetworkMessage = record {
      length = m.length + n;
      position = m.position + n;
      overrun = m.overrun;
      buffer = b;
    } in
    let made : put (bytes_of n x) m ≡ w =
      put_lem (bytes_of n x) m (omega (wide, room, arith)) (omega (wide, room, h.stands, arith))
      ∙ rw wide refl in
    ap (λ w. get n (rewind m w)) made
    ∙ get_here n x (rewind m w) (ground (h.stands, arith)) (omega arith) value
    ∙ ap (λ w. (x, w)) (sym made)

get_string-put :
    (s : List ℕ) (m : NetworkMessage)
    → IsWritten m
    → m.position + 2 + length s < 24576
    → get_string 0 (rewind m (put s (put (bytes_of 2 (length s)) m)))
      ≡ (s, put s (put (bytes_of 2 (length s)) m))
unfolding get_string can_read
get_string-put s m h room =
    let n : ℕ = length s in
    let wide : length (bytes_of 2 n) ≡ 2 = length-bytes_of 2 n in
    let b : ℕ → ℕ = write_bytes m.buffer m.position (bytes_of 2 n) in
    let one : NetworkMessage = record {
      length = m.length + 2;
      position = m.position + 2;
      overrun = m.overrun;
      buffer = b;
    } in
    let two : NetworkMessage = record {
      length = m.length + 2 + n;
      position = m.position + 2 + n;
      overrun = m.overrun;
      buffer = write_bytes b (m.position + 2) s;
    } in
    let made : put s (put (bytes_of 2 n) m) ≡ two =
      ap (put s) (
        put_lem (bytes_of 2 n) m (omega (wide, room, arith)) (omega (wide, room, h.stands, arith))
        ∙ rw wide refl)
      ∙ put_lem s one (omega (room, arith)) (omega (room, h.stands, arith)) in
    let head : value_of 2 (read_bytes two.buffer m.position 2) ≡ n =
      ap (value_of 2) (
        read_bytes-apart b (m.position + 2) s m.position 2 (inl (omega arith))
        ∙ read_bytes_move b refl (sym wide)
        ∙ read_bytes-write_bytes m.buffer m.position (bytes_of 2 n))
      ∙ value_of-number 2 n (omega (room, arith)) in
    ap (λ w. get_string 0 (rewind m w)) made
    ∙ ap read_text
        (get_here 2 n (rewind m two) (ground (h.stands, room, arith)) (omega (room, arith)) head)
    ∙ read_text_here s (record two { position = m.position + 2 }) (ground (h.stands, room, arith))
        (omega (room, arith)) (read_bytes-write_bytes b (m.position + 2) s)
    ∙ ap (λ w. (s, w)) (sym made)

add_string-put :
    (s : List ℕ) (m : NetworkMessage)
    → length s ≤ 8192
    → m.position + 2 + length s < 24576
    → add_string s m ≡ put s (put (bytes_of 2 (length s)) m)
unfolding add_string can_add
add_string-put s m short room =
    let fits : (not (ltb ((length s + 2 + m.position) % u64_mod) 24576) || ltb 8192 (length s))
        ≡ false =
      ground arith in
    rw fits (ap (put s) (add-put 2 (length s) m (omega arith)))

-- For a message that is written up to its position and a text of at most 8192 bytes that fits
-- before the end of the body: a reader at the position reads the text back, and then is the message
-- as the writer left it.
pub get_string-add_string :
    (s : List ℕ) (m : NetworkMessage)
    → IsWritten m
    → length s ≤ 8192
    → m.position + 2 + length s < 24576
    → get_string 0 (rewind m (add_string s m)) ≡ (s, add_string s m)
get_string-add_string s m h short room =
    ap (λ w. get_string 0 (rewind m w)) (add_string-put s m short room)
    ∙ get_string-put s m h room
    ∙ ap (λ w. (s, w)) (sym (add_string-put s m short room))
