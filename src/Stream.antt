-- ===== src/Stream.antt =====
-- Property streams (`PropStream` and `PropWriteStream` of fileloader.h), on lists of bytes.
-- A reader is the bytes between `p` and `end`, a writer is its buffer.
pub mod RoundTrip
pub mod Escape
mod Examples
use projeto_bruxo.Base.{
  ℕ, zero, suc, ◌+◌, ◌*◌, ◌/◌, ◌%◌, Bool, true, false, not, ◌&&◌, Option, none, some, List, [], ◌∷◌,
  ◌++◌, ltb, ◌==◌, if◌then◌else◌, u16_mod, length, take, drop,
}

-- The value of the first `n` bytes, the lowest first: `memcpy` on a little-endian machine.
unfoldable pub value_of : ℕ → List ℕ → ℕ
value_of zero s = 0
value_of (suc n) [] = 0
value_of (suc n) (b ∷ s) = b + 256 * value_of n s

unfoldable pub bytes_of : ℕ → ℕ → List ℕ
bytes_of zero x = []
bytes_of (suc n) x = x % 256 ∷ bytes_of n (x / 256)

-- `PropStream::read<T>`, for an unsigned `T` of `n` bytes: the value, or none where too few bytes are
-- left, and the stream after.
unfoldable pub read : ℕ → List ℕ → Option ℕ × List ℕ
read n s = if ltb (length s) n then (none, s) else (some (value_of n s), drop n s)

-- `PropStream::readString`; where the text is cut short its length has been read.
unfoldable pub read_string : List ℕ → Option (List ℕ) × List ℕ
read_string s = go (read 2 s)
  where
    go : Option ℕ × List ℕ → Option (List ℕ) × List ℕ
    go (none, r) = (none, r)
    go (some len, r) = if ltb (length r) len then (none, r) else (some (take len r), drop len r)

-- `PropStream::skip`
unfoldable pub skip : ℕ → List ℕ → Bool × List ℕ
skip n s = if ltb (length s) n then (false, s) else (true, drop n s)

-- `PropWriteStream::write<T>`
unfoldable pub write : ℕ → ℕ → List ℕ → List ℕ
write n x buffer = buffer ++ bytes_of n x

-- `PropWriteStream::writeString`
unfoldable pub write_string : List ℕ → List ℕ → List ℕ
write_string str buffer =
    if ltb 65535 (length str)
    then write 2 0 buffer
    else write 2 (length str % u16_mod) buffer ++ str

-- `Node::ESCAPE`, `Node::START` and `Node::END` of fileloader.h
abbrev pub escape_byte : ℕ
escape_byte = 253

abbrev pub start_byte : ℕ
start_byte = 254

abbrev pub end_byte : ℕ
end_byte = 255

-- The filter of `Loader::getProps`, with `lastEscaped`.
unfoldable pub unescape : Bool → List ℕ → List ℕ
unescape last_escaped [] = []
unescape last_escaped (b ∷ s) =
    let escaped = b == escape_byte && not last_escaped in
    let rest = unescape escaped s in if not escaped then b ∷ rest else rest

-- `Loader::getProps`: the properties of a node, none where it has no bytes at all.
unfoldable pub get_props : List ℕ → Option (List ℕ)
get_props [] = none
get_props (b ∷ s) = some (unescape false (b ∷ s))
