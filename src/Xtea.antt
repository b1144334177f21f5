-- ===== src/Xtea.antt =====
-- The block cipher of the connections (xtea.cpp), on lists of bytes.
-- `encrypt` and `decrypt` are called with a length that 8 divides; bytes after the last whole block are
-- left as they are here.
pub mod RoundTrip
mod Examples
use projeto_bruxo.Base.{ℕ, zero, suc, ◌+◌, ◌-◌, ◌*◌, ◌/◌, ◌%◌, List, [], ◌∷◌, u32_mod, get_or}

-- Exclusive or of the lowest `n` bits.
unfoldable pub xor : ℕ → ℕ → ℕ → ℕ
xor zero a b = 0
xor (suc n) a b = (a % 2 + b % 2) % 2 + 2 * xor n (a / 2) (b / 2)

unfoldable pub add32 : ℕ → ℕ → ℕ
add32 a b = (a + b) % u32_mod

unfoldable pub sub32 : ℕ → ℕ → ℕ
sub32 a b = (a + (u32_mod - b % u32_mod)) % u32_mod

-- `((x << 4 ^ x >> 5) + x) ^ k`
unfoldable pub mix : ℕ → ℕ → ℕ
mix x k = xor 32 (add32 (xor 32 (x * 16 % u32_mod) (x / 32)) x) k

-- `memcpy` of a `uint32_t` from and to four bytes, on a little-endian machine.
unfoldable pub word : ℕ → ℕ → ℕ → ℕ → ℕ
word a b c d = a + 256 * b + 65536 * c + 16777216 * d

unfoldable pub put_words : ℕ → ℕ → List ℕ → List ℕ
put_words l r rest =
    l % 256
    ∷ l / 256 % 256
    ∷ l / 65536 % 256
    ∷ l / 16777216 % 256
    ∷ r % 256
    ∷ r / 256 % 256
    ∷ r / 65536 % 256
    ∷ r / 16777216 % 256
    ∷ rest

-- One round of `encrypt` over all blocks.
unfoldable pub encrypt_round : ℕ → ℕ → List ℕ → List ℕ
encrypt_round k0 k1 (a ∷ b ∷ c ∷ d ∷ e ∷ f ∷ g ∷ h ∷ rest) =
    let left = add32 (word a b c d) (mix (word e f g h) k0) in
    let right = add32 (word e f g h) (mix left k1) in
    put_words left right (encrypt_round k0 k1 rest)
encrypt_round k0 k1 bytes = bytes

unfoldable pub decrypt_round : ℕ → ℕ → List ℕ → List ℕ
decrypt_round k0 k1 (a ∷ b ∷ c ∷ d ∷ e ∷ f ∷ g ∷ h ∷ rest) =
    let right = sub32 (word e f g h) (mix (word a b c d) k1) in
    let left = sub32 (word a b c d) (mix right k0) in
    put_words left right (decrypt_round k0 k1 rest)
decrypt_round k0 k1 bytes = bytes

-- `xtea::encrypt`: the rounds take the keys in pairs, from the first.
unfoldable pub encrypt : List ℕ → List ℕ → List ℕ
encrypt (k0 ∷ k1 ∷ ks) bytes = encrypt ks (encrypt_round k0 k1 bytes)
encrypt ks bytes = bytes

-- `xtea::decrypt`: from the last pair.
unfoldable pub decrypt : List ℕ → List ℕ → List ℕ
decrypt (k0 ∷ k1 ∷ ks) bytes = decrypt_round k0 k1 (decrypt ks bytes)
decrypt ks bytes = bytes

abbrev pub delta : ℕ
delta = 2654435769

-- The loop of `xtea::expand_key`, of `n` rounds.
unfoldable pub expand_from : ℕ → List ℕ → ℕ → ℕ → List ℕ
expand_from zero k sum next_sum = []
expand_from (suc n) k sum next_sum =
    add32 sum (get_or k (sum % 4) 0)
    ∷ add32 next_sum (get_or k (next_sum / 2048 % 4) 0)
    ∷ expand_from n k next_sum (add32 next_sum delta)

-- `xtea::expand_key`
unfoldable pub expand_key : List ℕ → List ℕ
expand_key k = expand_from 32 k 0 delta
