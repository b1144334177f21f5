-- ===== src/Xtea/RoundTrip.antt =====
-- `decrypt` undoes `encrypt`.
use projeto_bruxo.Base.{ℕ, ◌/◌, ◌%◌, ◌<◌, ◌≡◌, refl, List, [], ◌∷◌, u32_mod, arith}
use projeto_bruxo.Xtea.{
  add32, sub32, mix, word, put_words, encrypt_round, decrypt_round, encrypt, decrypt,
}

-- Whole blocks of eight bytes.
pub data IsBlocks : List ℕ → Type 0 where
  none_left : IsBlocks []
  block :
      {a b c d e f g h : ℕ} {rest : List ℕ}
      → a < 256
      → b < 256
      → c < 256
      → d < 256
      → e < 256
      → f < 256
      → g < 256
      → h < 256
      → IsBlocks rest
      → IsBlocks (a ∷ b ∷ c ∷ d ∷ e ∷ f ∷ g ∷ h ∷ rest)

sub32-add32 : (a m : ℕ) → a < u32_mod → sub32 (add32 a m) m ≡ a
unfolding sub32 add32
sub32-add32 a m h = omega arith

-- A word below 2^32 is what its four bytes give.
word_lem :
    (l : ℕ)
    → l < u32_mod
    → word (l % 256) (l / 256 % 256) (l / 65536 % 256) (l / 16777216 % 256) ≡ l
unfolding word
word_lem l h = omega arith

word-below : (a b c d : ℕ) → a < 256 → b < 256 → c < 256 → d < 256 → word a b c d < u32_mod
unfolding word
word-below a b c d p q r s = omega arith

add32-below : (a b : ℕ) → add32 a b < u32_mod
unfolding add32
add32-below a b = omega arith

byte0 : (a b c d : ℕ) → a < 256 → word a b c d % 256 ≡ a
unfolding word
byte0 a b c d p = omega arith

byte1 : (a b c d : ℕ) → a < 256 → b < 256 → word a b c d / 256 % 256 ≡ b
unfolding word
byte1 a b c d p q = omega arith

byte2 : (a b c d : ℕ) → a < 256 → b < 256 → c < 256 → word a b c d / 65536 % 256 ≡ c
unfolding word
byte2 a b c d p q r = omega arith

byte3 : (a b c d : ℕ) → a < 256 → b < 256 → c < 256 → d < 256 → word a b c d / 16777216 % 256 ≡ d
unfolding word
byte3 a b c d p q r s = omega arith

put_words_lem :
    (a b c d e f g h : ℕ) (rest : List ℕ)
    → a < 256
    → b < 256
    → c < 256
    → d < 256
    → e < 256
    → f < 256
    → g < 256
    → h < 256
    → put_words (word a b c d) (word e f g h) rest ≡ a ∷ b ∷ c ∷ d ∷ e ∷ f ∷ g ∷ h ∷ rest
unfolding put_words
put_words_lem a b c d e f g h rest p q r s t u v w =
    rw
      (
        byte0 a b c d p,
        byte1 a b c d p q,
        byte2 a b c d p q r,
        byte3 a b c d p q r s,
        byte0 e f g h t,
        byte1 e f g h t u,
        byte2 e f g h t u v,
        byte3 e f g h t u v w,
      )
      refl

pub encrypt_round-IsBlocks :
    (k0 k1 : ℕ) {bytes : List ℕ} → IsBlocks bytes → IsBlocks (encrypt_round k0 k1 bytes)
unfolding encrypt_round put_words
encrypt_round-IsBlocks k0 k1 none_left = none_left
encrypt_round-IsBlocks k0 k1 (block p q r s t u v w rest) =
    block (omega arith) (omega arith) (omega arith) (omega arith) (omega arith) (omega arith)
      (omega arith) (omega arith) (encrypt_round-IsBlocks k0 k1 rest)

-- A round of decryption on a block whose two words are known.
decrypt_round-put_words :
    (k0 k1 l r : ℕ) (rest : List ℕ)
    → l < u32_mod
    → r < u32_mod
    → decrypt_round k0 k1 (put_words l r rest) ≡ (
        let right = sub32 r (mix l k1) in
        put_words (sub32 l (mix right k0)) right (decrypt_round k0 k1 rest))
unfolding decrypt_round put_words
decrypt_round-put_words k0 k1 l r rest p q = rw (word_lem l p, word_lem r q) refl

-- One round is undone, whatever the two keys.
decrypt_round-encrypt_round :
    (k0 k1 : ℕ) {bytes : List ℕ}
    → IsBlocks bytes
    → decrypt_round k0 k1 (encrypt_round k0 k1 bytes) ≡ bytes
unfolding encrypt_round decrypt_round
decrypt_round-encrypt_round k0 k1 none_left = refl
decrypt_round-encrypt_round k0 k1
      (block {a = a} {b = b} {c = c} {d = d} {e = e} {f = f} {g = g} {h = h} {rest = y} p q r s t u
        v w rest) =
    let left = add32 (word a b c d) (mix (word e f g h) k0) in
    let right = add32 (word e f g h) (mix left k1) in
    rw
      (
        decrypt_round-put_words k0 k1 left right (encrypt_round k0 k1 y)
            (add32-below (word a b c d) (mix (word e f g h) k0))
            (add32-below (word e f g h) (mix left k1)),
        sub32-add32 (word e f g h) (mix left k1) (word-below e f g h t u v w),
        sub32-add32 (word a b c d) (mix (word e f g h) k0) (word-below a b c d p q r s),
        decrypt_round-encrypt_round k0 k1 rest,
      )
      (put_words_lem a b c d e f g h y p q r s t u v w)

-- Decryption undoes encryption of whole blocks, with any round keys.
pub decrypt-encrypt :
    (ks : List ℕ) {bytes : List ℕ} → IsBlocks bytes → decrypt ks (encrypt ks bytes) ≡ bytes
unfolding encrypt decrypt
decrypt-encrypt [] v = refl
decrypt-encrypt (k ∷ []) v = refl
decrypt-encrypt (k0 ∷ k1 ∷ ks) v =
    rw (decrypt-encrypt ks (encrypt_round-IsBlocks k0 k1 v)) (decrypt_round-encrypt_round k0 k1 v)
