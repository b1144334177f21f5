-- ===== src/Xtea/Examples.antt =====
-- The vectors of tests/test_xtea.cpp, and the theorem at them.
use projeto_bruxo.Base.{ℕ, List, [], ◌∷◌, ◌≡◌, refl, arith, take}
use projeto_bruxo.Xtea.{
  xor, add32, sub32, mix, word, put_words, encrypt_round, decrypt_round, encrypt, decrypt,
  expand_from, expand_key,
}
use projeto_bruxo.Xtea.RoundTrip.{IsBlocks, block, none_left, decrypt-encrypt}

-- 0xdeadbeef
abbrev beef : List ℕ
beef = 3735928559 ∷ 3735928559 ∷ 3735928559 ∷ 3735928559 ∷ []

abbrev plain_bytes : List ℕ
plain_bytes = 239 ∷ 190 ∷ 173 ∷ 222 ∷ 239 ∷ 190 ∷ 173 ∷ 222 ∷ []

abbrev cipher_bytes : List ℕ
cipher_bytes = 181 ∷ 140 ∷ 242 ∷ 250 ∷ 224 ∷ 192 ∷ 64 ∷ 9 ∷ []

beef_keys :
    take 6 (expand_key beef)
    ≡ 3735928559 ∷ 2095397032 ∷ 2095397032 ∷ 454865505 ∷ 454865505 ∷ 3109301274 ∷ []
unfolding expand_key expand_from add32
beef_keys = refl

beef_encrypts : encrypt (expand_key beef) plain_bytes ≡ cipher_bytes
unfolding expand_key expand_from add32 encrypt encrypt_round put_words word mix xor
beef_encrypts = refl

beef_decrypts : decrypt (expand_key beef) cipher_bytes ≡ plain_bytes
unfolding expand_key expand_from add32 sub32 decrypt decrypt_round put_words word mix xor
beef_decrypts = refl

plain_bytes-IsBlocks : IsBlocks plain_bytes
plain_bytes-IsBlocks =
    block (omega arith) (omega arith) (omega arith) (omega arith) (omega arith) (omega arith)
      (omega arith) (omega arith) none_left

decrypt-encrypt_example :
    decrypt (expand_key beef) (encrypt (expand_key beef) plain_bytes) ≡ plain_bytes
decrypt-encrypt_example = decrypt-encrypt (expand_key beef) plain_bytes-IsBlocks
