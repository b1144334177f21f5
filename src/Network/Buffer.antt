-- ===== src/Network/Buffer.antt =====
-- Bytes in a buffer: what is written is read, and nothing else changes.
use projeto_bruxo.Base.{
  ℕ, zero, suc, ◌+◌, ◌<◌, ◌≤◌, ◌≡◌, ◌⊎◌, inl, inr, refl, sym, ap, ◌∙◌, List, [], ◌∷◌, ◌++◌, ◌%◌,
  ◌/◌, replicate, length, arith,
}
use projeto_bruxo.Stream.{bytes_of, value_of}
use projeto_bruxo.Stream.RoundTrip.{values, value_of-bytes_of}
use projeto_bruxo.Xtea.RoundTrip.{IsBlocks, none_left, block}
use projeto_bruxo.Network.{read_bytes, write_bytes}

pub length-read_bytes : (b : ℕ → ℕ) (s n : ℕ) → length (read_bytes b s n) ≡ n
unfolding read_bytes
length-read_bytes b s zero = refl
length-read_bytes b s (suc n) = ap suc (length-read_bytes b (suc s) n)

-- Bytes before `s`, and from the end of what is written there on, stay.
pub write_bytes-else :
    (b : ℕ → ℕ) (s : ℕ) (xs : List ℕ) (k : ℕ)
    → (k < s) ⊎ (s + length xs ≤ k)
    → write_bytes b s xs k ≡ b k
unfolding write_bytes
write_bytes-else b s [] k h = refl
write_bytes-else b s (x ∷ xs) k (inl h) =
    let rest = write_bytes-else b (suc s) xs k (inl (omega arith)) in ground arith
write_bytes-else b s (x ∷ xs) k (inr h) =
    let rest = write_bytes-else b (suc s) xs k (inr (omega arith)) in ground arith

-- Buffers that agree where one reads.
pub read_bytes-agree :
    (b c : ℕ → ℕ) (s n : ℕ)
    → ((k : ℕ) → s ≤ k → k < s + n → b k ≡ c k)
    → read_bytes b s n ≡ read_bytes c s n
unfolding read_bytes
read_bytes-agree b c s zero h = refl
read_bytes-agree b c s (suc n) h = cc (
  h s (omega arith) (omega arith),
  read_bytes-agree b c (suc s) n (λ k p q. h k (omega arith) (omega arith)),
)

-- What is read away from what is written stays.
pub read_bytes-apart :
    (b : ℕ → ℕ) (s : ℕ) (xs : List ℕ) (t n : ℕ)
    → (t + n ≤ s) ⊎ (s + length xs ≤ t)
    → read_bytes (write_bytes b s xs) t n ≡ read_bytes b t n
read_bytes-apart b s xs t n (inl h) =
    read_bytes-agree (write_bytes b s xs) b t n
      (λ k p q. write_bytes-else b s xs k (inl (omega arith)))
read_bytes-apart b s xs t n (inr h) =
    read_bytes-agree (write_bytes b s xs) b t n
      (λ k p q. write_bytes-else b s xs k (inr (omega arith)))

pub read_bytes-write_bytes :
    (b : ℕ → ℕ) (s : ℕ) (xs : List ℕ) → read_bytes (write_bytes b s xs) s (length xs) ≡ xs
unfolding read_bytes write_bytes
read_bytes-write_bytes b s [] = refl
read_bytes-write_bytes b s (x ∷ xs) =
    let head : write_bytes b s (x ∷ xs) s ≡ x = ground arith in
    let tail =
      read_bytes-agree (write_bytes b s (x ∷ xs)) (write_bytes b (suc s) xs) (suc s) (length xs)
        (λ k p q. ground arith) in
    cc (head, tail, read_bytes-write_bytes b (suc s) xs)

-- Reading on: the first `m` bytes, and those behind them.
pub read_bytes_append :
    (b : ℕ → ℕ) (s m n : ℕ) → read_bytes b s (m + n) ≡ read_bytes b s m ++ read_bytes b (s + m) n
unfolding read_bytes
read_bytes_append b s zero n =
    let start : s ≡ s + 0 = omega arith in
    let none : 0 + n ≡ n = omega arith in rw none (ap (λ t. read_bytes b t n) start)
read_bytes_append b s (suc m) n =
    let more : suc m + n ≡ suc (m + n) = omega arith in
    let next : suc s + m ≡ s + suc m = omega arith in
    rw (more, sym next) (ap (λ l. b s ∷ l) (read_bytes_append b (suc s) m n))

append_inj :
    (xs ys zs ws : List ℕ) → length xs ≡ length zs → xs ++ ys ≡ zs ++ ws → (xs ≡ zs) × (ys ≡ ws)
append_inj [] ys [] ws l e = (refl, e)
append_inj [] ys (z ∷ zs) ws l e = absurd (omega arith)
append_inj (x ∷ xs) ys [] ws l e = absurd (omega arith)
append_inj (x ∷ xs) ys (z ∷ zs) ws l e =
    let first : x ≡ z = cc e in
    let rest = append_inj xs ys zs ws (omega arith) (cc e) in (cc (first, rest.0), rest.1)

-- Where two pieces stand, each stands in its place.
pub read_bytes_split :
    (b : ℕ → ℕ) (s : ℕ) (xs ys : List ℕ) (m n : ℕ)
    → length xs ≡ m
    → read_bytes b s (m + n) ≡ xs ++ ys
    → (read_bytes b s m ≡ xs) × (read_bytes b (s + m) n ≡ ys)
read_bytes_split b s xs ys m n l e =
    append_inj (read_bytes b s m) (read_bytes b (s + m) n) xs ys (length-read_bytes b s m ∙ sym l)
      (sym (read_bytes_append b s m n) ∙ e)

-- Bytes written right before others.
pub read_bytes_before :
    (b : ℕ → ℕ) (s : ℕ) (xs ys : List ℕ) (n : ℕ)
    → read_bytes b (s + length xs) n ≡ ys
    → read_bytes (write_bytes b s xs) s (length xs + n) ≡ xs ++ ys
read_bytes_before b s xs ys n e =
    read_bytes_append (write_bytes b s xs) s (length xs) n
    ∙ cc (
      read_bytes-write_bytes b s xs,
      read_bytes-apart b s xs (s + length xs) n (inr (omega arith)),
      e,
    )

-- Bytes written right behind others.
pub read_bytes_behind :
    (b : ℕ → ℕ) (s : ℕ) (xs ys : List ℕ) (m : ℕ)
    → read_bytes b s m ≡ xs
    → read_bytes (write_bytes b (s + m) ys) s (m + length ys) ≡ xs ++ ys
read_bytes_behind b s xs ys m e =
    read_bytes_append (write_bytes b (s + m) ys) s m (length ys)
    ∙ cc (
      read_bytes-write_bytes b (s + m) ys,
      read_bytes-apart b (s + m) ys s m (inl (omega arith)),
      e,
    )

pub read_bytes_move :
    (b : ℕ → ℕ) {s t m n : ℕ} → s ≡ t → m ≡ n → read_bytes b s m ≡ read_bytes b t n
read_bytes_move b e f = cc (e, f)

-- The elements are bytes.
pub data IsBytes : List ℕ → Type 0 where
  no_byte : IsBytes []
  byte : {x : ℕ} {xs : List ℕ} → x < 256 → IsBytes xs → IsBytes (x ∷ xs)

pub append-IsBytes : {xs ys : List ℕ} → IsBytes xs → IsBytes ys → IsBytes (xs ++ ys)
append-IsBytes no_byte w = w
append-IsBytes (byte h v) w = byte h (append-IsBytes v w)

pub read_bytes-IsBytes : (b : ℕ → ℕ) (s n : ℕ) → ((k : ℕ) → b k < 256) → IsBytes (read_bytes b s n)
unfolding read_bytes
read_bytes-IsBytes b s zero h = no_byte
read_bytes-IsBytes b s (suc n) h = byte (h s) (read_bytes-IsBytes b (suc s) n h)

pub replicate-IsBytes : (n x : ℕ) → x < 256 → IsBytes (replicate n x)
replicate-IsBytes zero x h = no_byte
replicate-IsBytes (suc n) x h = byte h (replicate-IsBytes n x h)

pub bytes_of-IsBytes : (n x : ℕ) → IsBytes (bytes_of n x)
unfolding bytes_of
bytes_of-IsBytes zero x = no_byte
bytes_of-IsBytes (suc n) x = byte (omega arith) (bytes_of-IsBytes n (x / 256))

-- Bytes in whole blocks of eight.
pub IsBlocks-of_IsBytes : (xs : List ℕ) → IsBytes xs → length xs % 8 ≡ 0 → IsBlocks xs
IsBlocks-of_IsBytes [] v e = none_left
IsBlocks-of_IsBytes (a ∷ []) v e = absurd (omega arith)
IsBlocks-of_IsBytes (a ∷ b ∷ []) v e = absurd (omega arith)
IsBlocks-of_IsBytes (a ∷ b ∷ c ∷ []) v e = absurd (omega arith)
IsBlocks-of_IsBytes (a ∷ b ∷ c ∷ d ∷ []) v e = absurd (omega arith)
IsBlocks-of_IsBytes (a ∷ b ∷ c ∷ d ∷ f ∷ []) v e = absurd (omega arith)
IsBlocks-of_IsBytes (a ∷ b ∷ c ∷ d ∷ f ∷ g ∷ []) v e = absurd (omega arith)
IsBlocks-of_IsBytes (a ∷ b ∷ c ∷ d ∷ f ∷ g ∷ h ∷ []) v e = absurd (omega arith)
IsBlocks-of_IsBytes (a ∷ b ∷ c ∷ d ∷ f ∷ g ∷ h ∷ i ∷ xs)
      (byte p (byte q (byte r (byte s (byte t (byte u (byte w (byte z v)))))))) e =
    block p q r s t u w z (IsBlocks-of_IsBytes xs v (omega arith))

pub length-IsBlocks : {xs : List ℕ} → IsBlocks xs → length xs % 8 ≡ 0
length-IsBlocks none_left = refl
length-IsBlocks (block p q r s t u w z rest) = omega (length-IsBlocks rest, arith)

pub append_nil : (xs : List ℕ) → xs ++ [] ≡ xs
append_nil [] = refl
append_nil (x ∷ xs) = ap (λ l. x ∷ l) (append_nil xs)

-- A number is what its bytes give.
pub value_of-number : (n v : ℕ) → v < values n → value_of n (bytes_of n v) ≡ v
value_of-number n v h =
    ap (value_of n) (sym (append_nil (bytes_of n v))) ∙ value_of-bytes_of n v [] h
