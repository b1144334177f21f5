-- ===== src/Network/Checksum.antt =====
-- The checksum: 5552 bytes at a time no sum wraps, and the result is that of Adler's definition,
-- which reduces the sums at each byte.
use projeto_bruxo.Base.{
  ℕ, zero, suc, ◌+◌, ◌-◌, ◌*◌, ◌%◌, ◌<◌, ◌≤◌, ◌≡◌, refl, sym, ap, ◌∙◌, false, List, [], ◌∷◌, ◌++◌,
  ltb, u32_mod, length, take, drop, mul_le_mono, arith,
}
use projeto_bruxo.Network.Framing.{adler, adler_run, adler_rounds, adler_checksum}
use projeto_bruxo.Network.Buffer.{IsBytes, no_byte, byte}

-- Adler's sums.
abbrev pub adler_sums : List ℕ → ℕ × ℕ → ℕ × ℕ
adler_sums [] sums = sums
adler_sums (x ∷ xs) (a, b) = adler_sums xs ((a + x) % adler, (b + (a + x)) % adler)

-- The numbers up to `n`, added up.
abbrev triangle : ℕ → ℕ
triangle zero = 0
triangle (suc n) = suc n + triangle n

-- As long as the largest bytes would not make the sums wrap, the run has the sums but for multiples.
run-sums :
    (xs : List ℕ) (a b : ℕ)
    → IsBytes xs
    → b + length xs * a + 255 * triangle (length xs) < u32_mod
    → a + 255 * length xs < u32_mod
    → adler_sums xs (a % adler, b % adler)
      ≡ ((adler_run xs a b).0 % adler, (adler_run xs a b).1 % adler)
unfolding adler_run
run-sums [] a b v h k = refl
run-sums (x ∷ xs) a b (byte p v) h k =
    let first : (a + x) % u32_mod ≡ a + x = omega arith in
    let n : ℕ = length xs in
    let larger : n * x ≤ n * 255 = let m = mul_le_mono x 255 n (omega arith) in grind arith in
    let spread : suc n * a ≡ a + n * a = grind arith in
    let apart : n * (a + x) ≡ n * a + n * x = grind arith in
    let second : (b + (a + x)) % u32_mod ≡ b + (a + x) = omega arith in
    let sum_a : (a % adler + x) % adler ≡ (a + x) % adler = omega arith in
    let sum_b : (b % adler + (a % adler + x)) % adler ≡ (b + (a + x)) % adler = omega arith in
    let rest =
      run-sums xs (a + x) (b + (a + x)) v (omega (h, larger, spread, apart, arith)) (omega arith) in
    let same : adler_sums (x ∷ xs) (a % adler, b % adler)
        ≡ adler_sums xs ((a + x) % adler, (b + (a + x)) % adler) =
      rw (sum_a, sum_b) refl in
    let step : adler_run (x ∷ xs) a b ≡ adler_run xs (a + x) (b + (a + x)) =
      ap (λ s. adler_run xs s ((b + s) % u32_mod)) first ∙ ap (adler_run xs (a + x)) second in
    same ∙ rest ∙ ap (λ s. (s.0 % adler, s.1 % adler)) (sym step)

triangle_lem : (n : ℕ) → 2 * triangle n ≡ n * suc n
triangle_lem zero = refl
triangle_lem (suc n) = let e = triangle_lem n in grind arith

-- Up to 5552 bytes from reduced sums do not wrap.
room_lem : (n a b : ℕ) → n ≤ 5552 → a < 65521 → b < 65521 → b + n * a + 255 * triangle n < u32_mod
room_lem n a b h p q =
    let one = mul_le_mono n 5552 a h in
    let two = mul_le_mono n 5552 (suc n) h in
    let sum = triangle_lem n in
    let product : n * suc n ≤ 5552 * 5553 = omega (two, h, arith) in
    omega (one, product, sum, p, q, arith)

sums-append :
    (xs ys : List ℕ) (s : ℕ × ℕ) → adler_sums (xs ++ ys) s ≡ adler_sums ys (adler_sums xs s)
sums-append [] ys s = refl
sums-append (x ∷ xs) ys (a, b) = sums-append xs ys _

take-drop : (n : ℕ) (xs : List ℕ) → take n xs ++ drop n xs ≡ xs
take-drop zero xs = refl
take-drop (suc n) [] = refl
take-drop (suc n) (x ∷ xs) = ap (λ l. x ∷ l) (take-drop n xs)

length-take : (n : ℕ) (xs : List ℕ) → length (take n xs) ≤ n
length-take zero xs = omega arith
length-take (suc n) [] = omega arith
length-take (suc n) (x ∷ xs) = omega (arith, length-take n xs)

length-drop : (n : ℕ) (xs : List ℕ) → length (drop n xs) ≡ length xs - n
length-drop zero xs = omega arith
length-drop (suc n) [] = omega arith
length-drop (suc n) (x ∷ xs) = omega (arith, length-drop n xs)

take-IsBytes : (n : ℕ) {xs : List ℕ} → IsBytes xs → IsBytes (take n xs)
take-IsBytes zero v = no_byte
take-IsBytes (suc n) no_byte = no_byte
take-IsBytes (suc n) (byte h v) = byte h (take-IsBytes n v)

drop-IsBytes : (n : ℕ) {xs : List ℕ} → IsBytes xs → IsBytes (drop n xs)
drop-IsBytes zero v = v
drop-IsBytes (suc n) no_byte = no_byte
drop-IsBytes (suc n) (byte h v) = drop-IsBytes n v

rounds-sums :
    (fuel : ℕ) (xs : List ℕ) (a b : ℕ)
    → IsBytes xs
    → length xs ≤ fuel
    → a < 65521
    → b < 65521
    → adler_rounds fuel xs (a, b) ≡ adler_sums xs (a, b)
unfolding adler_rounds
rounds-sums fuel [] a b v h p q = refl
rounds-sums zero (x ∷ xs) a b v h p q = absurd (omega arith)
rounds-sums (suc fuel) (x ∷ xs) a b v h p q =
    let chunk : List ℕ = take 5552 (x ∷ xs) in
    let rest : List ℕ = drop 5552 (x ∷ xs) in
    let short : length chunk ≤ 5552 = length-take 5552 (x ∷ xs) in
    let fewer : length rest ≡ length (x ∷ xs) - 5552 = length-drop 5552 (x ∷ xs) in
    let reduced_a : a % 65521 ≡ a = omega arith in
    let reduced_b : b % 65521 ≡ b = omega arith in
    let start : adler_sums chunk (a, b) ≡ adler_sums chunk (a % 65521, b % 65521) =
      rw (reduced_a, reduced_b) refl in
    let run =
      run-sums chunk a b (take-IsBytes 5552 v) (room_lem (length chunk) a b short p q)
        (omega (short, p, arith)) in
    let later =
      rounds-sums fuel rest ((adler_run chunk a b).0 % 65521) ((adler_run chunk a b).1 % 65521)
        (drop-IsBytes 5552 v) (omega (fewer, h, arith)) (omega arith) (omega arith) in
    later
    ∙ ap (adler_sums rest) (sym (start ∙ run))
    ∙ sym (sums-append chunk rest (a, b))
    ∙ ap (λ l. adler_sums l (a, b)) (take-drop 5552 (x ∷ xs))

sums-below :
    (xs : List ℕ) (a b : ℕ)
    → a < 65521
    → b < 65521
    → ((adler_sums xs (a, b)).0 < 65521) × ((adler_sums xs (a, b)).1 < 65521)
sums-below [] a b p q = (p, q)
sums-below (x ∷ xs) a b p q =
    sums-below xs ((a + x) % adler) ((b + (a + x)) % adler) (omega arith) (omega arith)

-- For at most 24590 bytes: adlerChecksum is 65536 times the second of Adler's sums and the first,
-- where each sum is reduced modulo 65521 at each byte; no addition of the source wraps.
pub adler_checksum-sums :
    (xs : List ℕ)
    → IsBytes xs
    → length xs ≤ 24590
    → adler_checksum xs ≡ (adler_sums xs (1, 0)).1 * 65536 + (adler_sums xs (1, 0)).0
unfolding adler_checksum
adler_checksum-sums xs v h =
    let sums = rounds-sums (length xs) xs 1 0 v (omega arith) (omega arith) (omega arith) in
    let below = sums-below xs 1 0 (omega arith) (omega arith) in
    let fits : ltb 24590 (length xs) ≡ false = ground arith in
    let word : ((adler_sums xs (1, 0)).1 * 65536 + (adler_sums xs (1, 0)).0) % u32_mod
        ≡ (adler_sums xs (1, 0)).1 * 65536 + (adler_sums xs (1, 0)).0 =
      omega (below.0, below.1, arith) in
    rw (fits, sums, word) refl
