-- ===== src/Stream/RoundTrip.antt =====
-- What was written is read back.
use projeto_bruxo.Base.{
  ℕ, zero, suc, ◌+◌, ◌*◌, ◌/◌, ◌%◌, ◌≤◌, ◌<◌, ◌≡◌, refl, ap, false, some, List, [], ◌∷◌, ◌++◌, ltb,
  u16_mod, length, length-append, take, drop, arith,
}
use mathlib.Core.List.{append_assoc}
use projeto_bruxo.Stream.{value_of, bytes_of, read, read_string, write, write_string}

pub length-bytes_of : (n x : ℕ) → length (bytes_of n x) ≡ n
unfolding bytes_of
length-bytes_of zero x = refl
length-bytes_of (suc n) x = ap suc (length-bytes_of n (x / 256))

-- The width in values: 256 ^ n.
abbrev pub values : ℕ → ℕ
values zero = 1
values (suc n) = 256 * values n

pub value_of-bytes_of :
    (n x : ℕ) (rest : List ℕ) → x < values n → value_of n (bytes_of n x ++ rest) ≡ x
unfolding value_of bytes_of
value_of-bytes_of zero x rest h = omega arith
value_of-bytes_of (suc n) x rest h = omega (arith, value_of-bytes_of n (x / 256) rest (omega arith))

drop-append : (xs rest : List ℕ) → drop (length xs) (xs ++ rest) ≡ rest
drop-append [] rest = refl
drop-append (x ∷ xs) rest = drop-append xs rest

take-append : (xs rest : List ℕ) → take (length xs) (xs ++ rest) ≡ xs
take-append [] rest = refl
take-append (x ∷ xs) rest = ap (λ l. x ∷ l) (take-append xs rest)

drop-bytes_of : (n x : ℕ) (rest : List ℕ) → drop n (bytes_of n x ++ rest) ≡ rest
unfolding bytes_of
drop-bytes_of zero x rest = refl
drop-bytes_of (suc n) x rest = drop-bytes_of n (x / 256) rest

not_short : (xs rest : List ℕ) → ltb (length (xs ++ rest)) (length xs) ≡ false
not_short xs rest = ground (arith, length-append xs rest)

-- A number that fits its width is read back from where it was written, and the stream stands after it.
pub read-write :
    (n x : ℕ) (rest : List ℕ) → x < values n → read n (write n x [] ++ rest) ≡ (some x, rest)
unfolding read write
read-write n x rest h =
    let e : ltb (length (bytes_of n x ++ rest)) n ≡ false =
      ground (arith, length-append (bytes_of n x) rest, length-bytes_of n x) in
    rw (e, value_of-bytes_of n x rest h, drop-bytes_of n x rest) refl

written :
    (str rest : List ℕ)
    → length str ≤ 65535
    → write_string str [] ++ rest ≡ write 2 (length str) [] ++ (str ++ rest)
unfolding write_string write
written str rest h =
    let e : ltb 65535 (length str) ≡ false = ground arith in
    let f : length str % u16_mod ≡ length str = omega arith in
    rw (e, f) (append_assoc (bytes_of 2 (length str)) str rest)

-- A text of at most 65535 bytes is read back from where it was written.
pub read_string-write_string :
    (str rest : List ℕ)
    → length str ≤ 65535
    → read_string (write_string str [] ++ rest) ≡ (some str, rest)
unfolding read_string
read_string-write_string str rest h =
    rw
      (
        written str rest h,
        read-write 2 (length str) (str ++ rest) (omega arith),
        not_short str rest,
        take-append str rest,
        drop-append str rest,
      )
      refl

-- A byte is read from the front.
pub read_byte_lem : (b : ℕ) (s : List ℕ) → read 1 (b ∷ s) ≡ (some b, s)
unfolding read value_of
read_byte_lem b s =
    let e : ltb (suc (length s)) 1 ≡ false = ground arith in
    let f : b + 256 * 0 ≡ b = omega arith in rw (e, f) refl
