-- ===== src/Sockets/Buffer.antt =====
-- Buffers and the strings in them.
use collection_of_mini_proje.Prelude.{
  ℕ, zero, suc, ◌-◌, ◌≤◌, ◌<◌, ◌≡◌, refl, ap, true, ltb, none, some, List, [], ◌∷◌, ◌++◌, length,
  drop, take, arith, length-append,
}
use collection_of_mini_proje.Sockets.{zeros, overlay, put, c_string, extract}

-- No byte is zero, so that the bytes are a string.
abbrev pub NonZero : List ℕ → Type 0
NonZero [] = Unit
NonZero (c ∷ s) = (0 < c) × NonZero s

pub length-zeros : (n : ℕ) → length (zeros n) ≡ n
unfolding zeros
length-zeros zero = refl
length-zeros (suc n) = omega (arith, length-zeros n)

pub length-drop : (n : ℕ) (xs : List ℕ) → length (drop n xs) ≡ length xs - n
length-drop zero xs = omega arith
length-drop (suc n) [] = omega arith
length-drop (suc n) (x ∷ xs) = omega (arith, length-drop n xs)

pub take-append : (xs ys : List ℕ) → take (length xs) (xs ++ ys) ≡ xs
take-append [] ys = refl
take-append (x ∷ xs) ys = ap (λ z. x ∷ z) (take-append xs ys)

pub take-short : (n : ℕ) (s : List ℕ) → length s ≤ n → take n s ≡ s
take-short zero [] h = refl
take-short zero (c ∷ s) h = absurd (omega arith)
take-short (suc n) [] h = refl
take-short (suc n) (c ∷ s) h = ap (λ t. c ∷ t) (take-short n s (omega arith))

-- The string ends at the first zero.
pub c_string-append : (s buf : List ℕ) → NonZero s → c_string (s ++ (0 ∷ buf)) ≡ some s
unfolding c_string
c_string-append [] buf h = refl
c_string-append (c ∷ s) buf h = ground (arith, c_string-append s buf h.1)

-- With no zero there is no string.
pub c_string-NonZero : (s : List ℕ) → NonZero s → c_string s ≡ none
unfolding c_string
c_string-NonZero [] h = refl
c_string-NonZero (c ∷ s) h = ground (arith, c_string-NonZero s h.1)

-- A store behind a prefix.
pub put-append :
    (s buf : List ℕ) (c b : ℕ) → put (length s) b (s ++ (c ∷ buf)) ≡ some (s ++ (b ∷ buf))
unfolding put
put-append [] buf c b = refl
put-append (x ∷ s) buf c b = rw (put-append s buf c b)

pub put_out : (i b : ℕ) (buf : List ℕ) → length buf ≤ i → put i b buf ≡ none
unfolding put
put_out i b [] h = refl
put_out zero b (c ∷ buf) h = absurd (omega arith)
put_out (suc i) b (c ∷ buf) h = rw (put_out i b buf (omega arith))

-- Bytes that fill a buffer leave no room for a store behind them.
pub put_full :
    (bytes buf : List ℕ)
    → length bytes ≡ length buf
    → put (length bytes) 0 (overlay bytes buf) ≡ none
put_full bytes buf full = put_out (length bytes) 0 (overlay bytes buf) (
    omega
      (arith, full, length-append bytes (drop (length bytes) buf), length-drop (length bytes) buf))

-- A list that is long enough has an element behind a prefix of another's length.
pub drop-cons :
    (n : ℕ) (xs : List ℕ) → n < length xs → (c : ℕ) × (ys : List ℕ) × (drop n xs ≡ c ∷ ys)
drop-cons n [] h = absurd (omega arith)
drop-cons zero (x ∷ xs) h = (x, xs, refl)
drop-cons (suc n) (x ∷ xs) h = drop-cons n xs (omega arith)

-- Bytes with a zero stored behind them are a string.
pub terminated :
    (s buf : List ℕ)
    → NonZero s
    → length s < length buf
    → (buf' : List ℕ) × (put (length s) 0 (overlay s buf) ≡ some buf')
      × (c_string buf' ≡ some s)
      × (length buf' ≡ length buf)
terminated s buf h short =
    let (c, ys, e) = drop-cons (length s) buf short in
    (
      s ++ (0 ∷ ys),
      rw e (put-append s ys c 0),
      c_string-append s ys h,
      omega (arith, length-append s (0 ∷ ys), ap length e, length-drop (length s) buf),
    )

pub drop-zeros : (m n : ℕ) → m < n → drop m (zeros n) ≡ 0 ∷ zeros (n - m - 1)
unfolding zeros
drop-zeros m zero h = absurd (omega arith)
drop-zeros zero (suc n) h = let e : suc n - 0 - 1 ≡ n = omega arith in rw e
drop-zeros (suc m) (suc n) h =
    let e : suc n - suc m - 1 ≡ n - m - 1 = omega arith in rw e (drop-zeros m n (omega arith))

-- Bytes over a buffer of zeros are a string.
pub zeroed :
    (s : List ℕ) (n : ℕ) → NonZero s → length s < n → c_string (overlay s (zeros n)) ≡ some s
zeroed s n h short = rw (drop-zeros (length s) n short) (c_string-append s _ h)

-- A word that fits is a string, and keeps the size of the buffer.
pub extracted :
    (w buf : List ℕ)
    → NonZero w
    → length w < length buf
    → (buf' : List ℕ) × (extract w buf ≡ some buf')
      × (c_string buf' ≡ some w)
      × (length buf' ≡ length buf)
unfolding extract
extracted w buf h short =
    let fits : ltb (length w) (length buf) ≡ true = ground arith in
    let rest = drop (suc (length w)) buf in
    (
      w ++ (0 ∷ rest),
      rw fits,
      c_string-append w rest h,
      omega (arith, length-append w (0 ∷ rest), length-drop (suc (length w)) buf),
    )
