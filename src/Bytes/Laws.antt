-- ===== src/Bytes/Laws.antt =====
-- Laws of the string operations.
use volute.Prelude.{
  ℕ, drop, take, ◌+◌, ◌-◌, zero, suc, ◌*◌, ◌/◌, ◌≤◌, ◌<◌, ◌≡◌, refl, Bool, true, false, some, [],
  ◌∷◌, ◌++◌, length, ltb, length-append, length-take, length-drop, take-take, drop-drop,
  drop-length-append, get_elem?-append, arith, Bool-cases, inl, inr,
}
use volute.Bytes.{
  is_char_boundary, get_from, slice, Bytes, bytes_eq, strip_prefix, starts_with, all, count_while,
  decimal_rounds, decimal,
}

pub bytes_eq→≡ : (xs ys : Bytes) → bytes_eq xs ys ≡ true → xs ≡ ys
unfolding bytes_eq
bytes_eq→≡ [] [] h = refl
bytes_eq→≡ [] (y ∷ ys) h = cc
bytes_eq→≡ (x ∷ xs) [] h = cc
bytes_eq→≡ (x ∷ xs) (y ∷ ys) h = ground (arith, bytes_eq→≡ xs ys)

pub bytes_eq_refl : (xs : Bytes) → bytes_eq xs xs ≡ true
unfolding bytes_eq
bytes_eq_refl [] = refl
bytes_eq_refl (x ∷ xs) = ground (arith, bytes_eq_refl xs)

pub strip_prefix-append : (p xs : Bytes) → strip_prefix p (p ++ xs) ≡ some xs
unfolding strip_prefix
strip_prefix-append [] xs = refl
strip_prefix-append (b ∷ p) xs = ground (arith, strip_prefix-append p xs)

pub strip_prefix→append :
    (p text : Bytes) {xs : Bytes} → strip_prefix p text ≡ some xs → text ≡ p ++ xs
unfolding strip_prefix
strip_prefix→append [] text h = ground arith
strip_prefix→append (b ∷ p) [] h = cc
strip_prefix→append (b ∷ p) (x ∷ text) {xs} h = ground (arith, strip_prefix→append p text {xs = xs})

pub starts_with-append : (p xs : Bytes) → starts_with p (p ++ xs) ≡ true
unfolding starts_with
starts_with-append [] xs = refl
starts_with-append (b ∷ p) xs = ground (arith, starts_with-append p xs)

pub all-append :
    (p : ℕ → Bool) (xs ys : Bytes) → all p xs ≡ true → all p ys ≡ true → all p (xs ++ ys) ≡ true
unfolding all
all-append p [] ys h k = k
all-append p (x ∷ xs) ys h k = ground (arith, all-append p xs ys)

-- The bytes that are counted end where a byte fails the test.
pub count_while-append :
    (p : ℕ → Bool) (xs : Bytes) (y : ℕ) (ys : Bytes)
    → all p xs ≡ true
    → p y ≡ false
    → count_while p (xs ++ (y ∷ ys)) ≡ length xs
unfolding count_while all
count_while-append p [] y ys h k = ground arith
count_while-append p (x ∷ xs) y ys h k = ground (arith, count_while-append p xs y ys)

abbrev pub pow10 : ℕ → ℕ
pow10 zero = 1
pow10 (suc k) = 10 * pow10 k

length-decimal_rounds :
    (k rounds n : ℕ) → n < pow10 (suc k) → length (decimal_rounds rounds n) ≤ suc k
unfolding decimal_rounds
length-decimal_rounds k zero n h = omega arith
length-decimal_rounds zero (suc rounds) n h = ground arith
length-decimal_rounds (suc k) (suc rounds) n h = elim (Bool-cases (ltb n 10)) [
  | inl one ↦ rw one (omega arith)
  | inr more ↦
      rw (more, length-append)
        (omega (arith, length-decimal_rounds k rounds (n / 10) (omega arith)))
]

-- A number below 10 ^ k is printed with at most k digits.
pub length-decimal : (k n : ℕ) → n < pow10 (suc k) → length (decimal n) ≤ suc k
unfolding decimal
length-decimal k n h = length-decimal_rounds k (suc n) n h

pub length-slice :
    (text : Bytes) (from to : ℕ) → to ≤ length text → length (slice text from to) ≡ to - from
unfolding slice
length-slice text from to h =
    omega (arith, length-take (to - from) (drop from text), length-drop from text)

pub slice-append :
    (text : Bytes) (a b c : ℕ) → a ≤ b → b ≤ c → slice text a b ++ slice text b c ≡ slice text a c
unfolding slice
slice-append text a b c h k =
    let d : a + (b - a) ≡ b = omega arith in
    let e : (b - a) + (c - b) ≡ c - a = omega arith in
    let joined = take-take (b - a) (c - b) (drop a text) in rw (drop-drop, d, e) at joined

-- A text may be cut before a byte that starts a character.
pub boundary-append :
    (xs : Bytes) (y : ℕ) (ys : Bytes)
    → y < 0x80
    → is_char_boundary (xs ++ (y ∷ ys)) (length xs) ≡ true
unfolding is_char_boundary
boundary-append xs y ys h = rw get_elem?-append (ground arith)

pub get_from-append :
    (xs : Bytes) (y : ℕ) (ys : Bytes)
    → y < 0x80
    → get_from (xs ++ (y ∷ ys)) (length xs) ≡ some (y ∷ ys)
unfolding get_from
get_from-append xs y ys h = rw (boundary-append, h, drop-length-append)

pub get_from→drop :
    (text : Bytes) (at : ℕ) {rest : Bytes} → get_from text at ≡ some rest → rest ≡ drop at text
unfolding get_from
get_from→drop text at {rest} h = ground arith

pub all-take-count_while : (p : ℕ → Bool) (xs : Bytes) → all p (take (count_while p xs) xs) ≡ true
unfolding all count_while
all-take-count_while p [] = refl
all-take-count_while p (x ∷ xs) = elim (Bool-cases (p x)) [
  | inl at ↦ rw (at, at) (all-take-count_while p xs)
  | inr off ↦ rw off
]

pub count_while-le : (p : ℕ → Bool) (xs : Bytes) → count_while p xs ≤ length xs
unfolding count_while
count_while-le p [] = omega arith
count_while-le p (x ∷ xs) = ground (arith, count_while-le p xs)
