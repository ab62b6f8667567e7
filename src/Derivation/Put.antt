-- ===== src/Derivation/Put.antt =====
-- A field of the canonical payload can be told from what follows it.
use volute.Prelude.{
  ℕ, ◌<◌, ◌^◌, ◌≡◌, refl, sym, ap, ◌∙◌, List, [], Option, none, some, All, ap₂, ◌∷◌, ◌++◌, length,
  take, drop, get_or, arith, append_assoc, take-length-append, drop-length-append, subst,
}
use volute.Bytes.{Bytes}
use volute.Stimulus.Token.{be_bytes}
use volute.Derivation.{u64_bytes, put, put_option, put_sources}

-- Equal bytes of 64-bit numbers are those of one number.
pub u64_bytes_inj :
    (n m : ℕ) (rest rest' : Bytes)
    → n < 2 ^ 64
    → m < 2 ^ 64
    → u64_bytes n ++ rest ≡ u64_bytes m ++ rest'
    → (n ≡ m) × (rest ≡ rest')
unfolding u64_bytes be_bytes
u64_bytes_inj n m rest rest' h k e =
    let at : (i : ℕ) → get_or (u64_bytes n ++ rest) i 0 ≡ get_or (u64_bytes m ++ rest') i 0 =
      λ i. ap (λ (xs : Bytes). get_or xs i 0) e in
    (
      omega (arith, at 0, at 1, at 2, at 3, at 4, at 5, at 6, at 7),
      ap (λ (xs : Bytes). drop 8 xs) e,
    )

pub append_inj :
    (xs ys rest rest' : Bytes)
    → length xs ≡ length ys
    → xs ++ rest ≡ ys ++ rest'
    → (xs ≡ ys) × (rest ≡ rest')
append_inj xs ys rest rest' same e = (
  sym (take-length-append xs rest)
      ∙ (ap (take (length xs)) e
          ∙ subst (λ n. take n (ys ++ rest') ≡ ys) (sym same) (take-length-append ys rest')),
  sym (drop-length-append xs rest)
      ∙ (ap (drop (length xs)) e
          ∙ subst (λ n. drop n (ys ++ rest') ≡ rest') (sym same) (drop-length-append ys rest')),
)

-- If two payloads go on with a field each, put by `put`, and are the same from there on, the tags are
-- the same, the values are the same, and so is what follows them; for values of fewer than 2 ^ 64
-- bytes, as every text in memory is.
pub put_inj :
    (tag tag' : ℕ) (value value' rest rest' : Bytes)
    → length value < 2 ^ 64
    → length value' < 2 ^ 64
    → put tag value ++ rest ≡ put tag' value' ++ rest'
    → (tag ≡ tag') × (value ≡ value') × (rest ≡ rest')
unfolding put
put_inj tag tag' value value' rest rest' h k e =
    let tail =
      sym (append_assoc (u64_bytes (length value)) value rest)
      ∙ (ap (λ (xs : Bytes). drop 1 xs) e
          ∙ append_assoc (u64_bytes (length value')) value' rest') in
    let (same, fields) =
      u64_bytes_inj (length value) (length value') (value ++ rest) (value' ++ rest') h k tail in
    let (values, rests) = append_inj value value' rest rest' same fields in
    (ap (λ (xs : Bytes). get_or xs 0 0) e, values, rests)

abbrev pub IsShort : Bytes → Type 0
IsShort value = length value < 2 ^ 64

abbrev pub AllShort : Option Bytes → Type 0
AllShort none = Unit
AllShort (some value) = IsShort value

pub put_option_inj :
    (tag : ℕ) (o o' : Option Bytes) (rest rest' : Bytes)
    → AllShort o
    → AllShort o'
    → put_option tag o ++ rest ≡ put_option tag o' ++ rest'
    → (o ≡ o') × (rest ≡ rest')
unfolding put_option
put_option_inj tag none none rest rest' h k e = (refl, ap (λ (xs : Bytes). drop 2 xs) e)
put_option_inj tag none (some w) rest rest' h k e =
    absurd (omega (arith, ap (λ (xs : Bytes). get_or xs 1 0) e))
put_option_inj tag (some v) none rest rest' h k e =
    absurd (omega (arith, ap (λ (xs : Bytes). get_or xs 1 0) e))
put_option_inj tag (some v) (some w) rest rest' h k e =
    let (tags, values, more) =
      put_inj tag tag v w rest rest' h k (ap (λ (xs : Bytes). drop 2 xs) e) in
    (ap some values, more)

pub put_sources_inj :
    (ids ids' : List Bytes) (rest rest' : Bytes)
    → length ids ≡ length ids'
    → All IsShort ids
    → All IsShort ids'
    → put_sources ids ++ rest ≡ put_sources ids' ++ rest'
    → (ids ≡ ids') × (rest ≡ rest')
unfolding put_sources
put_sources_inj [] [] rest rest' n h k e = (refl, e)
put_sources_inj [] (y ∷ ys) rest rest' n h k e = absurd (omega (arith, n))
put_sources_inj (x ∷ xs) [] rest rest' n h k e = absurd (omega (arith, n))
put_sources_inj (x ∷ xs) (y ∷ ys) rest rest' n h k e =
    let e' =
      sym (append_assoc (put 8 x) (put_sources xs) rest)
      ∙ (e ∙ append_assoc (put 8 y) (put_sources ys) rest') in
    let (tags, first, more) = put_inj 8 8 x y _ _ h.0 k.0 e' in
    let (others, left) = put_sources_inj xs ys rest rest' (omega (arith, n)) h.1 k.1 more in
    (ap₂ (◌∷◌) first others, left)
