-- ===== src/Transcript/Context/Bounds.antt =====
-- The lines that read_range gives.
use volute.Prelude.{
  ℕ, zero, suc, ◌+◌, ◌-◌, ◌≤◌, ◌≡◌, refl, min, Option, none, some, arith, some-eq, >>=-eq-some,
}
use volute.Bytes.{Bytes, codes}
use volute.Transcript.{ℤ, pos, negsuc, Json}
use volute.Transcript.Context.{
  i32_max, at_least_one, line_number, held, last_line, range_of, read_range,
}

-- A line number that 32 bits hold.
abbrev pub IsLine : ℕ → Type 0
IsLine n = (1 ≤ n) × (n ≤ i32_max)

-- The lines that a call asks for: none, all from one on, or from one to another, which are those asked
-- for unless the last does not fit.
abbrev pub IsRange : Option ℕ → Option ℕ → Option ℕ × Option ℕ → Type 0
IsRange (some offset) (some limit) (some first, some last) =
    IsLine first
    × (IsLine last
        × ((first ≤ last)
            × ((first ≡ min offset i32_max) × (last ≡ min (offset + limit - 1) i32_max))))
IsRange (some offset) none (some first, none) = IsLine first × (first ≡ min offset i32_max)
IsRange none limit (none, none) = Unit
IsRange _ _ _ = ⊥

range_of-IsRange :
    (offset limit : Option ℕ)
    → ((n : ℕ) → offset ≡ some n → 1 ≤ n)
    → ((n : ℕ) → limit ≡ some n → 1 ≤ n)
    → IsRange offset limit (range_of offset limit)
unfolding range_of held last_line
range_of-IsRange (some offset) (some limit) h k =
    let o = h offset refl in
    let l = k limit refl in
    (
      (omega arith, omega arith),
      ((omega arith, omega arith), (omega arith, (omega (arith, o, l), omega (arith, o, l)))),
    )
range_of-IsRange (some offset) none h k =
    let o = h offset refl in ((omega arith, omega arith), omega (arith, o))
range_of-IsRange none (some limit) h k = tt
range_of-IsRange none none h k = tt

at_least_one-le : (z : ℤ) (n : ℕ) → at_least_one z ≡ some n → 1 ≤ n
unfolding at_least_one
at_least_one-le (pos zero) n h = cc
at_least_one-le (pos (suc m)) n h = omega (arith, some-eq h)
at_least_one-le (negsuc m) n h = cc

module _ {V : Type 0} (json : Json V) (input : V) where
  line_number-le : (key : Bytes) (n : ℕ) → line_number json input key ≡ some n → 1 ≤ n
  unfolding line_number
  line_number-le key n h =
      let (value, at, more) = >>=-eq-some (json.get input key) _ h in
      let (z, is_int, positive) = >>=-eq-some (json.as_i64 value) _ more in
      at_least_one-le z n positive

  -- Whatever numbers the input holds, read_range gives lines from 1 to i32::MAX in order, which are those
  -- asked for, cut at i32::MAX: no sum overflows.
  pub read_range-IsRange :
      IsRange
        (line_number json input (codes "offset"))
        (line_number json input (codes "limit"))
        (read_range json input)
  unfolding read_range
  read_range-IsRange =
      range_of-IsRange _ _ (line_number-le (codes "offset")) (line_number-le (codes "limit"))
