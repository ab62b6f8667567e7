-- ===== src/Columns/Laws.antt =====
-- What is cut fits, and as much is kept as fits.
use volute.Prelude.{
  ℕ, zero, suc, ◌+◌, ◌-◌, ◌≤◌, ◌<◌, ◌≡◌, refl, ap, inl, inr, [], ◌∷◌, ◌++◌, leb, ltb, leb→le,
  length, take, arith, Bool-cases,
}
use volute.Terminal.{Text}
use volute.Columns.{width, take_columns_from, take_columns, truncate}

module _ (char_width : ℕ → ℕ) where
  pub width-append :
      (xs ys : Text) → width char_width (xs ++ ys) ≡ width char_width xs + width char_width ys
  unfolding width
  width-append [] ys = omega arith
  width-append (x ∷ xs) ys = omega (arith, width-append xs ys)

  -- A prefix that fits, and no longer one does.
  pub record IsLongest (text : Text) (max : ℕ) (kept : Text) : Type 0 where
    pub rest : Text
    pub split : text ≡ kept ++ rest
    pub fits : width char_width kept ≤ max
    pub longest : (n : ℕ) → width char_width (take n text) ≤ max → n ≤ length text → n ≤ length kept

  over-longest :
      (c : ℕ) (cs : Text) (room : ℕ)
      → room < char_width c
      → (n : ℕ) → width char_width (take n (c ∷ cs)) ≤ room
      → n ≤ length (c ∷ cs)
      → n ≤ 0
  unfolding width
  over-longest c cs room over zero fits le = omega arith
  over-longest c cs room over (suc n) fits le = absurd (omega arith)

  within-longest :
      (c : ℕ) (cs : Text) (room kept : ℕ)
      → char_width c ≤ room
      → ((n : ℕ) → width char_width (take n cs) ≤ room - char_width c → n ≤ length cs → n ≤ kept)
      → (n : ℕ) → width char_width (take n (c ∷ cs)) ≤ room
      → n ≤ length (c ∷ cs)
      → n ≤ suc kept
  unfolding width
  within-longest c cs room kept within more zero fits le = omega arith
  within-longest c cs room kept within more (suc n) fits le =
      omega (arith, more n (omega arith) (omega arith))

  take_columns_from_lem :
      (used : ℕ) (text : Text) (max : ℕ)
      → used ≤ max
      → IsLongest text (max - used) (take_columns_from char_width used text max)
  unfolding take_columns_from width
  take_columns_from_lem used [] max h = record {
    rest = [];
    split = refl;
    fits = omega arith;
    longest = λ n fits le. le;
  }
  take_columns_from_lem used (c ∷ cs) max h = elim (Bool-cases (ltb max (used + char_width c))) [
    | inl over ↦
        rw (over, take_columns_from)
          (record {
            rest = c ∷ cs;
            split = refl;
            fits = omega arith;
            longest = over-longest c cs (max - used) (ground arith);
          })
    | inr within ↦
        let more = take_columns_from_lem (used + char_width c) cs max (ground arith) in
        rw (within, take_columns_from)
          (record {
            rest = more.rest;
            split = ap (◌∷◌ c) more.split;
            fits =
                (let room : used + char_width c ≤ max = ground arith in
                  omega (arith, more.fits, room));
            longest = within-longest c cs (max - used) _ (ground arith) (
                let e : max - used - char_width c ≡ max - (used + char_width c) = omega arith in
                rw e more.longest);
          })
  ]

  pub take_columns-IsLongest :
      (text : Text) (max : ℕ) → IsLongest text max (take_columns char_width text max)
  unfolding take_columns
  take_columns-IsLongest text max =
      let e : max - 0 ≡ max = omega arith in
      rw e at (take_columns_from_lem 0 text max (omega arith))

  -- What a text is cut to: itself where it fits; else as much of it as fits before the ellipsis; else,
  -- where the ellipsis itself has no room, as much of the ellipsis as fits.
  pub data Truncated (text : Text) (max : ℕ) (ellipsis : Text) : Text → Type 0 where
    whole : width char_width text ≤ max → Truncated text max ellipsis text
    cut :
        {kept : Text}
        → max < width char_width text
        → width char_width ellipsis < max
        → IsLongest text (max - width char_width ellipsis) kept
        → Truncated text max ellipsis (kept ++ ellipsis)
    ellipsis_only :
        {kept : Text}
        → max < width char_width text
        → max ≤ width char_width ellipsis
        → IsLongest ellipsis max kept
        → Truncated text max ellipsis kept

  Truncated-fits :
      (text : Text) (max : ℕ) (ellipsis out : Text)
      → Truncated text max ellipsis out
      → width char_width out ≤ max
  Truncated-fits text max ellipsis out (whole h) = h
  Truncated-fits text max ellipsis out (cut {kept} over room longest) =
      omega (arith, width-append kept ellipsis, longest.fits)
  Truncated-fits text max ellipsis out (ellipsis_only over room longest) = longest.fits

  truncate_lem :
      (text : Text) (max : ℕ) (ellipsis : Text)
      → Truncated text max ellipsis (truncate char_width text max ellipsis)
  unfolding truncate
  truncate_lem text max ellipsis = elim (Bool-cases (leb (width char_width text) max)) [
    | inl fits ↦ rw (fits, truncate) (whole (leb→le _ _ fits))
    | inr over ↦ elim (Bool-cases (leb max (width char_width ellipsis))) [
      | inl narrow ↦
          rw (over, narrow, truncate)
            (ellipsis_only (ground arith) (leb→le _ _ narrow) (take_columns-IsLongest ellipsis max))
      | inr room ↦
          rw (over, room, truncate)
            (cut (ground arith) (ground arith) (take_columns-IsLongest text _))
    ]
  ]

  -- For every text, limit and ellipsis, and however wide the characters are, what `truncate` gives is
  -- no wider than the limit, and is the text where it fits; else the longest prefix of the text that
  -- leaves room for the ellipsis, and the ellipsis; else, where the ellipsis is as wide as the limit or
  -- wider, the longest prefix of the ellipsis that fits.
  pub truncate-Truncated :
      (text : Text) (max : ℕ) (ellipsis : Text)
      → Truncated text max ellipsis (truncate char_width text max ellipsis)
        × (width char_width (truncate char_width text max ellipsis) ≤ max)
  truncate-Truncated text max ellipsis =
      let truncated = truncate_lem text max ellipsis in
      (truncated, Truncated-fits text max ellipsis _ truncated)
