-- ===== src/Stimulus/Render/Bound.antt =====
-- No stimulus exceeds its size.
use volute.Prelude.{
  ℕ, zero, suc, ◌+◌, ◌-◌, ◌≤◌, ◌<◌, ◌≡◌, refl, sym, ap, subst, min, false, Option, none, some, List,
  [], ◌∷◌, ◌++◌, ◌==◌, map, length, take, All, All-take, take-map, Bool-cases, inl, inr, arith,
  length-append, sum, if◌then◌else◌, ltb, length-take, length-map,
}
use native.Mathlib.Nat.{le_trans}
use volute.Bytes.{Bytes, codes, decimal}
use volute.Privacy.{ok}
use volute.Stimulus.{
  Scrub, StimulusPart, max_stimulus_bytes, max_parts, max_scrubbed_bytes, boundary_len,
  boundary_candidates, separator, placeholder_token,
}
use volute.Stimulus.Token.{Sha256, boundary}
use volute.Stimulus.Token.Laws.{length-IsToken, boundary-IsToken}
use volute.Stimulus.Note.{omitted_note}
use volute.Stimulus.Marker.Laws.{Labels}
use volute.Stimulus.Budget.{Slot, overhead, overheads, closing, allocate}
use volute.Stimulus.Budget.Fits.{Keeps, FirstFits, allocate-Allocated, Shares-Keeps}
use volute.Stimulus.Cut.Bounds.{MarkerFinder}
use volute.Stimulus.Render.{
  Prepared, slot, contents_of, undivided_parts, assemble_from, assemble, assemble_undivided,
  contains, choose, marked, render_prepared, render_detailed, render, prepare_all,
}
use volute.Stimulus.Render.Prepare.{Scrubbed, AllPrepared, prepare_all-AllPrepared}
use volute.Stimulus.Render.Size.{
  SmallBody, count_limit, assemble_from_size, undivided_parts_size, closing_size,
  undivided_closing_size, one_part_bound,
}

-- The token that is chosen is a candidate's, and is free.
pub record IsChosen (sha : Sha256) (id shape : Bytes) (present : List Bytes) (candidate : ℕ)
    (token : Bytes) : Type 0 where
  pub boundary_of : token ≡ boundary sha id shape candidate
  pub free : contains present token ≡ false

choose-IsChosen :
    (sha : Sha256) (id shape : Bytes) (present : List Bytes) (count from : ℕ) {candidate : ℕ}
    {token : Bytes}
    → choose sha id shape present count from ≡ some (candidate, token)
    → IsChosen sha id shape present candidate token
      × (from ≤ candidate)
      × (candidate < from + count)
unfolding choose
choose-IsChosen sha id shape present zero from h = cc
choose-IsChosen sha id shape present (suc count) from {candidate} {token} h =
    elim (Bool-cases (contains present (boundary sha id shape from))) [
      | inl taken ↦
          let rest =
            choose-IsChosen sha id shape present count (from + 1) {candidate = candidate}
              {token = token} (ground arith) in
          (rest.0, omega (arith, rest.1), omega (arith, rest.2))
      | inr free ↦
          let first : from ≡ candidate = ground arith in
          let token_is : boundary sha id shape from ≡ token = ground arith in
          (
            record { boundary_of = rw (← first) (sym token_is); free = rw (← token_is) free },
            omega arith,
            omega arith,
          )
    ]

overheads_later : (i j : ℕ) (slots : List Slot) → overheads (suc i) slots ≡ overheads (suc j) slots
unfolding overheads overhead
overheads_later i j [] = refl
overheads_later i j (slot ∷ slots) =
    let at_i : (suc i == 0) ≡ false = ground arith in
    let at_j : (suc j == 0) ≡ false = ground arith in
    let next_i : suc i + 1 ≡ suc (suc i) = omega arith in
    let next_j : suc j + 1 ≡ suc (suc j) = omega arith in
    rw (at_i, at_j, next_i, next_j) (omega (arith, overheads_later (suc i) (suc j) slots))

overheads_shift : (slots : List Slot) → 0 < length slots → overheads 1 slots ≡ overheads 0 slots + 2
unfolding overheads overhead
overheads_shift [] h = elim h [ ]
overheads_shift (slot ∷ slots) h = omega (arith, overheads_later 1 0 slots)

module _ (finder : MarkerFinder) (items : List Prepared) (kept : List ℕ) (count omitted total : ℕ)
    (small : All (λ item. SmallBody item.body) items) (keep : Keeps (map slot items) kept)
    (counted : count + omitted ≡ total) (few : total < count_limit) where
  assemble_size :
      (token : Bytes)
      → length token ≡ boundary_len
      → length (assemble items (contents_of finder.spans items kept) token omitted)
        ≤ overheads 0 (map slot items) + sum kept + closing count total
  unfolding assemble
  assemble_size token e = omega (
    arith,
    length-append (assemble_from 0 items (contents_of finder.spans items kept) token)
        (if ltb 0 omitted then separator ++ omitted_note omitted token else []),
    assemble_from_size finder token e items kept 0 small keep,
    closing_size count omitted total token counted few e,
  )

  assemble_undivided_size :
      0 < length items
      → length (assemble_undivided (contents_of finder.spans items kept) omitted)
        ≤ overheads 0 (map slot items) + sum kept + closing count total
  unfolding assemble_undivided
  assemble_undivided_size some_item =
      let parts = undivided_parts (contents_of finder.spans items kept) in
      let end =
        if ltb 0 omitted
        then separator ++ (codes "[cvc: omitted " ++ (decimal omitted ++ codes " parts]"))
        else [] in
      omega (
        arith,
        length-append parts end,
        undivided_parts_size finder placeholder_token refl items kept 0 small keep,
        undivided_closing_size count omitted total counted few,
        overheads_shift (map slot items) (omega (arith, length-map items slot)),
      )

-- The first part fits, whatever the parts are.
FirstFits-slots :
    (items : List Prepared)
    → All (λ item. Labels item.kind item.name item.is_error) items
    → FirstFits (map slot items) max_stimulus_bytes
FirstFits-slots [] h = tt
FirstFits-slots (item ∷ items) h = omega (arith, one_part_bound item h.0)

module _ (sha : Sha256) (finder : MarkerFinder) (id : Bytes) (prepared : List Prepared)
    (total : ℕ) where
  marked_size :
      (kept : ℕ) (shares : List ℕ) (chosen : Option (ℕ × Bytes))
      → All (λ item. SmallBody item.body) (take kept prepared)
      → Keeps (map slot (take kept prepared)) shares
      → kept ≤ total
      → total < count_limit
      → 0 < length (take kept prepared)
      → ((candidate : ℕ) (token : Bytes)
          → chosen ≡ some (candidate, token)
          → length token ≡ boundary_len)
      → length
          (marked
            (take kept prepared)
            (contents_of finder.spans (take kept prepared) shares)
            kept
            (total - kept)
            chosen).text
        ≤ overheads 0 (map slot (take kept prepared)) + sum shares + closing kept total
  unfolding marked
  marked_size kept shares none small keep le few some_item token_size =
      assemble_undivided_size finder (take kept prepared) shares kept (total - kept) total small
        keep (omega arith) few some_item
  marked_size kept shares (some (candidate, token)) small keep le few some_item token_size =
      assemble_size finder (take kept prepared) shares kept (total - kept) total small keep
        (omega arith) few token (token_size candidate token refl)

  -- Whatever the prepared parts, the text is no longer than a stimulus may be.
  render_prepared_size :
      All (λ item. Labels item.kind item.name item.is_error) prepared
      → All (λ item. SmallBody item.body) prepared
      → 0 < length prepared
      → length prepared ≤ total
      → total < count_limit
      → length (render_prepared sha finder.spans id prepared total).text ≤ max_stimulus_bytes
  unfolding render_prepared
  render_prepared_size labels small some_item le few =
      let slots = map slot prepared in
      let result = allocate slots total max_stimulus_bytes in
      let allocated =
        allocate-Allocated slots total max_stimulus_bytes (omega arith)
          (FirstFits-slots prepared labels) in
      let (available, sum_is, shares) = allocated.shares in
      let same : take result.0 slots ≡ map slot (take result.0 prepared) =
        take-map slot result.0 prepared in
      let keep : Keeps (map slot (take result.0 prepared)) result.1 =
        subst (λ s. Keeps s result.1) same (Shares-Keeps (take result.0 slots) available shares) in
      let fits : overheads 0 (map slot (take result.0 prepared))
            + sum result.1
            + closing result.0 total
          ≤ max_stimulus_bytes =
        subst (λ s. overheads 0 s + sum result.1 + closing result.0 total ≤ max_stimulus_bytes) same
          allocated.fits in
      let below = allocated.below in
      let positive = allocated.positive (omega (arith, length-map prepared slot)) in
      le_trans
        (marked_size result.0 result.1 _ (All-take _ result.0 prepared small) keep
          (omega (arith, length-map prepared slot)) few
          (omega (arith, length-take result.0 prepared, length-map prepared slot))
          (λ candidate token h.
            let chosen = choose-IsChosen sha id _ _ boundary_candidates 0 h in
            rw (chosen.0.boundary_of) (length-IsToken (boundary-IsToken sha id _ candidate))))
        fits

-- What the scrubber returns is short enough for a note to count its bytes.
abbrev pub IsModest : Scrub → Type 0
IsModest scrub =
    (text body : Bytes)
    → scrub text ≡ ok body
    → length text ≤ max_scrubbed_bytes
    → length body < count_limit

length-AllPrepared :
    (scrub : Scrub) (parts : List StimulusPart) (items : List Prepared)
    → AllPrepared scrub parts items
    → length items ≡ length parts
length-AllPrepared scrub [] [] h = refl
length-AllPrepared scrub [] (item ∷ items) h = absurd h
length-AllPrepared scrub (part ∷ parts) [] h = absurd h
length-AllPrepared scrub (part ∷ parts) (item ∷ items) h =
    ap suc (length-AllPrepared scrub parts items h.1)

pub AllPrepared-Labels :
    (scrub : Scrub) (parts : List StimulusPart) (items : List Prepared)
    → AllPrepared scrub parts items
    → All (λ item. Labels item.kind item.name item.is_error) items
AllPrepared-Labels scrub [] [] h = tt
AllPrepared-Labels scrub [] (item ∷ items) h = absurd h
AllPrepared-Labels scrub (part ∷ parts) [] h = absurd h
AllPrepared-Labels scrub (part ∷ parts) (item ∷ items) h =
    (h.0.labels, AllPrepared-Labels scrub parts items h.1)

small_body :
    (scrub : Scrub) (text : Bytes) (body : Option Bytes)
    → IsModest scrub
    → Scrubbed scrub text body
    → SmallBody body
small_body scrub text none modest h = tt
small_body scrub text (some body) modest h = modest text body h.0 h.1

AllPrepared-SmallBody :
    (scrub : Scrub) (parts : List StimulusPart) (items : List Prepared)
    → IsModest scrub
    → AllPrepared scrub parts items
    → All (λ item. SmallBody item.body) items
AllPrepared-SmallBody scrub [] [] modest h = tt
AllPrepared-SmallBody scrub [] (item ∷ items) modest h = absurd h
AllPrepared-SmallBody scrub (part ∷ parts) [] modest h = absurd h
AllPrepared-SmallBody scrub (part ∷ parts) (item ∷ items) modest h = (
  small_body scrub part.text item.body modest h.0.body,
  AllPrepared-SmallBody scrub parts items modest h.1,
)

module _ (sha : Sha256) (finder : MarkerFinder) (id : Bytes) where
  -- The rendered stimulus has at most `max_stimulus_bytes`, on every path: whatever the parts, if they
  -- are fewer than 10 ^ 14; whatever the digest, of 32 bytes; whatever finds the redaction markers, in
  -- order, apart and at character boundaries; and whatever the scrubber, if it makes fewer than 10 ^ 14
  -- bytes of each text that is within the budget of bytes to scan.
  pub render-le-max :
      (parts : List StimulusPart) (scrub : Scrub)
      → IsModest scrub
      → length parts < count_limit
      → length (render sha finder.spans id parts scrub) ≤ max_stimulus_bytes
  unfolding render render_detailed
  render-le-max [] scrub modest few = omega arith
  render-le-max (part ∷ parts) scrub modest few =
      let shown = take (min (length (part ∷ parts)) max_parts) (part ∷ parts) in
      let made = prepare_all-AllPrepared shown scrub in
      let items = prepare_all shown scrub in
      let count = length-AllPrepared scrub shown items made in
      let taken = length-take (min (length (part ∷ parts)) max_parts) (part ∷ parts) in
      render_prepared_size sha finder id items (length (part ∷ parts))
        (AllPrepared-Labels scrub shown items made)
        (AllPrepared-SmallBody scrub shown items modest made) (omega arith) (omega arith) few
