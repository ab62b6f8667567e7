-- ===== src/Stimulus/Render/Prepare/Charged.antt =====
-- What `prepare` makes of each part, and what it takes of the budget of bytes to scan: the two passes
-- over the parts charge it once for each, a person's words first.
use mathlib.Core.Bool.{false≢true}
use volute.Prelude.{
  ℕ, ◌-◌, ◌≤◌, ◌<◌, ◌≡◌, ◌≢◌, refl, sym, ap, ◌∙◌, subst, Bool, true, false, not, ◌&&◌, Option, none,
  some, List, [], ◌∷◌, map, length, ltb, arith, Bool-cases, inl, inr, if◌then◌else◌,
}
use volute.Bytes.{Bytes, bytes_eq}
use volute.Bytes.Laws.{bytes_eq→≡, bytes_eq_refl}
use volute.Privacy.{
  Result, PrivacyError, ok, err, too_large, policy, remote, consent_state, validation,
}
use volute.Stimulus.{
  Scrub, PartKind, is_tool_result, StimulusPart, unknown_tool, redacted_tool, max_scrubbed_bytes,
}
use volute.Stimulus.Token.{is_valid_name}
use volute.Stimulus.Render.{
  Prepared, unchanged_name, safe_name, scanned, prepare, is_person, prepare_pass, filled_items,
  prepare_all,
}

module _ (scrub : Scrub) where
  -- The name that a marker carries for a tool's name: the same, if it is valid and the scrubber leaves it
  -- as it is.
  pub data Carries : Option Bytes → Bytes → Type 0 where
    unnamed : Carries none unknown_tool
    invalid : (name : Bytes) → is_valid_name name ≡ false → Carries (some name) unknown_tool
    kept :
        (name : Bytes) → is_valid_name name ≡ true → scrub name ≡ ok name → Carries (some name) name
    hidden :
        (name : Bytes)
        → is_valid_name name ≡ true
        → scrub name ≢ ok name
        → Carries (some name) redacted_tool

  -- Only a tool result has a name and a flag.
  abbrev pub Tagged : Bool → StimulusPart → Prepared → Type 0
  Tagged true part item =
      (name : Bytes) × (item.name ≡ some name)
      × Carries part.name name
      × (item.is_error ≡ part.is_error)
  Tagged false part item = (item.name ≡ none) × (item.is_error ≡ false)

  -- The body of a text when so many bytes may still be scanned, and how many may be after it. A text that
  -- is too large for the scrubber was not scanned.
  pub data Scans (text : Bytes) (left : ℕ) : Option Bytes → ℕ → Type 0 where
    over : left < length text → Scans text left none left
    scrubbed :
        (body : Bytes)
        → length text ≤ left
        → scrub text ≡ ok body
        → Scans text left (some body) (left - length text)
    too_long : length text ≤ left → scrub text ≡ err too_large → Scans text left none left
    failed :
        (e : PrivacyError)
        → length text ≤ left
        → scrub text ≡ err e
        → e ≢ too_large
        → Scans text left none (left - length text)

  pub record Prepares (part : StimulusPart) (left : ℕ) (item : Prepared) (left' : ℕ) : Type 0 where
    pub kind : item.kind ≡ part.kind
    pub tagged : Tagged (is_tool_result part.kind) part item
    pub scans : Scans part.text left item.body left'

  -- The wanted parts are prepared one after the other, in order.
  pub data Charged (wanted : PartKind → Bool)
      : ℕ → List StimulusPart → List Prepared → ℕ → Type 0 where
    nothing : (left : ℕ) → Charged wanted left [] [] left
    taken :
        (part : StimulusPart) (item : Prepared) (left left' : ℕ) {parts : List StimulusPart}
        {items : List Prepared} {end : ℕ}
        → wanted part.kind ≡ true
        → Prepares part left item left'
        → Charged wanted left' parts items end
        → Charged wanted left (part ∷ parts) (item ∷ items) end
    passed :
        (part : StimulusPart) (item : Prepared) (left : ℕ) {parts : List StimulusPart}
        {items : List Prepared} {end : ℕ}
        → wanted part.kind ≡ false
        → Charged wanted left parts items end
        → Charged wanted left (part ∷ parts) (item ∷ items) end

  unchanged_name-Carries :
      (name : Bytes) (r : Result Bytes)
      → is_valid_name name ≡ true
      → scrub name ≡ r
      → Carries (some name) (unchanged_name name r)
  unfolding unchanged_name
  unchanged_name-Carries name (ok shown) valid e = elim (Bool-cases (bytes_eq shown name)) [
    | inl same ↦ rw same (kept name valid (e ∙ ap ok (bytes_eq→≡ shown name same)))
    | inr other ↦ rw other (
        hidden name valid (λ k.
          let same : shown ≡ name = cc in
          false≢true
            (sym other ∙ subst (λ x. bytes_eq x name ≡ true) (sym same) (bytes_eq_refl name))))
  ]
  unchanged_name-Carries name (err x) valid e = hidden name valid (λ k. cc)

  safe_name-Carries : (name : Option Bytes) → Carries name (safe_name name scrub)
  unfolding safe_name
  safe_name-Carries none = unnamed
  safe_name-Carries (some name) = elim (Bool-cases (is_valid_name name)) [
    | inl valid ↦ rw valid (unchanged_name-Carries name (scrub name) valid refl)
    | inr bad ↦ rw bad (invalid name bad)
  ]

  scanned-Scans :
      (text : Bytes) (left : ℕ) (r : Result Bytes)
      → scrub text ≡ r
      → length text ≤ left
      → Scans text left (scanned text left r).0 (scanned text left r).1
  unfolding scanned
  scanned-Scans text left (ok body) e le = scrubbed body le e
  scanned-Scans text left (err too_large) e le = too_long le e
  scanned-Scans text left (err (policy m)) e le = failed (policy m) le e (λ k. cc)
  scanned-Scans text left (err (remote m)) e le = failed (remote m) le e (λ k. cc)
  scanned-Scans text left (err (consent_state m)) e le = failed (consent_state m) le e (λ k. cc)
  scanned-Scans text left (err (validation m)) e le = failed (validation m) le e (λ k. cc)

  tagged_lem :
      (is_tool : Bool) (part : StimulusPart) (item : Prepared)
      → item.name ≡ (if is_tool then some (safe_name part.name scrub) else none)
      → item.is_error ≡ (is_tool && part.is_error)
      → Tagged is_tool part item
  tagged_lem true part item name flag =
      (safe_name part.name scrub, name, safe_name-Carries part.name, flag)
  tagged_lem false part item name flag = (name, flag)

  prepare-Prepares :
      (part : StimulusPart) (left : ℕ)
      → Prepares part left (prepare part scrub left).0 (prepare part scrub left).1
  unfolding prepare
  prepare-Prepares part left = record {
    kind = refl;
    tagged = tagged_lem (is_tool_result part.kind) part (prepare part scrub left).0 refl refl;
    scans = elim (Bool-cases (ltb left (length part.text))) [
      | inl beyond ↦ rw beyond (over (ground arith))
      | inr within ↦ rw within (scanned-Scans part.text left (scrub part.text) refl (ground arith))
    ];
  }

  abbrev begun : List StimulusPart → List (StimulusPart × Option Prepared)
  begun parts = map (λ part. (part, none)) parts

  abbrev others : PartKind → Bool
  others kind = not (is_person kind)

  -- A round of a pass, for a part that is wanted and for one that is not.
  pass-wanted :
      (wanted : PartKind → Bool) (part : StimulusPart) (filled : Option Prepared)
      (pairs : List (StimulusPart × Option Prepared)) (left : ℕ)
      → wanted part.kind ≡ true
      → let rest = prepare_pass wanted scrub pairs (prepare part scrub left).1 in
        prepare_pass wanted scrub ((part, filled) ∷ pairs) left
        ≡ ((part, some (prepare part scrub left).0) ∷ rest.0, rest.1)
  unfolding prepare_pass
  pass-wanted wanted part filled pairs left h = rw h refl

  pass-other :
      (wanted : PartKind → Bool) (part : StimulusPart) (filled : Option Prepared)
      (pairs : List (StimulusPart × Option Prepared)) (left : ℕ)
      → wanted part.kind ≡ false
      → let rest = prepare_pass wanted scrub pairs left in
        prepare_pass wanted scrub ((part, filled) ∷ pairs) left ≡ ((part, filled) ∷ rest.0, rest.1)
  unfolding prepare_pass
  pass-other wanted part filled pairs left h = rw h refl

  -- What two passes fill, each with a budget of its own.
  abbrev Fills :
      List StimulusPart
      → ℕ
      → ℕ
      → List (StimulusPart × Option Prepared) × ℕ
      → List (StimulusPart × Option Prepared) × ℕ
      → Type 0
  Fills parts left left' first second =
      Charged is_person left parts (filled_items second.0) first.1
      × Charged others left' parts (filled_items second.0) second.1

  passes-Charged :
      (parts : List StimulusPart) (left left' : ℕ)
      → let first = prepare_pass is_person scrub (begun parts) left in
        Fills parts left left' first (prepare_pass others scrub first.0 left')
  unfolding prepare_pass filled_items
  passes-Charged [] left left' = (nothing left, nothing left')
  passes-Charged (part ∷ parts) left left' = elim (Bool-cases (is_person part.kind)) [
    | inl person ↦
        let (item, next) = prepare part scrub left in
        let first = prepare_pass is_person scrub (begun parts) next in
        let rest = passes-Charged parts next left' in
        let not_other : others part.kind ≡ false = rw person refl in
        subst (λ f. Fills (part ∷ parts) left left' f (prepare_pass others scrub f.0 left'))
          (sym (pass-wanted is_person part none (begun parts) left person))
          (subst (Fills (part ∷ parts) left left' ((part, some item) ∷ first.0, first.1))
            (sym (pass-other others part (some item) first.0 left' not_other))
            (
              taken part item left next person (prepare-Prepares part left) rest.0,
              passed part item left' not_other rest.1,
            ))
    | inr other ↦
        let (item, next) = prepare part scrub left' in
        let first = prepare_pass is_person scrub (begun parts) left in
        let rest = passes-Charged parts left next in
        let is_other : others part.kind ≡ true = rw other refl in
        subst (λ f. Fills (part ∷ parts) left left' f (prepare_pass others scrub f.0 left'))
          (sym (pass-other is_person part none (begun parts) left other))
          (subst (Fills (part ∷ parts) left left' ((part, none) ∷ first.0, first.1))
            (sym (pass-wanted others part none first.0 left' is_other))
            (
              passed part item left other rest.0,
              taken part item left' next is_other (prepare-Prepares part left') rest.1,
            ))
  ]

  -- `prepare_all` gives one item for each part, in the order of the parts, and what the budget of bytes to
  -- scan is charged for them is this: first each part in a person's words, in order, and then each other
  -- part, in order, with what they leave, and each part once. An item has its part's kind; the body is what
  -- the scrubber makes of the part's text, unless the text is over what is left of the budget or the
  -- scrubber fails; and only that of a tool result has a name and a flag: the part's flag, and the part's
  -- name if it is valid and the scrubber leaves it as it is.
  pub prepare_all-Charged :
      (parts : List StimulusPart)
      → (middle end : ℕ) × Charged is_person max_scrubbed_bytes parts
          (prepare_all parts scrub)
          middle
        × Charged (λ kind. not (is_person kind)) middle parts (prepare_all parts scrub) end
  unfolding prepare_all
  prepare_all-Charged parts =
      let first = prepare_pass is_person scrub (begun parts) max_scrubbed_bytes in
      let second = prepare_pass others scrub first.0 first.1 in
      let charged = passes-Charged parts max_scrubbed_bytes first.1 in
      (first.1, second.1, charged.0, charged.1)
