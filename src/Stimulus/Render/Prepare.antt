-- ===== src/Stimulus/Render/Prepare.antt =====
-- What `prepare` makes of the parts: one item for each part, in order, with a name that a marker can
-- carry.
pub mod Charged
use mathlib.Core.Bool.{false≢true}
use volute.Prelude.{
  subst, ℕ, ◌≤◌, arith, ◌≡◌, refl, sym, ap, ◌∙◌, Bool, true, false, not, ◌||◌, Option, none, some,
  List, [], ◌∷◌, map, length, Bool-cases, inl, inr, ltb, ◌&&◌, if◌then◌else◌,
}
use native.Mathlib.Nat.{le_trans}
use volute.Bytes.{Bytes, bytes_eq}
use volute.Privacy.{Result, ok, err, too_large}
use volute.Stimulus.{
  Scrub, PartKind, prompt, task, meta, compaction_summary, tool_result, is_tool_result,
  StimulusPart, max_scrubbed_bytes,
}
use volute.Stimulus.Token.{is_valid_name}
use volute.Stimulus.Marker.Laws.{Labels}
use volute.Stimulus.Render.{
  Prepared, unchanged_name, safe_name, scanned, prepare, is_person, prepare_pass, filled_items,
  prepare_all,
}

unchanged_name_valid :
    (name : Bytes) (r : Result Bytes)
    → is_valid_name name ≡ true
    → is_valid_name (unchanged_name name r) ≡ true
unfolding unchanged_name is_valid_name
unchanged_name_valid name (ok scrubbed) h = elim (Bool-cases (bytes_eq scrubbed name)) [
  | inl same ↦ rw same h
  | inr other ↦ rw other
]
unchanged_name_valid name (err e) h = refl

-- A marker can carry the name, whatever the tool's name and the scrubber are.
pub safe_name_valid :
    (name : Option Bytes) (scrub : Scrub) → is_valid_name (safe_name name scrub) ≡ true
unfolding safe_name
safe_name_valid none scrub = unfold is_valid_name in refl
safe_name_valid (some name) scrub = elim (Bool-cases (is_valid_name name)) [
  | inl valid ↦ rw valid (unchanged_name_valid name (scrub name) valid)
  | inr bad ↦ rw bad (unfold is_valid_name in refl)
]

safe_name-Labels :
    (kind : PartKind) (name : Bytes) (is_error : Bool)
    → is_valid_name name ≡ true
    → Labels kind
        (if is_tool_result kind then some name else none)
        (is_tool_result kind && is_error)
safe_name-Labels prompt name is_error h = (refl, refl)
safe_name-Labels task name is_error h = (refl, refl)
safe_name-Labels meta name is_error h = (refl, refl)
safe_name-Labels compaction_summary name is_error h = (refl, refl)
safe_name-Labels tool_result name is_error h = h

-- The body, if there is one, is what the scrubber made of the part's text, which is in the budget.
abbrev pub Scrubbed : Scrub → Bytes → Option Bytes → Type 0
Scrubbed scrub text none = Unit
Scrubbed scrub text (some body) = (scrub text ≡ ok body) × (length text ≤ max_scrubbed_bytes)

pub record IsPrepared (scrub : Scrub) (part : StimulusPart) (item : Prepared) : Type 0 where
  pub kind : item.kind ≡ part.kind
  pub labels : Labels item.kind item.name item.is_error
  pub body : Scrubbed scrub part.text item.body

scanned_body :
    (scrub : Scrub) (text : Bytes) (left : ℕ) (r : Result Bytes)
    → scrub text ≡ r
    → length text ≤ max_scrubbed_bytes
    → Scrubbed scrub text (scanned text left r).0
unfolding scanned
scanned_body scrub text left (ok body) h le = (h, le)
scanned_body scrub text left (err too_large) h le = tt
scanned_body scrub text left (err e) h le = tt

scanned_left : (text : Bytes) (left : ℕ) (r : Result Bytes) → (scanned text left r).1 ≤ left
unfolding scanned
scanned_left text left (ok body) = omega arith
scanned_left text left (err too_large) = omega arith
scanned_left text left (err e) = omega arith

prepare_left : (part : StimulusPart) (scrub : Scrub) (left : ℕ) → (prepare part scrub left).1 ≤ left
unfolding prepare
prepare_left part scrub left = elim (Bool-cases (ltb left (length part.text))) [
  | inl over ↦ rw over (omega arith)
  | inr within ↦ rw within (scanned_left part.text left (scrub part.text))
]

prepare-IsPrepared :
    (part : StimulusPart) (scrub : Scrub) (left : ℕ)
    → left ≤ max_scrubbed_bytes
    → IsPrepared scrub part (prepare part scrub left).0
unfolding prepare
prepare-IsPrepared part scrub left le = record {
  kind = refl;
  labels =
      safe_name-Labels part.kind (safe_name part.name scrub) part.is_error
        (safe_name_valid part.name scrub);
  body = elim (Bool-cases (ltb left (length part.text))) [
    | inl over ↦ rw over tt
    | inr within ↦
        rw within (scanned_body scrub part.text left (scrub part.text) refl (ground arith))
  ];
}

-- An item stands where one is due, and is its part's.
FilledBy : Scrub → Bool → StimulusPart → Option Prepared → Type 0
FilledBy scrub due part none = due ≡ false
FilledBy scrub due part (some item) = IsPrepared scrub part item

Passed : Scrub → (PartKind → Bool) → List (StimulusPart × Option Prepared) → Type 0
unfolding FilledBy
Passed scrub done [] = Unit
Passed scrub done ((part, filled) ∷ rest) =
    FilledBy scrub (done part.kind) part filled × Passed scrub done rest

Passed-start :
    (scrub : Scrub) (parts : List StimulusPart)
    → Passed scrub (λ kind. false) (map (λ part. (part, none)) parts)
unfolding Passed
Passed-start scrub [] = tt
Passed-start scrub (part ∷ parts) = (refl, Passed-start scrub parts)

filled_step :
    (wanted done : PartKind → Bool) (scrub : Scrub) (part : StimulusPart) (filled : Option Prepared)
    (left : ℕ)
    → left ≤ max_scrubbed_bytes
    → FilledBy scrub (done part.kind) part filled
    → FilledBy scrub
        (done part.kind || wanted part.kind)
        part
        (if wanted part.kind then some (prepare part scrub left).0 else filled)
unfolding FilledBy
filled_step wanted done scrub part filled left le h = elim (Bool-cases (wanted part.kind)) [
  | inl now ↦ rw now (prepare-IsPrepared part scrub left le)
  | inr later ↦ rw later (still_filled (done part.kind) part filled h)
]
  where
    still_filled :
        (due : Bool) (part : StimulusPart) (filled : Option Prepared)
        → FilledBy scrub due part filled
        → FilledBy scrub (due || false) part filled
    still_filled due part none h = rw h
    still_filled due part (some item) h = h

pass_left :
    (wanted : Bool) (left left' : ℕ) → left' ≤ left → (if wanted then left' else left) ≤ left
pass_left true left left' h = h
pass_left false left left' h = omega arith

prepare_pass_left :
    (wanted : PartKind → Bool) (scrub : Scrub) (pairs : List (StimulusPart × Option Prepared))
    (left : ℕ)
    → (prepare_pass wanted scrub pairs left).1 ≤ left
unfolding prepare_pass
prepare_pass_left wanted scrub [] left = omega arith
prepare_pass_left wanted scrub ((part, filled) ∷ pairs) left =
    le_trans (prepare_pass_left wanted scrub pairs _)
      (pass_left (wanted part.kind) left _ (prepare_left part scrub left))

prepare_pass-Passed :
    (wanted done : PartKind → Bool) (scrub : Scrub) (pairs : List (StimulusPart × Option Prepared))
    (left : ℕ)
    → left ≤ max_scrubbed_bytes
    → Passed scrub done pairs
    → Passed scrub (λ kind. done kind || wanted kind) (prepare_pass wanted scrub pairs left).0
unfolding Passed prepare_pass
prepare_pass-Passed wanted done scrub [] left le h = tt
prepare_pass-Passed wanted done scrub ((part, filled) ∷ pairs) left le h = (
  filled_step wanted done scrub part filled left le h.0,
  prepare_pass-Passed wanted done scrub pairs _
      (le_trans (pass_left (wanted part.kind) left _ (prepare_left part scrub left)) le) h.1,
)

abbrev parts_of : List (StimulusPart × Option Prepared) → List StimulusPart
parts_of [] = []
parts_of ((part, _) ∷ pairs) = part ∷ parts_of pairs

prepare_pass-parts :
    (wanted : PartKind → Bool) (scrub : Scrub) (pairs : List (StimulusPart × Option Prepared))
    (left : ℕ)
    → parts_of (prepare_pass wanted scrub pairs left).0 ≡ parts_of pairs
unfolding prepare_pass
prepare_pass-parts wanted scrub [] left = refl
prepare_pass-parts wanted scrub ((part, filled) ∷ pairs) left =
    ap (◌∷◌ part) (prepare_pass-parts wanted scrub pairs _)

parts_of-start : (parts : List StimulusPart) → parts_of (map (λ part. (part, none)) parts) ≡ parts
parts_of-start [] = refl
parts_of-start (part ∷ parts) = ap (◌∷◌ part) (parts_of-start parts)

-- One item for each part, in order.
abbrev pub AllPrepared : Scrub → List StimulusPart → List Prepared → Type 0
AllPrepared scrub [] [] = Unit
AllPrepared scrub (part ∷ parts) (item ∷ items) =
    IsPrepared scrub part item × AllPrepared scrub parts items
AllPrepared scrub _ _ = ⊥

filled_items-AllPrepared :
    (scrub : Scrub) (done : PartKind → Bool) (pairs : List (StimulusPart × Option Prepared))
    → ((kind : PartKind) → done kind ≡ true)
    → Passed scrub done pairs
    → AllPrepared scrub (parts_of pairs) (filled_items pairs)
unfolding Passed filled_items
filled_items-AllPrepared scrub done [] all_done h = tt
filled_items-AllPrepared scrub done ((part, none) ∷ pairs) all_done h =
    absurd (false≢true (sym h.0 ∙ all_done part.kind))
filled_items-AllPrepared scrub done ((part, some item) ∷ pairs) all_done h =
    (h.0, filled_items-AllPrepared scrub done pairs all_done h.1)

everyone : (kind : PartKind) → ((false || is_person kind) || not (is_person kind)) ≡ true
everyone prompt = refl
everyone _ = refl

-- Although a person's words are scrubbed before the rest, `prepare_all` gives one item for each part,
-- in the order of the parts, of the part's kind, with a name and a flag fit for it, and whose body, if
-- it was not withheld, is what the scrubber made of the part's text, within the budget.
pub prepare_all-AllPrepared :
    (parts : List StimulusPart) (scrub : Scrub) → AllPrepared scrub parts (prepare_all parts scrub)
unfolding prepare_all
prepare_all-AllPrepared parts scrub =
    let start = map {B = StimulusPart × Option Prepared} (λ part. (part, none)) parts in
    let first = prepare_pass is_person scrub start max_scrubbed_bytes in
    let second = prepare_pass (λ kind. not (is_person kind)) scrub first.0 first.1 in
    let same : parts_of second.0 ≡ parts =
      prepare_pass-parts _ scrub first.0 first.1
      ∙ (prepare_pass-parts is_person scrub start max_scrubbed_bytes ∙ parts_of-start parts) in
    subst (λ ps. AllPrepared scrub ps (filled_items second.0)) same
      (filled_items-AllPrepared scrub _ second.0 everyone (
        prepare_pass-Passed _ _ scrub first.0 first.1
          (prepare_pass_left is_person scrub start max_scrubbed_bytes)
          (prepare_pass-Passed is_person (λ kind. false) scrub start max_scrubbed_bytes
            (omega arith) (Passed-start scrub parts))))
