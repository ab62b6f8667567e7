-- ===== src/Transcript/Line/Offset.antt =====
-- An entry holds the offset of the line that it is parsed from.
use volute.Prelude.{ℕ, ◌≡◌, refl, Bool, Option, none, some, arith, Option-cases, ◌⊎◌, inl, inr}
use volute.Bytes.{Bytes}
use volute.Bytes.Trim.{strip_cr}
use volute.Transcript.{Parsed, ok, err, ParsedLine, TitleSource}
use volute.Transcript.Content.{malformed}
use volute.Transcript.Line.{
  Readers, RawEntry, title_line, chain_entry, message_entry, entry_of, parse_raw, parse_line,
}

sum-cases {ℓ κ} :
    {A : Type ℓ} {B : Type κ} (s : A ⊎ B) → ((a : A) × (s ≡ inl a)) ⊎ ((b : B) × (s ≡ inr b))
sum-cases (inl a) = inl (a, refl)
sum-cases (inr b) = inr (b, refl)

module _ {V T : Type 0} where
  -- An entry among the lines has this offset.
  abbrev pub IsFrom : ℕ → ParsedLine V T → Type 0
  IsFrom offset (ParsedLine.entry e) = e.offset ≡ offset
  IsFrom offset (ParsedLine.title text source) = Unit
  IsFrom offset ParsedLine.skipped = Unit

  -- A result that is such a line, or an error.
  abbrev pub HasOffset : ℕ → Parsed (ParsedLine V T) → Type 0
  HasOffset offset (ok l) = IsFrom offset l
  HasOffset offset (err e) = Unit

  module _ (readers : Readers V T) where
    title_line-IsFrom :
        (offset : ℕ) (raw : Option Bytes) (source : TitleSource)
        → IsFrom offset (title_line {V = V} {T = T} raw source)
    unfolding title_line
    title_line-IsFrom offset none source = tt
    title_line-IsFrom offset (some raw) source = ground arith

    chain_entry-HasOffset :
        (raw : RawEntry V) (kind id : Bytes) (offset : ℕ)
        → HasOffset offset (chain_entry readers raw kind id offset)
    unfolding chain_entry malformed
    chain_entry-HasOffset raw kind id offset = ground arith

    message_entry-HasOffset :
        (raw : RawEntry V) (kind : Bytes) (offset : ℕ)
        → HasOffset offset (message_entry readers raw kind offset)
    unfolding message_entry
    message_entry-HasOffset raw kind offset = ground arith

    entry_of-HasOffset :
        (raw : RawEntry V) (kind : Bytes) (offset : ℕ)
        → HasOffset offset (entry_of readers raw kind offset)
    unfolding entry_of
    entry_of-HasOffset raw kind offset =
        let message = message_entry-HasOffset raw kind offset in
        let custom = title_line-IsFrom offset raw.custom_title TitleSource.custom in
        let ai = title_line-IsFrom offset raw.ai_title TitleSource.generated in
        let old = title_line-IsFrom offset raw.summary TitleSource.generated in
        elim (Option-cases raw.uuid) [
          | inl missing ↦ ground arith
          | inr (id, e) ↦ let chained = chain_entry-HasOffset raw kind id offset in ground arith
        ]

    parse_raw-HasOffset :
        (raw : RawEntry V) (offset : ℕ) (session : Bytes) (sidechain : Bool)
        → HasOffset offset (parse_raw readers raw offset session sidechain)
    unfolding parse_raw
    parse_raw-HasOffset raw offset session sidechain = elim (Option-cases raw.kind) [
      | inl missing ↦ ground arith
      | inr (kind, e) ↦ let entry = entry_of-HasOffset raw kind offset in ground arith
    ]

    pub parse_line-HasOffset :
        (line : Bytes) (offset : ℕ) (session : Bytes) (sidechain : Bool)
        → HasOffset offset (parse_line readers line offset session sidechain)
    unfolding parse_line malformed
    parse_line-HasOffset line offset session sidechain =
        elim (sum-cases (readers.from_slice (strip_cr line))) [
          | inl (error, e) ↦ ground arith
          | inr (raw, e) ↦
              let parsed = parse_raw-HasOffset raw offset session sidechain in ground arith
        ]
