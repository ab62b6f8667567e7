-- ===== src/Terminal/Userinfo.antt =====
-- What `without_url_userinfo` takes out of a text.
use volute.Prelude.{
  ℕ, zero, suc, ◌+◌, ◌-◌, ◌≤◌, ◌≡◌, refl, sym, ap, subst, ◌∙◌, false, ◌⊎◌, inl, inr, Option, none,
  some, [], ◌∷◌, ◌++◌, ◌==◌, length, take, drop, arith, All, Option-cases, append_assoc, take-take,
  take-nil, drop-drop, take-append-drop, length-drop, length-take, length-take-le,
}
use volute.Bytes.{codes, starts_with}
use volute.Terminal.Find.{
  IsFirst, IsEnded, starts-nil, find_scheme-none, find_scheme-IsFirst, starts-drop, authority_lem,
  last_at-none, last_at-IsLast,
}
use volute.Terminal.{
  Text, find_scheme, ends_authority, authority_len, last_at, part, or_new, strip_authority,
  strip_urls, rejoined, without_url_userinfo,
}

-- What is left of an authority: all of it, or what follows its last at sign.
abbrev pub Host : Text → Text → Type 0
Host authority host =
    ((host ≡ authority) × All (λ c. (c == b'@') ≡ false) authority)
    ⊎ ((user : Text) × (authority ≡ user ++ (b'@' ∷ host)) × All (λ c. (c == b'@') ≡ false) host)

-- A text as it should come out.
pub data Stripped : Text → Text → Type 0 where
  no_url :
      {text : Text}
      → ((i : ℕ) → starts_with (codes "://") (drop i text) ≡ false)
      → Stripped text text
  url :
      {text : Text} (before authority host rest : Text) {out : Text}
      → text ≡ before ++ (codes "://" ++ (authority ++ rest))
      → IsFirst text (length before)
      → All (λ c. ends_authority c ≡ false) authority
      → IsEnded rest
      → Host authority host
      → Stripped rest out
      → Stripped text (before ++ (codes "://" ++ (host ++ out)))

drop-take : (n m : ℕ) (xs : Text) → drop n (take m xs) ≡ take (m - n) (drop n xs)
drop-take zero m xs = let e : m - 0 ≡ m = omega arith in rw e
drop-take (suc n) zero [] = let e : 0 - suc n ≡ 0 = omega arith in rw e
drop-take (suc n) zero (x ∷ xs) = let e : 0 - suc n ≡ 0 = omega arith in rw e
drop-take (suc n) (suc m) [] = rw take-nil
drop-take (suc n) (suc m) (x ∷ xs) =
    let e : suc m - suc n ≡ m - n = omega arith in rw e (drop-take n m xs)

drop-all : (n : ℕ) (xs : Text) → length xs ≤ n → drop n xs ≡ []
drop-all zero [] h = refl
drop-all zero (x ∷ xs) h = absurd (omega arith)
drop-all (suc n) [] h = refl
drop-all (suc n) (x ∷ xs) h = drop-all n xs (omega arith)

module _ (text : Text) where
  part-part : (a b c : ℕ) → a ≤ b → b ≤ c → part text a b ++ part text b c ≡ part text a c
  part-part a b c h k =
      let from : a + (b - a) ≡ b = omega arith in
      let whole : b - a + (c - b) ≡ c - a = omega arith in
      let split = take-take (b - a) (c - b) (drop a text) in rw (drop-drop, from, whole) at split

  part-drop : (a b : ℕ) → a ≤ b → part text a b ++ drop b text ≡ drop a text
  part-drop a b h =
      let from : a + (b - a) ≡ b = omega arith in
      let split = take-append-drop (b - a) (drop a text) in rw (drop-drop, from) at split

  -- What the loop has come to, of the text before `from`.
  done : Option Text × ℕ → ℕ → Text
  done state from = or_new state.0 ++ part text state.1 from

  -- The text is accounted for up to a place before `from`.
  IsBefore : Option Text × ℕ → ℕ → Type 0
  IsBefore state from = (state.1 ≤ from) × ((state.0 ≡ none) → state.1 ≡ 0)

  rejoined_lem :
      (state : Option Text × ℕ) (from : ℕ)
      → IsBefore state from
      → rejoined text state ≡ done state from ++ drop from text
  unfolding rejoined done or_new IsBefore
  rejoined_lem (none, kept_until) from h =
      let start : kept_until ≡ 0 = h.1 refl in rw start (sym (part-drop 0 from (omega arith)))
  rejoined_lem (some out, kept_until) from h =
      rw append_assoc (ap (λ rest. out ++ rest) (sym (part-drop kept_until from h.0)))

  module _ (from found : ℕ) (first : IsFirst (drop from text) found) where
    before : Text
    before = take found (drop from text)

    scheme_lem :
        (drop from text ≡ before ++ (codes "://" ++ drop (from + found + 3) text))
        × (part text from (from + found + 3) ≡ before ++ codes "://")
        × (length before ≡ found)
    unfolding before
    scheme_lem =
        let rest = drop from text in
        let after : from + (found + 3) ≡ from + found + 3 = omega arith in
        let there : drop 3 (drop found rest) ≡ drop (from + found + 3) text =
          rw (drop-drop, drop-drop, after) in
        let here : drop found rest ≡ codes "://" ++ drop (from + found + 3) text =
          starts-drop (drop found rest) first.0 ∙ ap (λ r. codes "://" ++ r) there in
        let count : from + found + 3 - from ≡ found + 3 = omega arith in
        (
          sym (take-append-drop found rest) ∙ ap (λ r. before ++ r) here,
          ap (λ n. take n rest) count
              ∙ (sym (take-take found 3 rest) ∙ ap (λ r. before ++ take 3 r) here),
          length-take-le found rest
              (omega (arith, ap (λ (r : Text). length r) here, length-drop found rest)),
        )

  host_lem :
      (start end at : ℕ) → drop (suc at) (part text start end) ≡ part text (start + at + 1) end
  host_lem start end at =
      let from : start + suc at ≡ start + at + 1 = omega arith in
      let count : end - start - suc at ≡ end - (start + at + 1) = omega arith in
      drop-take (suc at) (end - start) (drop start text) ∙ rw (drop-drop, from, count)

  -- What `strip_authority` leaves of an authority, and where.
  strip_authority_lem :
      (start end : ℕ) (state : Option Text × ℕ)
      → start ≤ end
      → IsBefore state start
      → (host : Text) × Host (part text start end) host
        × IsBefore (strip_authority text start end state) end
        × (done (strip_authority text start end state) end ≡ done state start ++ host)
  unfolding strip_authority done IsBefore or_new
  strip_authority_lem start end (stripped, kept_until) le h =
      let authority = part text start end in
      elim (Option-cases (last_at authority)) [
        | inl missing ↦
            rw (missing, strip_authority)
              (
                authority,
                inl (refl, last_at-none authority missing),
                (omega (arith, h.0), h.1),
                ap (λ r. or_new stripped ++ r) (sym (part-part kept_until start end h.0 le))
                    ∙ sym (append_assoc (or_new stripped) (part text kept_until start) authority),
              )
        | inr (at, found) ↦
            let last = last_at-IsLast authority found in
            rw (found, strip_authority)
              (
                drop (suc at) authority,
                inr (take at authority, last.0, last.1),
                (omega (arith, last.2, length-take (end - start) (drop start text)), λ e. cc),
                ap (λ r. (or_new stripped ++ part text kept_until start) ++ r)
                    (sym (host_lem start end at)),
              )
      ]

  done_more :
      (state : Option Text × ℕ) (a b : ℕ)
      → state.1 ≤ a
      → a ≤ b
      → done state b ≡ done state a ++ part text a b
  unfolding done
  done_more state a b h le =
      ap (λ r. or_new state.0 ++ r) (sym (part-part state.1 a b h le))
      ∙ sym (append_assoc (or_new state.0) (part text state.1 a) (part text a b))

  -- A round of the loop, before the rest of it.
  url_lem :
      (from found : ℕ) (state : Option Text × ℕ) (result out : Text)
      → IsFirst (drop from text) found
      → IsBefore state from
      → let start = from + found + 3 in
        let end = start + authority_len (drop start text) in
        Stripped (drop end text) out
        → result ≡ done (strip_authority text start end state) end ++ out
        → (out' : Text) × Stripped (drop from text) out' × (result ≡ done state from ++ out')
  unfolding IsBefore
  url_lem from found state result out first h stripped e =
      let start = from + found + 3 in
      let len = authority_len (drop start text) in
      let end = start + len in
      let authority = part text start end in
      let (split, scheme, length_before) = scheme_lem from found first in
      let (inside, ended) = authority_lem (drop start text) in
      let (host, is_host, before_end, joined) =
        strip_authority_lem start end state (omega arith) (omega (arith, h.0), h.1) in
      let count : end - start ≡ len = omega arith in
      (
        before from found first ++ (codes "://" ++ (host ++ out)),
        url (before from found first) authority host (drop end text)
            (split
              ∙ ap (λ r. before from found first ++ (codes "://" ++ r))
                  (sym (part-drop start end (omega arith))))
            (subst (IsFirst (drop from text)) (sym length_before) first)
            (subst (λ n. All (λ c. ends_authority c ≡ false) (take n (drop start text))) (sym count)
              inside)
            (subst IsEnded (drop-drop start len text) ended) is_host stripped,
        e
            ∙ (ap (λ r. r ++ out) joined
                ∙ rw (
                  done_more state from start h.0 (omega arith),
                  scheme,
                  append_assoc,
                  append_assoc,
                  append_assoc,
                )),
      )

  -- What the loop gives, at a place up to which the text is accounted for, if it has rounds enough.
  strip_urls_lem :
      (fuel from : ℕ) (state : Option Text × ℕ)
      → length text ≤ fuel + from
      → IsBefore state from
      → (out : Text) × Stripped (drop from text) out
        × (rejoined text (strip_urls text fuel from state) ≡ done state from ++ out)
  unfolding strip_urls IsBefore
  strip_urls_lem zero from state enough h = (
    drop from text,
    no_url (λ i. rw (drop-all from text (omega arith)) (starts-nil i)),
    rejoined_lem state from h,
  )
  strip_urls_lem (suc fuel) from state enough h =
      let rest = drop from text in
      elim (Option-cases (find_scheme rest)) [
        | inl missing ↦
            rw (missing, strip_urls)
              (rest, no_url (find_scheme-none rest missing), rejoined_lem state from h)
        | inr (found, at) ↦
            let start = from + found + 3 in
            let end = start + authority_len (drop start text) in
            let (host, is_host, before_end, joined) =
              strip_authority_lem start end state (omega arith) (omega (arith, h.0), h.1) in
            let (out, stripped, e) =
              strip_urls_lem fuel end (strip_authority text start end state) (omega arith)
                before_end in
            rw (at, strip_urls)
              (url_lem from found state _ out (find_scheme-IsFirst rest at) h stripped e)
      ]

-- For every text, `without_url_userinfo` gives the text with, in each `://` that is not inside an
-- authority found before, the authority cut to what follows its last at sign, and all else kept; an
-- authority goes on to a slash, white space or the end.
pub without_url_userinfo-Stripped : (text : Text) → Stripped text (without_url_userinfo text)
unfolding without_url_userinfo done or_new IsBefore
without_url_userinfo-Stripped text =
    let (out, stripped, e) =
      strip_urls_lem text (length text) 0 (none, 0) (omega arith) (omega arith, λ e. refl) in
    subst (Stripped text) (sym e) stripped
