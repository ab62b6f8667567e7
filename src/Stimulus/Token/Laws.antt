-- ===== src/Stimulus/Token/Laws.antt =====
-- The shape of a boundary token, and of what `boundary` computes.
use volute.Prelude.{
  ℕ, ◌+◌, ◌*◌, ◌/◌, ◌%◌, ◌≤◌, ◌<◌, ◌≡◌, refl, sym, ◌∙◌, ap, true, [], ◌∷◌, ◌++◌, length, take, leb,
  le→leb, arith, All, All-take, length-take-le, length-append, take-length-append,
}
use volute.Bytes.{Bytes, bytes_eq, slice, all}
use volute.Bytes.Laws.{bytes_eq→≡, slice-append, length-slice}
use volute.Stimulus.{boundary_prefix, boundary_len, boundary_domain}
use volute.Stimulus.Token.{Sha256, is_hex, token_at, hex_digit, hex, be_bytes, boundary}

-- The prefix and sixteen lowercase hexadecimal digits.
pub record IsToken (token : Bytes) : Type 0 where
  pub digits : Bytes
  pub split : token ≡ boundary_prefix ++ digits
  pub length_digits : length digits ≡ 16
  pub hexadecimal : all is_hex digits ≡ true

pub length-IsToken : {token : Bytes} → IsToken token → length token ≡ boundary_len
length-IsToken t = rw (t.split) (omega (arith, t.length_digits))

hex_digit-is_hex : (n : ℕ) → n < 16 → is_hex (hex_digit n) ≡ true
unfolding is_hex hex_digit
hex_digit-is_hex n h = ground arith

length-hex : (bs : Bytes) → length (hex bs) ≡ 2 * length bs
unfolding hex
length-hex [] = refl
length-hex (b ∷ bs) = omega (arith, length-hex bs)

hex-is_hex : (bs : Bytes) → All (λ b. b < 256) bs → all is_hex (hex bs) ≡ true
unfolding hex all
hex-is_hex [] h = refl
hex-is_hex (b ∷ bs) h =
    rw (hex_digit-is_hex (b / 16) (omega arith), hex_digit-is_hex (b % 16) (omega arith))
      (hex-is_hex bs h.1)

-- For every interaction, shape and candidate, `boundary` computes the prefix and sixteen lowercase
-- hexadecimal digits, whatever the digest of 32 bytes.
pub boundary-IsToken :
    (sha : Sha256) (id shape : Bytes) (candidate : ℕ) → IsToken (boundary sha id shape candidate)
unfolding boundary
boundary-IsToken sha id shape candidate =
    let message = boundary_domain ++ (id ++ (0 ∷ (shape ++ (0 ∷ be_bytes candidate)))) in
    let head = take 8 (sha.digest message) in
    record {
      digits = hex head;
      split = refl;
      length_digits = omega (
        arith,
        length-hex head,
        length-take-le 8 (sha.digest message) (omega (arith, sha.length_digest message)),
      );
      hexadecimal =
          hex-is_hex head
            (All-take (λ b. b < 256) 8 (sha.digest message) (sha.digest_bytes message));
    }

-- Where a token opens a text, `token_at` finds it.
pub token_at-append : (token rest : Bytes) → IsToken token → token_at (token ++ rest) 0 ≡ true
unfolding token_at slice
token_at-append token rest t =
    let digits_kept : take 16 (t.digits ++ rest) ≡ t.digits =
      rw (← t.length_digits) (take-length-append t.digits rest) in
    let room : leb boundary_len (length (boundary_prefix ++ (t.digits ++ rest))) ≡ true =
      le→leb _ _ (omega (arith, length-append t.digits rest, t.length_digits)) in
    rw (t.split, room, digits_kept, t.hexadecimal)

-- Where `token_at` finds a token, there is one.
pub token_at-IsToken :
    (text : Bytes) (at : ℕ)
    → token_at text at ≡ true
    → (at + boundary_len ≤ length text) × IsToken (slice text at (at + boundary_len))
unfolding token_at slice
token_at-IsToken text at h =
    let digits = slice text (at + 5) (at + boundary_len) in
    let room : at + boundary_len ≤ length text = ground arith in
    let opens : bytes_eq (slice text at (at + 5)) boundary_prefix ≡ true = ground arith in
    (
      room,
      record {
        digits = digits;
        split =
            sym (slice-append text at (at + 5) (at + boundary_len) (omega arith) (omega arith))
            ∙ ap (λ (head : Bytes). head ++ digits) (bytes_eq→≡ _ _ opens);
        length_digits = omega (arith, length-slice text (at + 5) (at + boundary_len) room);
        hexadecimal = ground arith;
      },
    )
