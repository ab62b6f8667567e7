-- ===== src/Stimulus/Token.antt =====
-- cvc-core/src/stimulus.rs, "tokens": tool names, boundary tokens and how they are computed.
pub mod Laws
use volute.Prelude.{
  ℕ, ◌+◌, ◌-◌, ◌/◌, ◌%◌, ◌<◌, ◌≡◌, Bool, true, false, ◌&&◌, ◌||◌, List, [], ◌∷◌, ◌++◌, map, leb,
  ltb, ◌==◌, if◌then◌else◌, length, take, All,
}
use volute.Bytes.{Bytes, codes, bytes_eq, slice, all, is_digit, match_indices}
use volute.Stimulus.{
  PartKind, shape_name, max_name_bytes, boundary_prefix, boundary_len, boundary_domain,
}

-- SHA-256 is a library's. A digest is 32 bytes.
pub record Sha256 : Type 0 where
  pub digest : Bytes → Bytes
  pub length_digest : (m : Bytes) → length (digest m) ≡ 32
  pub digest_bytes : (m : Bytes) → All (λ b. b < 256) (digest m)

unfoldable pub is_name_byte : ℕ → Bool
unfolding is_digit
is_name_byte b =
    is_digit b
    || leb b'a' b && leb b b'z'
    || leb b'A' b && leb b b'Z'
    || b == b'_'
    || b == b'.'
    || b == b':'
    || b == b'-'

unfoldable pub is_valid_name : Bytes → Bool
unfolding all is_name_byte
is_valid_name name =
    leb 1 (length name) && leb (length name) max_name_bytes && all is_name_byte name

unfoldable pub is_hex : ℕ → Bool
unfolding is_digit
is_hex b = is_digit b || leb b'a' b && leb b b'f'

-- Whether a boundary token starts at `at`. The bounds are tested first, and `&&` hides what a slice
-- out of bounds would be.
unfoldable pub token_at : Bytes → ℕ → Bool
unfolding slice bytes_eq all is_hex
token_at bytes at =
    leb (at + boundary_len) (length bytes)
    && bytes_eq (slice bytes at (at + length boundary_prefix)) boundary_prefix
    && all is_hex (slice bytes (at + length boundary_prefix) (at + boundary_len))

-- The tokens at those of the offsets where one starts.
unfoldable pub tokens_at : Bytes → List ℕ → List Bytes
unfolding token_at
tokens_at text [] = []
tokens_at text (at ∷ ats) =
    let rest = tokens_at text ats in
    if token_at text at then slice text at (at + boundary_len) ∷ rest else rest

unfoldable pub tokens_in : Bytes → List Bytes
unfolding match_indices tokens_at
tokens_in text = tokens_at text (match_indices boundary_prefix text)

unfoldable pub contains_token : Bytes → Bool
unfolding tokens_in
contains_token text = elim (tokens_in text) [ [] ↦ false | _ ∷ _ ↦ true ]

-- `.join(",")`
unfoldable pub join_comma : List Bytes → Bytes
join_comma [] = []
join_comma (x ∷ []) = x
join_comma (x ∷ y ∷ xs) = x ++ (codes "," ++ join_comma (y ∷ xs))

unfoldable pub shape_of : List PartKind → Bytes
unfolding join_comma shape_name
shape_of kinds = join_comma (map shape_name kinds)

unfoldable pub hex_digit : ℕ → ℕ
hex_digit n = if ltb n 10 then b'0' + n else b'a' + (n - 10)

-- `write!(token, "{byte:02x}")` for each byte
unfoldable pub hex : Bytes → Bytes
unfolding hex_digit
hex [] = []
hex (b ∷ bs) = hex_digit (b / 16) ∷ hex_digit (b % 16) ∷ hex bs

-- `candidate.to_be_bytes()` of a `u32`
unfoldable pub be_bytes : ℕ → Bytes
be_bytes n = (n / 0x1000000) % 256 ∷ (n / 0x10000) % 256 ∷ (n / 0x100) % 256 ∷ n % 256 ∷ []

-- `boundary(id, shape, candidate)`, with `id.to_string()` for the id.
unfoldable pub boundary : Sha256 → Bytes → Bytes → ℕ → Bytes
unfolding hex be_bytes
boundary sha id shape candidate =
    boundary_prefix
    ++ hex
        (take 8 (sha.digest (boundary_domain ++ (id ++ (0 ∷ (shape ++ (0 ∷ be_bytes candidate)))))))
