-- ===== src/Callback/Token.antt =====
-- Callback tokens (internal/workflow/token/generator.go). A text is the list of its code points, and
-- random bytes are numbers below 256. SHA-256 is a parameter of the callers.
use ottoflow.Prelude.{
  ℕ, ◌+◌, ◌-◌, ◌*◌, ◌/◌, ◌%◌, ◌<◌, Bool, true, false, not, Option, none, some, List, [], ◌∷◌, ◌++◌,
  ◌≡◌, refl, ◌&&◌, ◌||◌, if◌then◌else◌, length, take, drop, ltb, eqb, arith, ap, subst,
}

abbrev pub token_length : ℕ
token_length = 32

-- "cb_"
abbrev pub token_prefix : List ℕ
token_prefix = b'c' ∷ b'b' ∷ b'_' ∷ []

-- A hexadecimal digit of `%x`.
unfoldable pub hex_digit : ℕ → ℕ
hex_digit n = if ltb n 10 then b'0' + n else b'a' + n - 10

-- `fmt.Sprintf("%x", bytes)`
unfoldable pub encode_hex : List ℕ → List ℕ
unfolding hex_digit
encode_hex [] = []
encode_hex (b ∷ bs) = hex_digit (b / 16) ∷ hex_digit (b % 16) ∷ encode_hex bs

-- Generate: from what io.ReadFull reads, the token.
unfoldable pub generate : Option (List ℕ) → Option (List ℕ)
unfolding encode_hex
generate none = none
generate (some bytes) = some (token_prefix ++ encode_hex bytes)

unfoldable pub is_hex : ℕ → Bool
is_hex c = not ((ltb c b'0' || ltb b'9' c) && (ltb c b'a' || ltb b'f' c))

unfoldable pub all_hex : List ℕ → Bool
unfolding is_hex
all_hex [] = true
all_hex (c ∷ cs) = is_hex c && all_hex cs

unfoldable pub same_codes : List ℕ → List ℕ → Bool
same_codes [] [] = true
same_codes (a ∷ as') (b ∷ bs) = eqb a b && same_codes as' bs
same_codes _ _ = false

-- ValidateToken
unfoldable pub validate_token : List ℕ → Bool
unfolding all_hex same_codes
validate_token t =
    if not (eqb (length t) (length token_prefix + 64))
    then false
    else (if not (same_codes (take (length token_prefix) t) token_prefix)
        then false
        else all_hex (drop (length token_prefix) t))

-- Bytes that io.ReadFull can read.
abbrev pub AreBytes : List ℕ → Type 0
AreBytes [] = Unit {0}
AreBytes (b ∷ bs) = (b < 256) × AreBytes bs

hex_digit-is_hex : (n : ℕ) → n < 16 → is_hex (hex_digit n) ≡ true
unfolding hex_digit is_hex
hex_digit-is_hex n h = ground arith

encode_hex-all_hex : (bs : List ℕ) → AreBytes bs → all_hex (encode_hex bs) ≡ true
unfolding encode_hex all_hex
encode_hex-all_hex [] h = refl
encode_hex-all_hex (b ∷ bs) h =
    rw (hex_digit-is_hex (b / 16) (omega arith), hex_digit-is_hex (b % 16) (omega arith))
      (encode_hex-all_hex bs h.1)

length-encode_hex : (bs : List ℕ) → length (encode_hex bs) ≡ 2 * length bs
unfolding encode_hex
length-encode_hex [] = refl
length-encode_hex (b ∷ bs) = omega (arith, length-encode_hex bs)

all_hex-codes :
    (bytes : List ℕ)
    → all_hex (drop 3 (token_prefix ++ encode_hex bytes)) ≡ all_hex (encode_hex bytes)
all_hex-codes bytes = refl

same_codes-prefix : (cs : List ℕ) → same_codes (take 3 (token_prefix ++ cs)) token_prefix ≡ true
unfolding same_codes
same_codes-prefix cs = refl

validate_token-codes :
    (cs : List ℕ) → length cs ≡ 64 → all_hex cs ≡ true → validate_token (token_prefix ++ cs) ≡ true
unfolding validate_token same_codes
validate_token-codes cs n h = ground (arith, n, h)

or_empty : Option (List ℕ) → List ℕ
or_empty none = []
or_empty (some t) = t

-- Every token that Generate makes of 32 random bytes is one that ValidateToken accepts.
pub validate_token-generate :
    (bytes : List ℕ) (t : List ℕ)
    → length bytes ≡ token_length
    → AreBytes bytes
    → generate (some bytes) ≡ some t
    → validate_token t ≡ true
unfolding generate or_empty
validate_token-generate bytes t n h e =
    subst (λ y. validate_token y ≡ true) (ap (or_empty) e)
      (validate_token-codes (encode_hex bytes) (omega (arith, length-encode_hex bytes))
        (encode_hex-all_hex bytes h))
