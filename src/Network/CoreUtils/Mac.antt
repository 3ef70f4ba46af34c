-- ===== src/Network/CoreUtils/Mac.antt =====
-- About the text of a MAC address.
use Prim.Native.Nat.{◌/◌, ◌%◌}
use Prim.Native.Char.{Char}
use Prim.Native.String.{String}
use text.Mathlib.TextLemmas.{cons-append, nil-append}
use netavark.Prelude.{
  ℕ, ◌<>◌, ◌≡◌, ◌<◌, refl, ap, ◌∙◌, true, false, not, List, [], ◌∷◌, map, ok, err, length, join,
  ◌==◌, if◌then◌else◌, All, arith,
}
use netavark.Prelude.Hex.{
  split, format_02x, hex_char, all_below, hex_char_lem, from_str_radix-format_02x,
}
use netavark.Error.{other}
use netavark.Network.CoreUtils.{
  encode_address_to_hex, is_separator, parse_bytes, decode_address_from_hex,
}

abbrev pub IsByte : ℕ → Type 0
IsByte n = n < 256

-- A text is read as these bytes, if they are six, and else is an error of the length.
abbrev pub IsReadAs : String → List ℕ → Type 0
IsReadAs input bytes = decode_address_from_hex input ≡ (
    if length bytes == 6
    then ok bytes
    else err (record { kind = other; text = "invalid mac length for address: " <> input }))

digit-is_separator : (d : ℕ) → d < 16 → is_separator (hex_char d) ≡ false
unfolding all_below
digit-is_separator d h =
    let found = hex_char_lem (λ c. not (is_separator c)) d refl h in ground (arith, found)

-- The two digits of a byte are not split.
split-format_02x : (n : ℕ) → n < 256 → split is_separator (format_02x n) ≡ format_02x n ∷ []
unfolding split format_02x
split-format_02x n h =
    rw (digit-is_separator (n / 16) (omega arith), digit-is_separator (n % 16) (omega arith)) refl

-- Two digits and a separator before a text.
split-format_02x_next :
    (n : ℕ) (c : Char) (s : String)
    → n < 256
    → is_separator c ≡ true
    → split is_separator (format_02x n <> (String.◌∷◌ c String.[] <> s))
      ≡ format_02x n ∷ split is_separator s
unfolding split format_02x
split-format_02x_next n c s h e =
    rw
      (
        cons-append (hex_char (n / 16)) (String.◌∷◌ (hex_char (n % 16)) String.[])
            (String.◌∷◌ c String.[] <> s),
        cons-append (hex_char (n % 16)) String.[] (String.◌∷◌ c String.[] <> s),
        nil-append (String.◌∷◌ c String.[] <> s),
        cons-append c String.[] s,
        nil-append s,
        digit-is_separator (n / 16) (omega arith),
        digit-is_separator (n % 16) (omega arith),
        e,
      )
      refl

-- The bytes joined by a separator are split at these places.
split-join :
    (c : Char) (b : ℕ) (bytes : List ℕ)
    → is_separator c ≡ true
    → All IsByte (b ∷ bytes)
    → split is_separator (join (String.◌∷◌ c String.[]) (map format_02x (b ∷ bytes)))
      ≡ map format_02x (b ∷ bytes)
split-join c b [] e h = split-format_02x b h.0
split-join c b (b' ∷ bytes) e h =
    split-format_02x_next b c (join (String.◌∷◌ c String.[]) (map format_02x (b' ∷ bytes))) h.0 e
    ∙ ap (λ pieces. format_02x b ∷ pieces) (split-join c b' bytes e h.1)

parse_bytes-map :
    (bytes : List ℕ) → All IsByte bytes → parse_bytes (map format_02x bytes) ≡ ok bytes
unfolding parse_bytes
parse_bytes-map [] h = refl
parse_bytes-map (b ∷ bytes) h =
    rw (from_str_radix-format_02x b h.0, parse_bytes-map bytes h.1, parse_bytes) refl

decode-join :
    (c : Char) (b : ℕ) (bytes : List ℕ)
    → is_separator c ≡ true
    → All IsByte (b ∷ bytes)
    → IsReadAs (join (String.◌∷◌ c String.[]) (map format_02x (b ∷ bytes))) (b ∷ bytes)
unfolding decode_address_from_hex
decode-join c b bytes e h =
    rw (split-join c b bytes e h, parse_bytes-map (b ∷ bytes) h, decode_address_from_hex) refl

-- The text that is made of one or more bytes, which has `:` between them, is read as these bytes
-- if they are six, and is an error of the length if they are not; so is the text with `-` between
-- the same digits.
pub decode-encode :
    (b : ℕ) (bytes : List ℕ)
    → All IsByte (b ∷ bytes)
    → IsReadAs (encode_address_to_hex (b ∷ bytes)) (b ∷ bytes)
      × IsReadAs (join "-" (map format_02x (b ∷ bytes))) (b ∷ bytes)
unfolding encode_address_to_hex
decode-encode b bytes h = (decode-join ":" b bytes refl h, decode-join "-" b bytes refl h)
