-- ===== src/Text/Hex.antt =====
-- The package encoding/hex, as backend/internal/token/token.go and backend/internal/otp/otp.go use it.
use sauth.Prelude.{
  ℕ, ◌+◌, ◌-◌, ◌*◌, ◌/◌, ◌%◌, ◌<◌, ◌≡◌, refl, ◌&&◌, Option, none, some, List, [], ◌∷◌, arith, leb,
  ltb, if◌then◌else◌,
}
use sauth.Text.{Text}

hex_digit : ℕ → ℕ
hex_digit d = if ltb d 10 then 48 + d else 87 + d

-- hex.EncodeToString
unfoldable pub hex_encode : List ℕ → Text
unfolding hex_digit
hex_encode [] = []
hex_encode (b ∷ bs) = hex_digit (b / 16) ∷ hex_digit (b % 16) ∷ hex_encode bs

unfoldable pub from_hex_char : ℕ → Option ℕ
from_hex_char c =
    if leb 48 c && leb c 57
    then some (c - 48)
    else if leb 97 c && leb c 102
    then some (c - 87)
    else if leb 65 c && leb c 70
    then some (c - 55)
    else none

with_byte : Option ℕ → Option ℕ → Option (List ℕ) → Option (List ℕ)
with_byte (some hi) (some lo) (some bs) = some ((hi * 16 + lo) ∷ bs)
with_byte _ _ _ = none

-- hex.DecodeString, which fails on a text of odd length
unfoldable pub hex_decode : Text → Option (List ℕ)
unfolding with_byte
hex_decode [] = some []
hex_decode (c ∷ []) = none
hex_decode (c ∷ d ∷ s) = with_byte (from_hex_char c) (from_hex_char d) (hex_decode s)

abbrev pub AreBytes : List ℕ → Type 0
AreBytes [] = Unit
AreBytes (b ∷ bs) = (b < 256) × AreBytes bs

from_hex_char-hex_digit : (d : ℕ) → d < 16 → from_hex_char (hex_digit d) ≡ some d
unfolding from_hex_char hex_digit
from_hex_char-hex_digit d h = ground arith

-- What is encoded is decoded.
pub decode-encode : (bs : List ℕ) → AreBytes bs → hex_decode (hex_encode bs) ≡ some bs
unfolding hex_encode hex_decode
decode-encode [] h = refl
decode-encode (b ∷ bs) h =
    rw
      (
        from_hex_char-hex_digit (b / 16) (omega (arith, h.0)),
        from_hex_char-hex_digit (b % 16) (omega arith),
        decode-encode bs h.1,
      )
      (ground arith)
