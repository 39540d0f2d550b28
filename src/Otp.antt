-- ===== src/Otp.antt =====
-- backend/internal/otp/otp.go
pub mod Codes
use sauth.Prelude.{
  ℕ, zero, suc, ◌+◌, ◌-◌, ◌*◌, ◌/◌, ◌%◌, Bool, false, none, some, [], ◌∷◌, ◌++◌, length, replicate,
  ltb, if◌then◌else◌,
}
use sauth.Text.{Text, text_eq}
use sauth.Text.Hex.{hex_encode, hex_decode}
use sauth.Env.{Env}
use sauth.Exec.{Exec, pure, call, ◌>>=◌}

abbrev pub digits : ℕ
digits = 6

-- for i := 0; i < Digits; i++ { upper.Mul(upper, ten) }
unfoldable pub times_ten : ℕ → ℕ → ℕ
times_ten zero upper = upper
times_ten (suc i) upper = times_ten i (upper * 10)

-- The decimal digits of `n`; the fuel is more than their number.
unfoldable pub decimal : ℕ → ℕ → Text
decimal zero n = []
decimal (suc fuel) n =
    let more = decimal fuel (n / 10) ++ (48 + n % 10) ∷ [] in
    if ltb n 10 then (48 + n) ∷ [] else more

-- fmt.Sprintf("%0*d", width, n)
unfoldable pub sprintf_zero_padded : ℕ → ℕ → Text
unfolding decimal
sprintf_zero_padded width n = let s = decimal (suc n) n in replicate (width - length s) 48 ++ s

module _ (env : Env) where
  unfoldable pub generate : Exec Text
  generate = do
    n ← call env
    pure (sprintf_zero_padded digits (env.random_below n (times_ten digits 1)))

  -- Hasher.Hash
  unfoldable pub hash : Text → Text
  hash code = hex_encode (env.otp_mac code)

  -- Hasher.Equal
  unfoldable pub equal : Text → Text → Bool
  equal code stored_hex = elim (hex_decode stored_hex) [
    | none ↦ false
    | some want ↦ text_eq (env.otp_mac code) want
  ]
