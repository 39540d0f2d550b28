-- ===== src/Auth/Destination.antt =====
-- classifyDestination and normalizePhone of backend/internal/auth/otp.go.
pub mod Phone
use sauth.Prelude.{
  ℕ, ◌-◌, ◌≡◌, Bool, true, false, not, ◌&&◌, ◌||◌, none, some, List, [], ◌∷◌, ◌++◌, length, leb,
  ltb, ◌==◌, if◌then◌else◌,
}
use sauth.Text.{Text, text_eq, trim_space, to_lower, contains, has_prefix, len}
use sauth.Text.Digits.{is_digit}
use sauth.Errors.{Outcome, ok, err, invalid_destination}
use sauth.Env.{Env, Channel, email, sms}

-- The loop of normalizePhone: what it has written so far is `b`.
unfoldable pub phone_runes : Text → Text → Text
phone_runes b [] = b
phone_runes b (r ∷ v) =
    phone_runes (if is_digit r || (r == b'+' && text_eq b []) then b ++ r ∷ [] else b) v

-- digits := len(s) - 1, of a text that begins with a plus sign
abbrev pub is_out_of_bounds : Text → Bool
is_out_of_bounds s = ltb (len s - 1) 7 || ltb 15 (len s - 1)

-- The two returns of normalizePhone after its loop.
unfoldable pub bounded_phone : Text → Text
bounded_phone s = if has_prefix s (b'+' ∷ []) then (if is_out_of_bounds s then [] else s) else []

unfoldable pub normalize_phone : Text → Text
unfolding phone_runes bounded_phone
normalize_phone v = bounded_phone (phone_runes [] v)

module _ (env : Env) where
  abbrev pub classify_email : Text → Outcome (Channel × Text)
  classify_email v = if env.is_address v then ok (email, v) else err invalid_destination

  abbrev pub classify_phone : Text → Outcome (Channel × Text)
  classify_phone p = if text_eq p [] then err invalid_destination else ok (sms, p)

  unfoldable pub classify_destination : Text → Outcome (Channel × Text)
  classify_destination raw =
      let v = trim_space raw in
      if text_eq v []
      then err invalid_destination
      else if contains b'@' v
      then classify_email (to_lower env.lower_rune v)
      else classify_phone (normalize_phone v)
