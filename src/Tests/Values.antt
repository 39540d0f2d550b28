-- ===== src/Tests/Values.antt =====
-- Tokens, codes and telephone numbers.
use sauth.Prelude.{ℕ, ◌+◌, ◌≡◌, ◌<◌, refl, some, [], ◌∷◌, arith, ◌⊎◌}
use sauth.Text.{Text, lit, text_eq}
use sauth.Text.Hex.{AreBytes}
use sauth.Errors.{ok}
use sauth.Text
use sauth.Db.Table
use sauth.Exec
use sauth.Token
use sauth.Otp
use sauth.Env.{Env, AccessClaims}
use sauth.Exec.{World}
use sauth.Token.{access_claims, issue_access}
use sauth.Token.Claims.{Opens, parse-issue}
use sauth.Otp.Codes.{IsCode, generate-IsCode, equal-hash}
use sauth.Auth.Destination.{normalize_phone}
use sauth.Auth.Destination.Phone.{IsE164, normalize-E164}
use sauth.Tests.{env, start}

abbrev claims : AccessClaims
claims = access_claims env 0 1_000_000_000 (lit "user") (lit "project") (lit "admin" ∷ []) []

-- The signature of `claims` opens to them.
abbrev signing : Env
signing = record env { open_signed = λ t. some claims }

abbrev signed_world : World
signed_world = (issue_access signing (lit "user") (lit "project") (lit "admin" ∷ []) [] start).1

issue_run :
    issue_access signing (lit "user") (lit "project") (lit "admin" ∷ []) [] start
    ≡ (ok (lit "user", 1_900_000_000), signed_world)
unfolding Text.text_eq Text.trim_left Text.trim_right Text.trim_space Text.is_space Text.contains
    Text.to_lower Text.to_lower_rune Text.len Text.rune_len Text.has_prefix Table.find Table.exists
    Table.update_where Table.rows_where Table.join Table.insert_sorted Table.order_by Table.distinct
    Exec.reject_if Exec.◌>>=◌ Exec.call Exec.query Exec.begin Exec.commit Exec.rollback
    Exec.deferred Exec.in_tx Token.issue_access
issue_run = refl

parse-issue_example :
    (1_900_000_000 ≡ start.now + signing.access_ttl) × Opens signing claims (lit "user")
parse-issue_example =
    parse-issue signing (lit "user") (lit "project") (lit "admin" ∷ []) [] start signed_world
      (lit "user") 1_900_000_000 refl issue_run

abbrev drawn_world : World
drawn_world = (Otp.generate env (record start { calls = 1_000_042 })).1

generate_run :
    Otp.generate env (record start { calls = 1_000_042 }) ≡ (ok (lit "000042"), drawn_world)
unfolding Text.text_eq Text.trim_left Text.trim_right Text.trim_space Text.is_space Text.contains
    Text.to_lower Text.to_lower_rune Text.len Text.rune_len Text.has_prefix Table.find Table.exists
    Table.update_where Table.rows_where Table.join Table.insert_sorted Table.order_by Table.distinct
    Exec.reject_if Exec.◌>>=◌ Exec.call Exec.query Exec.begin Exec.commit Exec.rollback
    Exec.deferred Exec.in_tx Otp.times_ten Otp.decimal Otp.sprintf_zero_padded Otp.generate
generate_run = refl

pub random_below-less : (k bound : ℕ) → 0 < bound → env.random_below k bound < bound
random_below-less k bound h = omega (arith, h)

generate-IsCode_example : IsCode env (env.random_below 1_000_042 1_000_000) (lit "000042")
generate-IsCode_example =
    generate-IsCode env random_below-less (record start { calls = 1_000_042 }) drawn_world
      (lit "000042") generate_run

pub otp_mac-AreBytes : (c : Text) → AreBytes (env.otp_mac c)
otp_mac-AreBytes [] = tt
otp_mac-AreBytes (c ∷ s) = (omega arith, otp_mac-AreBytes s)

equal-hash_example :
    Otp.equal env (lit "123456") (Otp.hash env (lit "654321"))
    ≡ text_eq (env.otp_mac (lit "123456")) (env.otp_mac (lit "654321"))
equal-hash_example = equal-hash env otp_mac-AreBytes (lit "123456") (lit "654321")

normalize-E164_example :
    (normalize_phone (lit "+49 (151) 123-4567") ≡ [])
    ⊎ IsE164 (normalize_phone (lit "+49 (151) 123-4567"))
normalize-E164_example = normalize-E164 (lit "+49 (151) 123-4567")

phone-IsE164 : IsE164 (lit "+491511234567")
phone-IsE164 = record {
  digits = lit "491511234567";
  shape = refl;
  numeric = refl;
  at_least = omega arith;
  at_most = omega arith;
}
