-- ===== src/Auth/OtpRequest/Atomicity.antt =====
-- What a request for a one-time code that fails leaves behind.
use sauth.Prelude.{ℕ, ◌≡◌}
use sauth.Text.{Text}
use sauth.Errors.{Err, err, Lookup}
use sauth.Env.{Env, Channel, email, sms}
use sauth.Db.{User}
use sauth.Db.Users.{get_user_by_email, get_user_by_phone}
use sauth.Db.Otp.{get_latest_otp_created_at}
use sauth.Otp
use sauth.Exec.{World, query}
use sauth.Exec.Atomic.{IsAtomic, Any, atomic_rules}
use sauth.Exec.FailSafe.{
  IsReader, IsReader-query, IsFailSafe, select-reads, fail_safe_rules, reader_rules,
}
use sauth.Exec.Unseen.{IsSure, IsFailSafe-before, sure_rules}
use sauth.Auth.OtpRequest.{
  OtpRequestInput, user_by_destination, lookup_user_by_destination, request_in_tx, send_otp,
  request_known, request_last, request_classified, request_otp,
}

module _ (env : Env) where
  request_in_tx-IsAtomic :
      (input : OtpRequestInput) (dest code : Text)
      → IsAtomic Any (request_in_tx env input dest code)
  unfolding request_in_tx
  request_in_tx-IsAtomic input dest code = search atomic_rules depth 12

  send_otp-IsSure :
      (channel : Channel) (dest code purpose : Text)
      → IsSure (send_otp env channel dest code purpose)
  unfolding send_otp
  send_otp-IsSure channel dest code purpose = record { at = λ w e h. cc h }

  generate-IsReader : IsReader (Otp.generate env)
  unfolding Otp.generate
  generate-IsReader = search reader_rules depth 12

  by_destination-IsReader :
      (p : ℕ) (channel : Channel) (dest : Text)
      → IsReader (lookup_user_by_destination env p channel dest)
  unfolding lookup_user_by_destination user_by_destination get_user_by_email get_user_by_phone
  by_destination-IsReader p email dest = IsReader-query env _ λ t d a d' h. select-reads _ d a d' h
  by_destination-IsReader p sms dest = IsReader-query env _ λ t d a d' h. select-reads _ d a d' h

  latest-IsReader :
      (p : ℕ) (dest purpose : Text)
      → IsReader (query env (get_latest_otp_created_at p dest purpose))
  unfolding get_latest_otp_created_at
  latest-IsReader p dest purpose = IsReader-query env _ λ t d a d' h. select-reads _ d a d' h

  known-IsFailSafe :
      (input : OtpRequestInput) (channel : Channel) (dest : Text) (l : Lookup User)
      → IsFailSafe Any (λ d. d) (request_known env input channel dest l)
  unfolding request_known
  known-IsFailSafe input channel dest l =
      search
        (
          fail_safe_rules, sure_rules, IsFailSafe-before, generate-IsReader, request_in_tx-IsAtomic,
          send_otp-IsSure,
        )
        depth 14

  last-IsFailSafe :
      (input : OtpRequestInput) (channel : Channel) (dest : Text) (l : Lookup ℕ)
      → IsFailSafe Any (λ d. d) (request_last env input channel dest l)
  unfolding request_last
  last-IsFailSafe input channel dest l =
      search (fail_safe_rules, by_destination-IsReader, known-IsFailSafe) depth 12

  classified-IsFailSafe :
      (input : OtpRequestInput) (c : Channel × Text)
      → IsFailSafe Any (λ d. d) (request_classified env input c)
  unfolding request_classified
  classified-IsFailSafe input c =
      search (fail_safe_rules, latest-IsReader, last-IsFailSafe) depth 12

  request-IsFailSafe : (input : OtpRequestInput) → IsFailSafe Any (λ d. d) (request_otp env input)
  unfolding request_otp
  request-IsFailSafe input = search (fail_safe_rules, classified-IsFailSafe) depth 12

  -- A request for a code that fails leaves the database as it was: the earlier codes stay valid.
  pub request-atomic :
      (input : OtpRequestInput) (w : World) (e : Err)
      → (request_otp env input w).0 ≡ err e
      → (request_otp env input w).1.db ≡ w.db
  request-atomic input w e h = (request-IsFailSafe input).at w e tt h
