-- ===== src/Auth/Integrity/Codes.antt =====
-- The flows of one-time codes keep what the statements keep.
use sauth.Prelude.{ℕ, Bool-cases, inl, inr, Option, none, some}
use sauth.Text.{Text, trim_space}
use sauth.Errors.{Outcome, ok, err, Lookup, found, missing, failed}
use sauth.Env.{Env, Channel, email, sms}
use sauth.Db.{Db, User, OtpCode}
use sauth.Db.Kept.{IsKept, read_rules, write_rules}
use sauth.Otp
use sauth.Exec.Keeps.{Keeps, keeps_rules, Keeps-raise}
use sauth.Auth.Integrity.{create-Keeps, assign_default_role-Keeps, issue-Keeps}
use sauth.Auth.OtpRequest.{
  OtpRequestInput, user_by_destination, lookup_user_by_destination, request_in_tx, send_otp,
  request_known, request_last, request_classified, request_otp,
}
use sauth.Auth.OtpVerify.{
  mark_verified, login_user, signup_user, resolve_user, verify_in_tx, verify_classified,
  count_attempt, lock, check_code, verify_found, verify_id, verify_parsed, verify_otp,
}

module _ (env : Env) {P : Db → Type 0} (kept : IsKept env P) where
  by_destination-Keeps :
      (p : ℕ) (channel : Channel) (dest : Text)
      → Keeps P (lookup_user_by_destination env p channel dest)
  unfolding lookup_user_by_destination user_by_destination
  by_destination-Keeps p email dest = search (keeps_rules, read_rules)
  by_destination-Keeps p sms dest = search (keeps_rules, read_rules)

  request_in_tx-Keeps :
      (input : OtpRequestInput) (dest code : Text) → Keeps P (request_in_tx env input dest code)
  unfolding request_in_tx
  request_in_tx-Keeps input dest code = search (keeps_rules, write_rules) depth 14

  send_otp-Keeps :
      (channel : Channel) (dest code purpose : Text)
      → Keeps P (send_otp env channel dest code purpose)
  unfolding send_otp
  send_otp-Keeps channel dest code purpose = record {
    at = λ w h. elim (Bool-cases (env.sender_fails w.calls)) [
      | inl e ↦ rw e h
      | inr e ↦ rw e (record { db = h.db; saved = h.saved })
    ];
  }

  generate-Keeps : Keeps P (Otp.generate env)
  unfolding Otp.generate
  generate-Keeps = search keeps_rules depth 12

  request_known-Keeps :
      (input : OtpRequestInput) (channel : Channel) (dest : Text) (l : Lookup User)
      → Keeps P (request_known env input channel dest l)
  unfolding request_known
  request_known-Keeps input channel dest l =
      search (keeps_rules, generate-Keeps, request_in_tx-Keeps, send_otp-Keeps) depth 16

  request_last-Keeps :
      (input : OtpRequestInput) (channel : Channel) (dest : Text) (l : Lookup ℕ)
      → Keeps P (request_last env input channel dest l)
  unfolding request_last
  request_last-Keeps input channel dest l =
      search (keeps_rules, by_destination-Keeps, request_known-Keeps) depth 14

  request_classified-Keeps :
      (input : OtpRequestInput) (c : Channel × Text) → Keeps P (request_classified env input c)
  unfolding request_classified
  request_classified-Keeps input c = search (keeps_rules, read_rules, request_last-Keeps) depth 12

  pub request-Keeps : (input : OtpRequestInput) → Keeps P (request_otp env input)
  unfolding request_otp
  request-Keeps input = search (keeps_rules, request_classified-Keeps) depth 12

  mark_verified-Keeps : (user : User) (channel : Channel) → Keeps P (mark_verified env user channel)
  unfolding mark_verified
  mark_verified-Keeps user email = search (keeps_rules, write_rules) depth 12
  mark_verified-Keeps user sms = search (keeps_rules, write_rules) depth 12

  login_user-Keeps : (channel : Channel) (l : Lookup User) → Keeps P (login_user env channel l)
  login_user-Keeps channel missing = Keeps-raise _
  login_user-Keeps channel (failed e) = Keeps-raise _
  login_user-Keeps channel (found user) = search (keeps_rules, mark_verified-Keeps) depth 12

  signup_user-Keeps :
      (p : ℕ) (channel : Channel) (dest : Text) (l : Lookup User)
      → Keeps P (signup_user env p channel dest l)
  signup_user-Keeps p channel dest (found user) = Keeps-raise _
  signup_user-Keeps p channel dest (failed e) = Keeps-raise _
  signup_user-Keeps p channel dest missing =
      search
        (
          keeps_rules,
          create-Keeps env kept,
          mark_verified-Keeps,
          assign_default_role-Keeps env kept,
        )
        depth 14

  resolve_user-Keeps :
      (p : ℕ) (purpose : Text) (channel : Channel) (dest : Text)
      → Keeps P (resolve_user env p purpose channel dest)
  unfolding resolve_user
  resolve_user-Keeps p purpose channel dest =
      search (keeps_rules, by_destination-Keeps, login_user-Keeps, signup_user-Keeps) depth 14

  verify_in_tx-Keeps :
      (id p : ℕ) (purpose : Text) (channel : Channel) (dest : Text)
      → Keeps P (verify_in_tx env id p purpose channel dest)
  unfolding verify_in_tx
  verify_in_tx-Keeps id p purpose channel dest =
      search (keeps_rules, write_rules, resolve_user-Keeps, issue-Keeps env kept) depth 14

  verify_classified-Keeps :
      (id p : ℕ) (purpose : Text) (c : Outcome (Channel × Text))
      → Keeps P (verify_classified env id p purpose c)
  verify_classified-Keeps id p purpose (err e) = Keeps-raise _
  verify_classified-Keeps id p purpose (ok (channel, dest)) =
      search (keeps_rules, verify_in_tx-Keeps) depth 12

  count_attempt-Keeps : (id : ℕ) → Keeps P (count_attempt env id)
  unfolding count_attempt
  count_attempt-Keeps id = search (keeps_rules, write_rules) depth 14

  lock-Keeps : (id : ℕ) → Keeps P (lock env id)
  unfolding lock
  lock-Keeps id = search (keeps_rules, write_rules) depth 14

  check_code-Keeps : (id p : ℕ) (code : Text) (o : OtpCode) → Keeps P (check_code env id p code o)
  unfolding check_code
  check_code-Keeps id p code o =
      search (keeps_rules, verify_classified-Keeps, count_attempt-Keeps) depth 12

  verify_found-Keeps :
      (id p : ℕ) (code : Text) (l : Lookup OtpCode) → Keeps P (verify_found env id p code l)
  verify_found-Keeps id p code missing = Keeps-raise _
  verify_found-Keeps id p code (failed e) = Keeps-raise _
  verify_found-Keeps id p code (found o) =
      search (keeps_rules, lock-Keeps, check_code-Keeps) depth 14

  verify_parsed-Keeps :
      (p : ℕ) (code : Text) (id : Option ℕ) → Keeps P (verify_parsed env p code id)
  unfolding verify_id
  verify_parsed-Keeps p code none = Keeps-raise _
  verify_parsed-Keeps p code (some id) =
      search (keeps_rules, read_rules, verify_found-Keeps) depth 12

  pub verify-Keeps : (p : ℕ) (id code : Text) → Keeps P (verify_otp env p id code)
  unfolding verify_otp
  verify-Keeps p id code = verify_parsed-Keeps p code (env.parse_uuid (trim_space id))
