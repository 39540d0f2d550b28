-- ===== src/Auth/OtpVerify/Sent.antt =====
-- From the request for a one-time code to the sign-in with the code that was sent.
use mathlib.Core.Path.{subst}
use sauth.Prelude.{
  ℕ, ◌+◌, ◌≤◌, ◌<◌, ◌≡◌, ◌∙◌, refl, sym, ap, true, false, ◌||◌, some, [], ◌∷◌, ◌++◌, arith, ◌==◌,
}
use sauth.Text.{Text, text_eq, trim_space}
use sauth.Text.Hex.{AreBytes}
use sauth.Text.Digits.{trim-digits}
use sauth.Text.Laws.{text_eq_refl}
use sauth.Errors.{ok}
use sauth.Env.{Env, Channel}
use sauth.Db.{Db, Project, OtpCode}
use sauth.Db.Table.{find, exists}
use sauth.Db.Otp.{otp_id, latest, same_request}
use sauth.Otp
use sauth.Otp.Codes.{padded-digits, equal-hash}
use sauth.Exec.{World}
use sauth.Exec.Runs.{IsHealthy}
use sauth.Auth.{Result}
use sauth.Auth.Issue.Returns.{IsFresh}
use sauth.Auth.Destination.{classify_destination}
use sauth.Auth.OtpRequest.{
  OtpRequestInput, OtpRequestResult, login_purpose, signup_purpose, otp_ttl, otp_resend_window,
  otp_params, request_otp,
}
use sauth.Auth.OtpRequest.Steps.{message}
use sauth.Auth.OtpRequest.Rules.{is_useful}
use sauth.Auth.OtpRequest.Returns.{request-Returns}
use sauth.Auth.OtpVerify.{verify_otp}
use sauth.Auth.OtpVerify.Resolve.{owns}
use sauth.Auth.OtpVerify.Returns.{IsWelcome, owner, newcomer, same_users, verify_returns}

module _ (env : Env) where
  welcome-purpose :
      (p : ℕ) (channel : Channel) (dest purpose : Text) (d : Db)
      → IsWelcome env p channel dest d purpose
      → (text_eq purpose login_purpose || text_eq purpose signup_purpose) ≡ true
  unfolding text_eq
  welcome-purpose p channel dest purpose d (owner user f allowed) = refl
  welcome-purpose p channel dest purpose d (newcomer nobody project ids) = refl

  -- A code that lets its owner in is worth sending.
  welcome-useful :
      (p : ℕ) (channel : Channel) (dest purpose : Text) (d : Db)
      → IsWelcome env p channel dest d purpose
      → is_useful purpose (find (owns env p channel dest) d.users) ≡ true
  unfolding text_eq
  welcome-useful p channel dest purpose d (owner user f allowed) = ap (is_useful login_purpose) f
  welcome-useful p channel dest purpose d (newcomer nobody project ids) =
      ap (is_useful signup_purpose) nobody

  code_equal :
      ((c : Text) → AreBytes (env.otp_mac c))
      → (n : ℕ)
      → Otp.equal env
          (trim_space (Otp.sprintf_zero_padded Otp.digits n))
          (Otp.hash env (Otp.sprintf_zero_padded Otp.digits n))
        ≡ true
  code_equal bytes n =
      let code = Otp.sprintf_zero_padded Otp.digits n in
      ap (λ c. Otp.equal env c (Otp.hash env code)) (trim-digits code (padded-digits Otp.digits n))
      ∙ equal-hash env bytes code code
      ∙ text_eq_refl (env.otp_mac code)

  -- The code that is sent signs in. When no call fails and the sender delivers, a request of an enabled project for a
  -- user that may log in, or for a destination that nobody has to sign up, outside the resend
  -- window, returns an id and sends a code to the destination; presented with the id at any time until
  -- its five minutes are over, it is answered with tokens. The normalised destination is normalised to itself, an id is
  -- parsed back from its text, MACs are bytes, the project is there, and no code, session or (for
  -- a signup) user has an id or a hash that the random sources give.
  pub sent_signs_in :
      IsHealthy env
      → ((n : ℕ) → env.sender_fails n ≡ false)
      → ((c : Text) → AreBytes (env.otp_mac c))
      → ((n : ℕ) → env.parse_uuid (trim_space (env.uuid_string n)) ≡ some n)
      → (input : OtpRequestInput) (channel : Channel) (dest : Text) (w : World) (delay : ℕ)
      → input.otp_enabled ≡ true
      → classify_destination env input.destination ≡ ok (channel, dest)
      → classify_destination env dest ≡ ok (channel, dest)
      → ((last : ℕ)
          → latest (same_request input.project_id dest input.purpose) w.db.otp_codes ≡ some last
          → last + otp_resend_window ≤ w.now)
      → ((n : ℕ) → exists (otp_id (env.uuid n)) w.db.otp_codes ≡ false)
      → exists (λ (p : Project). p.id == input.project_id) w.db.projects ≡ true
      → IsWelcome env input.project_id channel dest w.db input.purpose
      → IsFresh env w.db
      → delay ≤ otp_ttl
      → (res : OtpRequestResult) × (v : World) × (code : Text) × (request_otp env input w
          ≡ (ok res, v))
        × (v.sent ≡ w.sent ++ message channel dest code input.purpose ∷ [])
        × (r : Result) × ((verify_otp env input.project_id res.otp_id code
              (record v { now = w.now + delay })).0
            ≡ ok r)
  unfolding otp_params
  sent_signs_in healthy delivers bytes ids input channel dest w delay enabled class normal old free
        project welcome fresh soon =
      let y =
        request-Returns env healthy delivers input channel dest w
          (welcome-purpose input.project_id channel dest input.purpose w.db welcome) enabled class
          old (welcome-useful input.project_id channel dest input.purpose w.db welcome) free
          project in
      let s = y.holds in
      let row = s.is_row in
      let signed =
        verify_returns env healthy input.project_id s.row.id y.result.otp_id
          (Otp.sprintf_zero_padded Otp.digits s.number) (record y.final { now = w.now + delay })
          s.row channel dest (ap (λ t. env.parse_uuid (trim_space t)) s.named ∙ ids s.row.id)
          s.stored (ap (λ (o : OtpCode). o.project_id) row)
          (ap (λ (o : OtpCode). o.consumed_at) row)
          (subst (λ (o : OtpCode). w.now + delay ≤ o.expires_at) (sym row) (omega (arith, soon)))
          (subst (λ (o : OtpCode). o.attempts < 5) (sym row) (omega arith))
          (subst
            (λ (o : OtpCode).
              Otp.equal env (trim_space (Otp.sprintf_zero_padded Otp.digits s.number)) o.code_hash
              ≡ true)
            (sym row) (code_equal bytes s.number))
          (ap (λ (o : OtpCode). classify_destination env o.destination) row ∙ normal)
          (subst (λ (d : Db). IsWelcome env input.project_id channel dest d s.row.purpose)
            (sym s.rest)
            (subst
              (λ (o : OtpCode).
                IsWelcome env input.project_id channel dest
                  (record w.db { otp_codes = y.final.db.otp_codes }) o.purpose)
              (sym row) (same_users env welcome)))
          (subst (IsFresh env) (sym s.rest) (record { ids = fresh.ids; hashes = fresh.hashes })) in
      (
        y.result,
        y.final,
        Otp.sprintf_zero_padded Otp.digits s.number,
        y.runs,
        s.letter,
        signed.0,
        signed.1,
      )
