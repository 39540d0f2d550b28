-- ===== src/Auth/OtpRequest/Steps.antt =====
-- The last steps of a request for a one-time code: drawing it, storing it and sending it.
use sauth.Prelude.{
  ℕ, ◌+◌, ◌≡◌, refl, Bool, true, none, List, [], ◌∷◌, ◌++◌, ap, ◌∙◌, if◌then◌else◌, ◌⊎◌, inl, inr,
  Bool-cases,
}
use sauth.Text.{Text}
use sauth.Errors.{Outcome, ok}
use sauth.Env.{Env, Channel}
use sauth.Db.{Db, Stamp, OtpCode}
use sauth.Db.Otp.{new_otp, create_otp, invalidate_active_otps}
use sauth.Db.Otp.Laws.{invalidated, create-new_otp}
use sauth.Otp
use sauth.Exec.{World, Message, pure}
use sauth.Exec.Laws.{
  Yields, Yields-pure, Yields-if, Yields-bind, Yields-query, Yields-now, Yields-call, Yields-commit,
}
use sauth.Auth.OtpRequest.{OtpRequestInput, otp_params, request_in_tx, send_otp}

abbrev pub message : Channel → Text → Text → Text → Message
message channel dest code purpose = record {
  channel = channel;
  destination = dest;
  code = code;
  purpose = purpose;
}

written :
    {A : Type 0} {a b : A} (d d' : Db)
    → ◌≡◌ {A = Outcome (A × Db)} (ok (a, d)) (ok (b, d'))
    → d' ≡ d
written d d' h = cc h

module _ (env : Env) where
  send_otp-Yields :
      {Q : Unit {0} → World → Type 0} (channel : Channel) (dest code purpose : Text) {w : World}
      → ((s : List Message)
          → (s ≡ w.sent) ⊎ (s ≡ w.sent ++ message channel dest code purpose ∷ [])
          → Q tt (record w { sent = s }))
      → Yields (send_otp env channel dest code purpose) w Q
  unfolding send_otp
  send_otp-Yields channel dest code purpose {w} q = elim (Bool-cases (env.sender_fails w.calls)) [
    | inl e ↦ record { after = rw e (q w.sent (inl refl)) }
    | inr e ↦ record { after = rw e (q _ (inr refl)) }
  ]

  pub deliver-Yields :
      {Q : Unit {0} → World → Type 0} (deliver : Bool) (channel : Channel)
      (dest code purpose : Text) {w : World}
      → ((s : List Message)
          → (s ≡ w.sent)
            ⊎ ((s ≡ w.sent ++ message channel dest code purpose ∷ []) × (deliver ≡ true))
          → Q tt (record w { sent = s }))
      → Yields (if deliver then send_otp env channel dest code purpose else pure tt) w Q
  deliver-Yields deliver channel dest code purpose {w} q =
      Yields-if deliver
        (λ d.
          send_otp-Yields channel dest code purpose
            λ s e. q s (elim e [ inl same ↦ inl same | inr more ↦ inr (more, d) ]))
        (λ _. Yields-pure (q w.sent (inl refl)))

  -- The code writes the number that the call of the random source returned.
  pub generate-Yields :
      {Q : Text → World → Type 0} {w : World}
      → Q
          (Otp.sprintf_zero_padded Otp.digits (env.random_below w.calls 1_000_000))
          (record w { calls = w.calls + 1 })
      → Yields (Otp.generate env) w Q
  unfolding Otp.generate Otp.times_ten
  generate-Yields q = Yields-bind (Yields-call env (Yields-pure q))

  pub request_in_tx-Yields :
      {Q : OtpCode → World → Type 0} (input : OtpRequestInput) (dest code : Text) {w : World}
      → ((s : Stamp) (row : OtpCode) (d : Db)
          → s.now ≡ w.now
          → row ≡ new_otp s (otp_params env input dest code w.now)
          → d ≡ record w.db {
            otp_codes =
                invalidated input.project_id dest input.purpose w.now w.db.otp_codes ++ row ∷ [];
          }
          → (n : ℕ) → Q row (record w { db = d; saved = none; calls = n }))
      → Yields (request_in_tx env input dest code) w Q
  unfolding request_in_tx invalidate_active_otps
  request_in_tx-Yields input dest code {w} q = Yields-bind (
      Yields-query env (invalidate_active_otps input.project_id dest input.purpose) λ u di e.
        Yields-bind (
          Yields-now (
            Yields-bind (
              Yields-query env (create_otp (otp_params env input dest code w.now)) λ row d c.
                let (is_row, added) = create-new_otp _ _ di d row c in
                Yields-bind (
                  Yields-commit env (
                    Yields-pure (
                      q _ row d refl is_row
                        (added
                          ∙ ap (λ (b : Db). record b { otp_codes = b.otp_codes ++ row ∷ [] })
                              (written _ _ e))
                        _)))))))
