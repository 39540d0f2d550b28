-- ===== src/Auth/OtpRequest/Stored.antt =====
-- The last steps of a request for a one-time code, when no call fails.
use sauth.Prelude.{
  ℕ, ◌≡◌, ◌∙◌, refl, ap, true, false, none, some, List, [], ◌∷◌, ◌++◌, arith, ◌==◌, ==_refl,
  if◌then◌else◌, ◌||◌,
}
use sauth.Text.{Text, text_eq}
use sauth.Errors.{ok}
use sauth.Env.{Env, Channel}
use sauth.Db.{Db, Stamp, Project, OtpCode}
use sauth.Db.Table.{find, exists}
use sauth.Db.Table.Laws.{exists-false-find, find-append_absent}
use sauth.Db.Table.Distinct.{exists-update}
use sauth.Db.Otp.{CreateOtpParams, otp_id, new_otp, create_otp, invalidate_active_otps}
use sauth.Db.Otp.Laws.{invalidated}
use sauth.Otp
use sauth.Exec.{World}
use sauth.Exec.Runs.{IsHealthy}
use sauth.Exec.Returns.{
  Returns, Returns-pure, Returns-bind, Returns-query, Returns-now, Returns-commit,
}
use sauth.Auth.OtpRequest.{
  OtpRequestInput, OtpRequestResult, login_purpose, signup_purpose, otp_params, request_in_tx,
  send_otp,
}
use sauth.Auth.OtpRequest.Steps.{message}

-- The codes of before have no id of the new one.
absent :
    (p : ℕ) (dest purpose : Text) (t id : ℕ) (os : List OtpCode)
    → exists (otp_id id) os ≡ false
    → exists (otp_id id) (invalidated p dest purpose t os) ≡ false
absent p dest purpose t id os free = exists-update (otp_id id) _ _ (λ x. refl) os ∙ free

added-found :
    (os : List OtpCode) (o : OtpCode)
    → exists (otp_id o.id) os ≡ false
    → find (otp_id o.id) (os ++ o ∷ []) ≡ some o
unfolding find
added-found os o free =
    find-append_absent (otp_id o.id) os (o ∷ []) (exists-false-find (otp_id o.id) os free)
    ∙ rw (==_refl o.id) refl

-- A code of a purpose that the flows have is created.
creates :
    (arg : CreateOtpParams) (t : Stamp) (d : Db)
    → (text_eq arg.purpose login_purpose || text_eq arg.purpose signup_purpose) ≡ true
    → exists (otp_id t.uuid) d.otp_codes ≡ false
    → exists (λ (p : Project). p.id == arg.project_id) d.projects ≡ true
    → create_otp arg t d
      ≡ ok (new_otp t arg, record d { otp_codes = d.otp_codes ++ new_otp t arg ∷ [] })
unfolding create_otp
creates arg t d purpose free project = ground arith

module _ (env : Env) where
  -- What a request at `w` that sends its code has done when it returns `res` and leaves `v`.
  pub record IsSent (input : OtpRequestInput) (channel : Channel) (dest : Text) (w : World)
      (res : OtpRequestResult) (v : World) : Type 0 where
    pub number : ℕ
    pub s : Stamp
    pub row : OtpCode
    pub is_row :
        row
        ≡ new_otp s (otp_params env input dest (Otp.sprintf_zero_padded Otp.digits number) w.now)
    pub named : res.otp_id ≡ env.uuid_string row.id
    pub stored : find (otp_id row.id) v.db.otp_codes ≡ some row
    pub rest : v.db ≡ record w.db { otp_codes = v.db.otp_codes }
    pub letter :
        v.sent
        ≡ w.sent
          ++ message channel dest (Otp.sprintf_zero_padded Otp.digits number) input.purpose ∷ []

  module _ (healthy : IsHealthy env) (delivers : (n : ℕ) → env.sender_fails n ≡ false) where
    pub stores :
        {Q : OtpCode → World → Type 0} (input : OtpRequestInput) (dest code : Text) {w : World}
        → (text_eq input.purpose login_purpose || text_eq input.purpose signup_purpose) ≡ true
        → ((n : ℕ) → exists (otp_id (env.uuid n)) w.db.otp_codes ≡ false)
        → exists (λ (p : Project). p.id == input.project_id) w.db.projects ≡ true
        → ((s : Stamp) (row : OtpCode) (os : List OtpCode) (n : ℕ)
            → row ≡ new_otp s (otp_params env input dest code w.now)
            → find (otp_id row.id) os ≡ some row
            → Q row (record w { db = record w.db { otp_codes = os }; saved = none; calls = n }))
        → Returns (request_in_tx env input dest code) w Q
    unfolding request_in_tx invalidate_active_otps otp_params
    stores input dest code {w} purpose free project q = Returns-bind _ (
        Returns-query env healthy (invalidate_active_otps input.project_id dest input.purpose) tt _
          refl
          (Returns-bind _ (
            Returns-now (
              Returns-bind _ (
                Returns-query env healthy (create_otp (otp_params env input dest code w.now)) _ _
                  (creates (otp_params env input dest code w.now) _ _ purpose (unused _) project)
                  (Returns-bind _ (
                    Returns-commit env healthy
                      (Returns-pure (q _ _ _ _ refl (added-found _ _ (unused _)))))))))))
      where
        unused :
            (n : ℕ)
            → exists
                (otp_id (env.uuid n))
                (invalidated input.project_id dest input.purpose w.now w.db.otp_codes)
              ≡ false
        unused n =
            absent input.project_id dest input.purpose w.now (env.uuid n) w.db.otp_codes (free n)

    pub sends :
        {Q : Unit {0} → World → Type 0} (channel : Channel) (dest code purpose : Text) {w : World}
        → Q tt (record w { sent = w.sent ++ message channel dest code purpose ∷ [] })
        → Returns (send_otp env channel dest code purpose) w Q
    unfolding send_otp
    sends channel dest code purpose {w} q = record {
      result = tt;
      final = record w { sent = w.sent ++ message channel dest code purpose ∷ [] };
      runs =
          ap
            (λ b. (
              ok tt,
              if b then w else record w { sent = w.sent ++ message channel dest code purpose ∷ [] },
            ))
            (delivers w.calls);
      holds = q;
    }
