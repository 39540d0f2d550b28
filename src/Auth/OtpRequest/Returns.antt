-- ===== src/Auth/OtpRequest/Returns.antt =====
-- A request for a one-time code that stores a code and sends it.
use sauth.Prelude.{
  ℕ, ◌+◌, ◌≤◌, ◌≡◌, ◌∙◌, refl, ap, true, false, not, Option, none, some, arith, ◌==◌, ◌||◌,
}
use sauth.Text.{Text, text_eq}
use sauth.Errors.{ok, Lookup, found, missing}
use sauth.Env.{Env, Channel}
use sauth.Db.{User, Project, select}
use sauth.Db.Table.{find, exists, one}
use sauth.Db.Otp.{otp_id, latest, same_request, get_latest_otp_created_at}
use sauth.Otp
use sauth.Exec.{World, query, lookup, rollback}
use sauth.Exec.Runs.{IsHealthy}
use sauth.Exec.Returns.{
  Returns, Returns-pure, Returns-lift, Returns-bind, Returns-query, Returns-found, Returns-missing,
  Returns-now, Returns-call, Returns-reject, Returns-in_tx,
}
use sauth.Auth.Destination.{classify_destination}
use sauth.Auth.OtpRequest.{
  OtpRequestInput, login_purpose, signup_purpose, otp_resend_window, throttle, should_deliver,
  user_by_destination, lookup_user_by_destination, request_known, request_last, request_classified,
  request_otp,
}
use sauth.Auth.OtpRequest.Rules.{is_useful}
use sauth.Auth.OtpVerify.Resolve.{owns, user_by_destination-reads}
use sauth.Auth.OtpRequest.Stored.{IsSent, stores, sends}

module _ (env : Env) (healthy : IsHealthy env)
    (delivers : (n : ℕ) → env.sender_fails n ≡ false) where
  known-Returns :
      (input : OtpRequestInput) (channel : Channel) (dest : Text) (w : World) (n : ℕ)
      (l : Lookup User)
      → should_deliver input.purpose l ≡ ok true
      → (text_eq input.purpose login_purpose || text_eq input.purpose signup_purpose) ≡ true
      → ((n : ℕ) → exists (otp_id (env.uuid n)) w.db.otp_codes ≡ false)
      → exists (λ (p : Project). p.id == input.project_id) w.db.projects ≡ true
      → Returns
          (request_known env input channel dest l)
          (record w { calls = n })
          (IsSent env input channel dest w)
  unfolding request_known Otp.generate Otp.times_ten rollback
  known-Returns input channel dest w n l wanted purpose free project = Returns-bind _ (
      Returns-lift _ true wanted (
        Returns-bind _ (
          Returns-bind _ (
            Returns-call env healthy (
              Returns-pure (
                Returns-bind _ (
                  Returns-in_tx env healthy (
                    stores env healthy delivers input dest _ purpose free project
                      λ s row os m is_row stored. Returns-bind _ (
                        sends env healthy delivers channel dest _ input.purpose (
                          Returns-pure (record {
                            number = _;
                            s = s;
                            row = row;
                            is_row = is_row;
                            named = refl;
                            stored = stored;
                            rest = refl;
                            letter = refl;
                          })))))))))))

  -- Once the user of the destination is looked up.
  last-Returns :
      (input : OtpRequestInput) (channel : Channel) (dest : Text) (w : World) (n : ℕ) (l : Lookup ℕ)
      → throttle l w.now ≡ ok tt
      → (o : Option User) → find (owns env input.project_id channel dest) w.db.users ≡ o
      → is_useful input.purpose o ≡ true
      → (text_eq input.purpose login_purpose || text_eq input.purpose signup_purpose) ≡ true
      → ((n : ℕ) → exists (otp_id (env.uuid n)) w.db.otp_codes ≡ false)
      → exists (λ (p : Project). p.id == input.project_id) w.db.projects ≡ true
      → Returns
          (request_last env input channel dest l)
          (record w { calls = n })
          (IsSent env input channel dest w)
  unfolding request_last lookup_user_by_destination
  last-Returns input channel dest w n l allowed o e wanted purpose free project = Returns-bind _ (
      Returns-now
        (Returns-bind _ (Returns-lift _ tt allowed (Returns-bind _ (looks_up o e wanted)))))
    where
      looks_up :
          (o : Option User)
          → find (owns env input.project_id channel dest) w.db.users ≡ o
          → is_useful input.purpose o ≡ true
          → Returns
              (lookup (query env (user_by_destination env input.project_id channel dest)))
              (record w { calls = n })
              (λ l u.
                Returns
                  (request_known env input channel dest l)
                  u
                  (IsSent env input channel dest w))
      looks_up none e wanted =
          Returns-missing env healthy (user_by_destination env input.project_id channel dest)
            (user_by_destination-reads env input.project_id channel dest _ w.db
              ∙ ap (λ x. select (one x) w.db) e)
            (known-Returns input channel dest w _ missing (ap ok wanted) purpose free project)
      looks_up (some user) e wanted = Returns-found (
          Returns-query env healthy (user_by_destination env input.project_id channel dest) user
            w.db
            (user_by_destination-reads env input.project_id channel dest _ w.db
              ∙ ap (λ x. select (one x) w.db) e)
            (known-Returns input channel dest w _ (found user) (ap ok wanted) purpose free project))

  -- Once the latest code of the request is looked up.
  latest-Returns :
      (input : OtpRequestInput) (channel : Channel) (dest : Text) (w : World)
      → ((l : Lookup ℕ)
          → throttle l w.now ≡ ok tt
          → (n : ℕ)
          → Returns
              (request_last env input channel dest l)
              (record w { calls = n })
              (IsSent env input channel dest w))
      → (o : Option ℕ)
      → latest (same_request input.project_id dest input.purpose) w.db.otp_codes ≡ o
      → ((last : ℕ) → o ≡ some last → last + otp_resend_window ≤ w.now)
      → Returns (request_classified env input (channel, dest)) w (IsSent env input channel dest w)
  unfolding request_classified get_latest_otp_created_at
  latest-Returns input channel dest w next none e allowed = Returns-bind _ (
      Returns-missing env healthy (get_latest_otp_created_at input.project_id dest input.purpose)
        (ap (λ x. select (one x) w.db) e) (next missing refl _))
  latest-Returns input channel dest w next (some last) e allowed = Returns-bind _ (
      Returns-found (
        Returns-query env healthy (get_latest_otp_created_at input.project_id dest input.purpose)
          last w.db (ap (λ x. select (one x) w.db) e)
          (next (found last) (ground (arith, allowed last refl)) _)))

  pub request-Returns :
      (input : OtpRequestInput) (channel : Channel) (dest : Text) (w : World)
      → (text_eq input.purpose login_purpose || text_eq input.purpose signup_purpose) ≡ true
      → input.otp_enabled ≡ true
      → classify_destination env input.destination ≡ ok (channel, dest)
      → ((last : ℕ)
          → latest (same_request input.project_id dest input.purpose) w.db.otp_codes ≡ some last
          → last + otp_resend_window ≤ w.now)
      → is_useful input.purpose (find (owns env input.project_id channel dest) w.db.users) ≡ true
      → ((n : ℕ) → exists (otp_id (env.uuid n)) w.db.otp_codes ≡ false)
      → exists (λ (p : Project). p.id == input.project_id) w.db.projects ≡ true
      → Returns (request_otp env input) w (IsSent env input channel dest w)
  unfolding request_otp
  request-Returns input channel dest w purpose enabled class old wanted free project =
      Returns-reject _ _ (ground arith) (
        Returns-reject _ _ (ap not enabled) (
          Returns-bind _ (
            Returns-lift _ (channel, dest) class
              (latest-Returns input channel dest w
                (λ l allowed n.
                  last-Returns input channel dest w n l allowed _ refl wanted purpose free project)
                _ refl old))))
