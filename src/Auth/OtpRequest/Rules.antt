-- ===== src/Auth/OtpRequest/Rules.antt =====
-- What a request for a one-time code that succeeds has checked, written and sent.
use sauth.Prelude.{
  ℕ, ◌+◌, ◌≤◌, ◌<◌, ◌≡◌, refl, Bool, true, false, not, ◌||◌, Option, none, some, [], ◌∷◌, ◌++◌, ap,
  sym, ◌∙◌, arith, ◌⊎◌, inl, inr,
}
use sauth.Text.{Text, text_eq}
use sauth.Errors.{ok, Lookup, classify, found, missing, failed, otp_disabled, otp_bad_purpose}
use sauth.Env.{Env, Channel}
use sauth.Db.{Stamp, User, OtpCode}
use sauth.Db.Table.{find, exists, one}
use sauth.Db.Otp.{latest, same_request, new_otp, get_latest_otp_created_at}
use sauth.Db.Otp.Laws.{is_active, invalidated, exists-invalidated}
use sauth.Otp.Codes.{IsCode, written-IsCode}
use sauth.Exec.{World, rollback}
use sauth.Exec.Laws.{
  Yields, Yields-run, Yields-pure, Yields-reject, Yields-bind, Yields-lift, Yields-read_lookup,
  Yields-now, Yields-in_tx,
}
use sauth.Auth.Destination.{classify_destination}
use sauth.Auth.OtpRequest.{
  OtpRequestInput, OtpRequestResult, login_purpose, signup_purpose, otp_ttl, otp_resend_window,
  throttle, should_deliver, user_by_destination, lookup_user_by_destination, otp_params,
  request_known, request_last, request_classified, request_otp,
}
use sauth.Auth.OtpVerify.Resolve.{owns, user_by_destination-reads}
use sauth.Auth.OtpRequest.Steps.{message, deliver-Yields, generate-Yields, request_in_tx-Yields}

-- Whether a code of the purpose can lead anywhere, for the user that has the destination.
abbrev pub is_useful : Text → Option User → Bool
is_useful purpose (some user) = not (text_eq purpose signup_purpose)
is_useful purpose none = not (text_eq purpose login_purpose)

useful :
    (purpose : Text) (o : Option User) (b : Bool)
    → should_deliver purpose (classify (one o)) ≡ ok b
    → b ≡ is_useful purpose o
useful purpose none b h = cc h
useful purpose (some user) b h = cc h

-- The search for the latest code, as its lookup answers it.
throttle-allows :
    (t : ℕ) (o : Option ℕ) (u : Unit {0})
    → throttle (classify (one o)) t ≡ ok u
    → (last : ℕ) → o ≡ some last
    → last + otp_resend_window ≤ t
throttle-allows t none u h last e = cc e
throttle-allows t (some a) u h last e = ground (arith, e)

answered :
    (env : Env) (input : OtpRequestInput) (dest code : Text) (s : Stamp) (w : World) (row : OtpCode)
    → row ≡ new_otp s (otp_params env input dest code w.now)
    → ◌≡◌ {A = OtpRequestResult}
        (record { otp_id = env.uuid_string row.id; expires_at = row.expires_at })
        (record { otp_id = env.uuid_string row.id; expires_at = w.now + otp_ttl })
unfolding otp_params
answered env input dest code s w row e =
    ap (λ (o : OtpCode). record { otp_id = env.uuid_string row.id; expires_at = o.expires_at }) e

module _ (env : Env) where
  -- What a request at `w` has done when it returns `res` and leaves `v`.
  pub record IsRequested (input : OtpRequestInput) (w : World) (res : OtpRequestResult) (v : World)
      : Type 0 where
    pub purpose :
        (text_eq input.purpose login_purpose || text_eq input.purpose signup_purpose) ≡ true
    pub enabled : input.otp_enabled ≡ true
    pub channel : Channel
    pub dest : Text
    pub classified : classify_destination env input.destination ≡ ok (channel, dest)
    pub unthrottled :
        (last : ℕ)
        → latest (same_request input.project_id dest input.purpose) w.db.otp_codes ≡ some last
        → last + otp_resend_window ≤ w.now
    pub code : Text
    pub drawn : IsCode env (env.random_below (w.calls + 1 + 1) 1_000_000) code
    pub s : Stamp
    pub row : OtpCode
    pub is_row : row ≡ new_otp s (otp_params env input dest code w.now)
    pub at : s.now ≡ w.now
    pub alone :
        exists
          (is_active input.project_id dest input.purpose)
          (invalidated input.project_id dest input.purpose w.now w.db.otp_codes)
        ≡ false
    pub added : v.db ≡ record w.db {
      otp_codes = invalidated input.project_id dest input.purpose w.now w.db.otp_codes ++ row ∷ [];
    }
    pub answer : res ≡ record { otp_id = env.uuid_string row.id; expires_at = w.now + otp_ttl }
    pub sent :
        (v.sent ≡ w.sent)
        ⊎ ((v.sent ≡ w.sent ++ message channel dest code input.purpose ∷ [])
            × (is_useful input.purpose (find (owns env input.project_id channel dest) w.db.users)
                ≡ true))

  Unthrottled : OtpRequestInput → Text → World → Type 0
  Unthrottled input dest w =
      (last : ℕ)
      → latest (same_request input.project_id dest input.purpose) w.db.otp_codes ≡ some last
      → last + otp_resend_window ≤ w.now

  request_known-Yields :
      ((k bound : ℕ) → 0 < bound → env.random_below k bound < bound)
      → (input : OtpRequestInput) (channel : Channel) (dest : Text) (w : World) (l : Lookup User)
      → (text_eq input.purpose login_purpose || text_eq input.purpose signup_purpose) ≡ true
      → input.otp_enabled ≡ true
      → classify_destination env input.destination ≡ ok (channel, dest)
      → Unthrottled input dest w
      → ((b : Bool)
          → should_deliver input.purpose l ≡ ok b
          → b ≡ is_useful input.purpose (find (owns env input.project_id channel dest) w.db.users))
      → Yields
          (request_known env input channel dest l)
          (record w { calls = w.calls + 1 + 1 })
          (IsRequested input w)
  unfolding request_known rollback Unthrottled
  request_known-Yields below input channel dest w l purpose enabled classified unthrottled useful =
      Yields-bind (
        Yields-lift _ λ deliver d. Yields-bind (
          generate-Yields env (
            Yields-bind (
              Yields-in_tx env (
                request_in_tx-Yields env input dest _ λ s row db at is_row added m. Yields-bind (
                  deliver-Yields env deliver channel dest _ input.purpose λ sent how.
                    Yields-pure (record {
                      purpose = purpose;
                      enabled = enabled;
                      channel = channel;
                      dest = dest;
                      classified = classified;
                      unthrottled = unthrottled;
                      code = _;
                      drawn = written-IsCode env below (w.calls + 1 + 1);
                      s = s;
                      row = row;
                      is_row = is_row;
                      at = at;
                      alone =
                          exists-invalidated input.project_id dest input.purpose w.now
                            w.db.otp_codes;
                      added = added;
                      answer = answered env input dest _ s w row is_row;
                      sent = elim how [
                        | inl none_sent ↦ inl none_sent
                        | inr (one_sent, wanted) ↦ inr (one_sent, sym (useful deliver d) ∙ wanted)
                      ];
                    })))))))

  -- A request that succeeds was for `login` or `signup` in a project that has one-time codes enabled,
  -- with a destination that is an address or a telephone number; the latest code for the same
  -- project, destination and purpose, if there is one, was at least 30 seconds old. It has consumed
  -- the codes of that request that were not, has added a row with no wrong attempts, the hash of a code
  -- and an expiry in 5 minutes, and has changed nothing else of the database. The code is six decimal
  -- digits that write the number that the request drew from the random source below 10^6, if the
  -- source returns numbers below its bound. It has sent nothing, or that code to the destination; this only if a user has the destination and the
  -- purpose is not `signup`, or none has and it is not `login`.
  pub request-creates :
      ((k bound : ℕ) → 0 < bound → env.random_below k bound < bound)
      → (input : OtpRequestInput) (w v : World) (res : OtpRequestResult)
      → request_otp env input w ≡ (ok res, v)
      → IsRequested input w res v
  unfolding request_otp request_classified request_last Unthrottled lookup_user_by_destination
      get_latest_otp_created_at rollback
  request-creates below input w v res h =
      Yields-run {Q = IsRequested input w}
        (Yields-reject _ otp_bad_purpose λ purpose. Yields-reject _ otp_disabled λ enabled.
          Yields-bind (
            Yields-lift _ λ (channel, dest) classified.
              classified_case channel dest (ground (arith, purpose)) (ground (arith, enabled))
                classified))
        res v h
    where
      known_case :
          (channel : Channel) (dest : Text)
          → (text_eq input.purpose login_purpose || text_eq input.purpose signup_purpose) ≡ true
          → input.otp_enabled ≡ true
          → classify_destination env input.destination ≡ ok (channel, dest)
          → (l : Lookup ℕ) → ((u : Unit {0}) → throttle l w.now ≡ ok u → Unthrottled input dest w)
          → Yields
              (request_last env input channel dest l)
              (record w { calls = w.calls + 1 })
              (IsRequested input w)
      known_case channel dest purpose enabled classified l allows = Yields-bind (
          Yields-now (
            Yields-bind (
              Yields-lift (throttle l w.now) λ u x. Yields-bind (
                Yields-read_lookup env (user_by_destination env input.project_id channel dest)
                  (one (find (owns env input.project_id channel dest) w.db.users))
                  (user_by_destination-reads env input.project_id channel dest _ w.db)
                  (λ user e.
                    request_known-Yields below input channel dest w (found user) purpose enabled
                      classified (allows u x) (λ b d. useful input.purpose _ b (rw e d)))
                  (λ e.
                    request_known-Yields below input channel dest w missing purpose enabled
                      classified (allows u x) (λ b d. useful input.purpose _ b (rw e d)))
                  (λ e.
                    request_known-Yields below input channel dest w (failed e) purpose enabled
                      classified (allows u x) (λ b d. cc d))))))

      classified_case :
          (channel : Channel) (dest : Text)
          → (text_eq input.purpose login_purpose || text_eq input.purpose signup_purpose) ≡ true
          → input.otp_enabled ≡ true
          → classify_destination env input.destination ≡ ok (channel, dest)
          → Yields (request_classified env input (channel, dest)) w (IsRequested input w)
      classified_case channel dest purpose enabled classified = Yields-bind (
          Yields-read_lookup env (get_latest_otp_created_at input.project_id dest input.purpose)
            (one (latest (same_request input.project_id dest input.purpose) w.db.otp_codes)) refl
            (λ last e.
              known_case channel dest purpose enabled classified (found last)
                λ u x. throttle-allows w.now _ u (rw e x))
            (λ e.
              known_case channel dest purpose enabled classified missing
                λ u x. throttle-allows w.now _ u (rw e x))
            (λ e. known_case channel dest purpose enabled classified (failed e) λ u x. cc x))
