-- ===== src/Errors.antt =====
-- The errors of the program: backend/internal/auth/errors.go, the sentinels of
-- backend/internal/password/password.go, and those of the database driver that the code tells
-- apart. `fault` is every other error: a lost connection, a failed random source, a failed signer.
pub data Constraint : Type 0 where
  uq_users_project_email uq_users_project_username uq_users_project_phone : Constraint
  other_constraint : Constraint

pub data Err : Type 0 where
  email_taken username_taken invalid_email invalid_credentials user_banned : Err
  refresh_invalid refresh_reuse user_not_found : Err
  otp_disabled otp_bad_purpose invalid_destination otp_invalid otp_expired : Err
  otp_too_many_attempts otp_throttled account_exists : Err
  oauth_not_configured redirect_invalid redirect_not_allowed oauth_state_invalid : Err
  oauth_exchange_failed auth_code_invalid oauth_account_conflict : Err
  mismatch too_long too_short : Err
  no_rows foreign_key_violation fault : Err
  unique_violation : Constraint → Err

pub data Outcome {ℓ} (A : Type ℓ) : Type ℓ where
  ok : A → Outcome A
  err : Err → Outcome A

infixl 5 ◌>>=◌
abbrev pub ◌>>=◌ {ℓ κ} : {A : Type ℓ} {B : Type κ} → Outcome A → (A → Outcome B) → Outcome B
ok a >>= f = f a
err e >>= f = err e

-- What `errors.Is(err, pgx.ErrNoRows)` tells apart.
pub data Lookup {ℓ} (A : Type ℓ) : Type ℓ where
  found : A → Lookup A
  missing : Lookup A
  failed : Err → Lookup A

abbrev pub classify {ℓ} : {A : Type ℓ} → Outcome A → Lookup A
classify (ok a) = found a
classify (err no_rows) = missing
classify (err e) = failed e
