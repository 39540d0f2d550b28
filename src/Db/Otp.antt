-- ===== src/Db/Otp.antt =====
-- backend/internal/db/otp.sql.go
pub mod Laws
pub mod Elsewhere
pub mod Life
use sauth.Prelude.{
  ℕ, ◌+◌, Bool, ◌&&◌, ◌||◌, Option, none, some, List, [], ◌∷◌, ◌++◌, ◌==◌, ltb, leb, if◌then◌else◌,
}
use sauth.Text.{Text, text_eq, lit}
use sauth.Errors.{
  Outcome, ok, err, no_rows, fault, unique_violation, other_constraint, foreign_key_violation,
}
use sauth.Db.{select, Db, Project, OtpCode, Stamp, Stmt}
use sauth.Db.Table.{find, exists, update_where, delete_where, one, is_null}

pub record CreateOtpParams : Type 0 where
  pub project_id : ℕ
  pub destination : Text
  pub code_hash : Text
  pub purpose : Text
  pub expires_at : ℕ

abbrev pub otp_id : ℕ → OtpCode → Bool
otp_id id o = o.id == id

abbrev pub consume : Stamp → OtpCode → OtpCode
consume t o = record o { consumed_at = some t.now }

unfoldable pub consume_otp : ℕ → Stmt (Unit {0})
consume_otp id t d =
    ok (tt, record d { otp_codes = update_where (otp_id id) (consume t) d.otp_codes })

-- CHECK (purpose IN ('login','signup','verify_email','reset_password'))
abbrev known_purpose : Text → Bool
known_purpose p =
    text_eq p (lit "login")
    || text_eq p (lit "signup")
    || text_eq p (lit "verify_email")
    || text_eq p (lit "reset_password")

abbrev pub new_otp : Stamp → CreateOtpParams → OtpCode
new_otp t arg = record {
  id = t.uuid;
  user_id = none;
  project_id = arg.project_id;
  destination = arg.destination;
  code_hash = arg.code_hash;
  purpose = arg.purpose;
  attempts = 0;
  expires_at = arg.expires_at;
  consumed_at = none;
  created_at = t.now;
}

-- A violated CHECK is an error of the driver that no code tells apart.
unfoldable pub create_otp : CreateOtpParams → Stmt OtpCode
create_otp arg t d =
    if known_purpose arg.purpose
    then (if exists (otp_id t.uuid) d.otp_codes
        then err (unique_violation other_constraint)
        else if exists (λ (p : Project). p.id == arg.project_id) d.projects
        then ok (new_otp t arg, record d { otp_codes = d.otp_codes ++ new_otp t arg ∷ [] })
        else err foreign_key_violation)
    else err fault

unfoldable pub delete_expired_otps : Stmt (Unit {0})
delete_expired_otps t d = ok (
  tt,
  record d { otp_codes = delete_where (λ (o : OtpCode). ltb o.expires_at t.now) d.otp_codes },
)

abbrev pub same_request : ℕ → Text → Text → OtpCode → Bool
same_request project_id destination purpose o =
    o.project_id == project_id && text_eq o.destination destination && text_eq o.purpose purpose

-- ORDER BY created_at DESC LIMIT 1
unfoldable pub latest : (OtpCode → Bool) → List OtpCode → Option ℕ
latest p [] = none
latest p (o ∷ os) =
    let rest = latest p os in
    if p o
    then elim rest [
      | none ↦ some o.created_at
      | some t ↦ some (if leb t o.created_at then o.created_at else t)
    ]
    else rest

unfoldable pub get_latest_otp_created_at : ℕ → Text → Text → Stmt ℕ
unfolding latest
get_latest_otp_created_at project_id destination purpose t d =
    select (one (latest (same_request project_id destination purpose) d.otp_codes)) d

unfoldable pub get_otp_by_id : ℕ → Stmt OtpCode
get_otp_by_id id t d = select (one (find (otp_id id) d.otp_codes)) d

abbrev pub attempt_more : OtpCode → OtpCode
attempt_more o = record o { attempts = o.attempts + 1 }

-- SMALLINT: the increment of 32767 is out of range.
counted : ℕ → Db → Option OtpCode → Outcome (ℕ × Db)
counted id d none = err no_rows
counted id d (some o) =
    if leb 32767 o.attempts
    then err fault
    else ok
        (o.attempts + 1, record d { otp_codes = update_where (otp_id id) attempt_more d.otp_codes })

unfoldable pub increment_otp_attempts : ℕ → Stmt ℕ
unfolding counted
increment_otp_attempts id t d = counted id d (find (otp_id id) d.otp_codes)

unfoldable pub invalidate_active_otps : ℕ → Text → Text → Stmt (Unit {0})
invalidate_active_otps project_id destination purpose t d = ok (
  tt,
  record d {
    otp_codes =
        update_where
          (λ (o : OtpCode). same_request project_id destination purpose o && is_null o.consumed_at)
          (consume t) d.otp_codes;
  },
)
