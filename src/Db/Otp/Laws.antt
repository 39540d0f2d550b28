-- ===== src/Db/Otp/Laws.antt =====
-- What the statements on one-time codes leave of a record.
use sauth.Prelude.{
  ℕ, ◌+◌, ◌<◌, ◌≡◌, refl, Bool, false, some, arith, ◌==◌, List, [], ◌∷◌, ap, ◌&&◌, ◌++◌,
}
use sauth.Errors.{ok}
use sauth.Db.{Db, Stamp, OtpCode}
use sauth.Text.{Text}
use sauth.Db.Table.{find, exists, is_null, update_where}
use sauth.Db.Table.Laws.{find-holds, find-update_stable}
use sauth.Db.Otp.{
  otp_id, consume, attempt_more, increment_otp_attempts, same_request, CreateOtpParams, create_otp,
  new_otp,
}

-- A record that is found by its id is still found after an update of the rows of that id.
pub find-update :
    (id : ℕ) (f : OtpCode → OtpCode) (os : List OtpCode) (o : OtpCode)
    → ((x : OtpCode) → (f x).id ≡ x.id)
    → find (otp_id id) os ≡ some o
    → find (otp_id id) (update_where (otp_id id) f os) ≡ some (f o)
find-update id f os o same h =
    let e = find-update_stable (otp_id id) (otp_id id) f (λ x. ap (λ n. n == id) (same x)) os o h in
    rw (find-holds (otp_id id) os o h) at e

pub increment-counts :
    (id : ℕ) (t : Stamp) (d : Db) (o : OtpCode)
    → find (otp_id id) d.otp_codes ≡ some o
    → o.attempts < 32767
    → increment_otp_attempts id t d
      ≡ ok (
        o.attempts + 1,
        record d { otp_codes = update_where (otp_id id) attempt_more d.otp_codes },
      )
unfolding increment_otp_attempts
increment-counts id t d o h small = rw (h, increment_otp_attempts) (ground arith)

-- The rows that one more code of the same request replaces.
abbrev pub is_active : ℕ → Text → Text → OtpCode → Bool
is_active project_id destination purpose o =
    same_request project_id destination purpose o && is_null o.consumed_at

-- The codes once those of the request are invalidated at `t`.
abbrev pub invalidated : ℕ → Text → Text → ℕ → List OtpCode → List OtpCode
invalidated project_id destination purpose t =
    update_where (is_active project_id destination purpose) (consume (record { uuid = 0; now = t }))

pub exists-invalidated :
    (p : ℕ) (dest purpose : Text) (t : ℕ) (os : List OtpCode)
    → exists (is_active p dest purpose) (invalidated p dest purpose t os) ≡ false
unfolding exists update_where
exists-invalidated p dest purpose t [] = refl
exists-invalidated p dest purpose t (o ∷ os) =
    ground (arith, exists-invalidated p dest purpose t os)

pub create-new_otp :
    (arg : CreateOtpParams) (t : Stamp) (d d' : Db) (o : OtpCode)
    → create_otp arg t d ≡ ok (o, d')
    → (o ≡ new_otp t arg) × (d' ≡ record d { otp_codes = d.otp_codes ++ o ∷ [] })
unfolding create_otp
create-new_otp arg t d d' o h = (ground arith, ground arith)
