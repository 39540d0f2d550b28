-- ===== src/Auth/OtpVerify/Twice.antt =====
-- A one-time code is used once.
use sauth.Prelude.{ℕ, Option, List, ◌≡◌, refl, ◌≢◌, none, some, ap, sym, ◌∙◌, arith}
use sauth.Text.{Text, trim_space}
use sauth.Errors.{ok}
use sauth.Env.{Env, Channel, email, sms}
use sauth.Db.{Db, OtpCode, User, Role}
use sauth.Db.Table.{find}
use sauth.Db.Otp.{otp_id, consume}
use sauth.Db.Otp.Laws.{find-update}
use sauth.Exec.{World}
use sauth.Auth.{Result}
use sauth.Auth.OtpVerify.{verify_otp}
use sauth.Auth.OtpVerify.Resolve.{IsResolved, known, registered, marked}
use sauth.Db.Rbac.Laws.{attached, attached_role}
use sauth.Auth.OtpVerify.Success.{IsVerified, verify-admits}

consumed_clash :
    (t : ℕ) (o o' : OtpCode) (i j : ℕ) (os : List OtpCode)
    → i ≡ j
    → find (otp_id i) os ≡ some (consume (record { uuid = 0; now = t }) o)
    → find (otp_id j) os ≡ some o'
    → o'.consumed_at ≢ none
consumed_clash t o o' i j os same f g n =
    let e = sym f ∙ ap (λ k. find (otp_id k) os) same ∙ g in ground arith

module _ (env : Env) where
  attached-codes :
      (user role project : ℕ) (d : Db) → (attached user role project d).otp_codes ≡ d.otp_codes
  attached-codes user role project d = ground arith

  default-codes :
      (user project : ℕ) (r : Option Role) (d : Db)
      → (attached_role user project r d).otp_codes ≡ d.otp_codes
  default-codes user project none d = refl
  default-codes user project (some r) d = attached-codes user r.id project d

  marked-codes :
      (channel : Channel) (user : User) (t : ℕ) (d : Db)
      → (marked channel user t d).otp_codes ≡ d.otp_codes
  marked-codes email user t d = ground arith
  marked-codes sms user t d = ground arith

  pub resolved-codes :
      (project_id : ℕ) (purpose : Text) (channel : Channel) (dest : Text) (t : ℕ) (d d' : Db)
      (user : User)
      → IsResolved env project_id purpose channel dest t d user d'
      → d'.otp_codes ≡ d.otp_codes
  resolved-codes project_id purpose channel dest t d d' user (known p f a e) =
      rw e (marked-codes channel user t d)
  resolved-codes project_id purpose channel dest t d d' user (registered p f s with_user at i e) =
      ap (λ (b : Db). b.otp_codes) e
      ∙ default-codes user.id project_id _ (marked channel user t with_user)
      ∙ marked-codes channel user t with_user
      ∙ ap (λ (b : Db). b.otp_codes) i.added

  -- The row that a verification has used is still there, consumed.
  pub verified-consumed :
      (project_id : ℕ) (id code : Text) (t : ℕ) (before after : Db) (res : Result)
      → (a : IsVerified env project_id id code t before res after)
      → find (otp_id a.id) after.otp_codes
        ≡ some (consume (record { uuid = 0; now = t }) a.code_row)
  verified-consumed project_id id code t before after res a =
      let codes =
        ap (λ (b : Db). b.otp_codes) a.issued.added
        ∙ resolved-codes project_id _ a.channel a.dest t a.consumed a.settled a.user a.resolved
        ∙ ap (λ (b : Db). b.otp_codes) a.consumes in
      ap (find (otp_id a.id)) codes
      ∙ find-update a.id (consume (record { uuid = 0; now = t })) before.otp_codes a.code_row
          (λ x. refl) a.named

  -- After a code has given tokens, no code gives tokens under the same id, at whatever time, for
  -- whatever project and however the rest of the database has changed: the codes are as they were left.
  pub verify_twice :
      (project_id project_id' : ℕ) (id code id' code' : Text) (w v u : World) (res res' : Result)
      → verify_otp env project_id id code w ≡ (ok res, v)
      → trim_space id' ≡ trim_space id
      → u.db.otp_codes ≡ v.db.otp_codes
      → (verify_otp env project_id' id' code' u).0 ≢ ok res'
  verify_twice project_id project_id' id code id' code' w v u res res' first same kept second =
      let a = verify-admits env project_id id code w v res first in
      let x = (verify_otp env project_id' id' code' u).1 in
      let b = verify-admits env project_id' id' code' u x res' (ap (λ r. (r, x)) second) in
      let left = verified-consumed project_id id code w.now w.db v.db res a in
      consumed_clash _ a.code_row b.code_row a.id b.id v.db.otp_codes
        (cc (a.parsed, b.parsed, same)) left (ap (λ os. find (otp_id b.id) os) (sym kept) ∙ b.named)
        b.unconsumed
