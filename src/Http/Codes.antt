-- ===== src/Http/Codes.antt =====
-- A one-time code lives by its steps, whatever arrives over HTTP, and is used once for good.
use sauth.Prelude.{ℕ, List, ◌≡◌, ◌≢◌, ◌∙◌, sym, ap, Option, none, some}
use sauth.Text.{Text, trim_space}
use sauth.Errors.{ok}
use sauth.Env.{Env}
use sauth.Db.{OtpCode}
use sauth.Db.Table.{find}
use sauth.Db.Kept.{IsKept, Preserves-left}
use sauth.Db.Otp.{otp_id}
use sauth.Db.Otp.Elsewhere.{
  create_user-Leaves, create_session-Leaves, rotate_session_refresh_hash-Leaves,
  revoke_all_user_sessions-Leaves, revoke_session-Leaves, record_used_refresh_hash-Leaves,
  set_user_email_verified-Leaves, set_user_phone_verified-Leaves, assign_role_to_user-Leaves,
  take_auth_exchange_code-Leaves, create_auth_exchange_code-Leaves, create_oauth_account-Leaves,
  take_oauth_state-Leaves, create_oauth_state-Leaves,
}
use sauth.Db.Otp.Life.{
  HasLived, Lived, here, ⟶*-IsLater, Lived-create, Lived-consume, Lived-increment, Lived-invalidate,
}
use sauth.Exec.{World}
use sauth.Auth.{Result}
use sauth.Auth.OtpVerify.{verify_otp}
use sauth.Auth.OtpVerify.Success.{verify-admits}
use sauth.Auth.OtpVerify.Twice.{verified-consumed}
use sauth.Auth.Integrity.Invariants.{IsInvariant}
use sauth.Http.Middleware.{HttpRequest}
use sauth.Http.Routes.{Route, answered_all}
use sauth.Http.Keys.{answered_all-Holds}

module _ (env : Env) (key : ℕ) (first : OtpCode) where
  Lived-IsKept : IsKept env (Lived key first)
  Lived-IsKept = record {
    creates_user = λ arg. Preserves-left (HasLived key first) _ (create_user-Leaves env arg);
    creates_session = λ arg. Preserves-left (HasLived key first) _ (create_session-Leaves arg);
    rotates = λ new_hash expires_at id.
        Preserves-left (HasLived key first) _
          (rotate_session_refresh_hash-Leaves new_hash expires_at id);
    revokes_all =
        λ user_id. Preserves-left (HasLived key first) _ (revoke_all_user_sessions-Leaves user_id);
    revokes = λ id. Preserves-left (HasLived key first) _ (revoke_session-Leaves id);
    records =
        λ hash id. Preserves-left (HasLived key first) _ (record_used_refresh_hash-Leaves hash id);
    verifies_email =
        λ id. Preserves-left (HasLived key first) _ (set_user_email_verified-Leaves id);
    verifies_phone =
        λ id. Preserves-left (HasLived key first) _ (set_user_phone_verified-Leaves id);
    assigns = λ user_id role_id project_id.
        Preserves-left (HasLived key first) _
          (assign_role_to_user-Leaves user_id role_id project_id);
    creates_otp = Lived-create key first;
    consumes = Lived-consume key first;
    increments = Lived-increment key first;
    invalidates = Lived-invalidate key first;
    takes_code = λ hash project_id.
        Preserves-left (HasLived key first) _ (take_auth_exchange_code-Leaves hash project_id);
    creates_code = λ hash user_id project_id expires_at.
        Preserves-left (HasLived key first) _
          (create_auth_exchange_code-Leaves hash user_id project_id expires_at);
    creates_account = λ user_id provider sub.
        Preserves-left (HasLived key first) _ (create_oauth_account-Leaves user_id provider sub);
    takes_state = λ state. Preserves-left (HasLived key first) _ (take_oauth_state-Leaves state);
  }

  Lived-IsInvariant : IsInvariant env (Lived key first)
  Lived-IsInvariant = record {
    kept = Lived-IsKept;
    Known = λ p raw project. Unit;
    states = record {
      stores = λ state provider raw p exp project known.
          Preserves-left (HasLived key first) _
            (create_oauth_state-Leaves state provider raw p exp);
    };
    knows = record { knows = λ d p raw project k f v. tt };
  }

module _ (env : Env) where
  abbrev consumed_of : OtpCode → Option ℕ
  consumed_of o = o.consumed_at

  -- The rows of one-time codes refine their life. Whatever requests are answered, one after the other,
  -- and whichever of their calls fail: the row of an id is still there, and has come from what it
  -- was by counted attempts and by being consumed, and by nothing else. No transaction is open at
  -- the start.
  pub codes-HasLived :
      (rs : List (ℕ × HttpRequest × Route)) (w : World) (id : ℕ) (o : OtpCode)
      → w.saved ≡ none
      → find (otp_id id) w.db.otp_codes ≡ some o
      → HasLived id o (answered_all env rs w).db.otp_codes
  codes-HasLived rs w id o closed f =
      (answered_all-Holds env (Lived-IsInvariant env id o) rs w
        (record { db = record { row = o; named = f; life = here }; saved = rw closed tt })).db

  -- A one-time code is good for one verification, for good. After a verification that returned tokens,
  -- whatever requests are answered since, one after the other, and whichever of their calls fail: no
  -- code gives tokens under that id, for whatever project and at whatever time. The verification
  -- has left no transaction open.
  pub verify_once :
      (project_id project_id' t : ℕ) (id code id' code' : Text) (w v : World) (res res' : Result)
      (rs : List (ℕ × HttpRequest × Route))
      → verify_otp env project_id id code w ≡ (ok res, v)
      → v.saved ≡ none
      → trim_space id' ≡ trim_space id
      → (verify_otp env project_id' id' code' (record (answered_all env rs v) { now = t })).0
        ≢ ok res'
  verify_once project_id project_id' t id code id' code' w v res res' rs first closed same second =
      let a = verify-admits env project_id id code w v res first in
      let u = record (answered_all env rs v) { now = t } in
      let x = (verify_otp env project_id' id' code' u).1 in
      let b = verify-admits env project_id' id' code' u x res' (ap (λ r. (r, x)) second) in
      let used = verified-consumed env project_id id code w.now w.db v.db res a in
      let lived = codes-HasLived rs v a.id _ closed used in
      let row : some lived.row ≡ some b.code_row =
        sym lived.named
        ∙ ap (λ k. find (otp_id k) u.db.otp_codes) (cc (a.parsed, b.parsed, same))
        ∙ b.named in
      let same_row : lived.row ≡ b.code_row = cc row in
      (⟶*-IsLater _ lived.row lived.life).used (λ e. cc e) (ap consumed_of same_row ∙ b.unconsumed)
