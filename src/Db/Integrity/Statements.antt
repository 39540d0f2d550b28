-- ===== src/Db/Integrity/Statements.antt =====
-- The unique keys of users and sessions, which every statement of the flows keeps.
use sauth.Prelude.{ℕ, ◌≡◌, ◌∙◌, sym, ap, refl, Bool, true, false, ◌==◌, [], ◌∷◌, ◌++◌, arith}
use mathlib.Core.Path.{subst}
use sauth.Text.{Text}
use sauth.Env.{Env}
use sauth.Db.{Db, User}
use sauth.Db.Table.{exists, update_where, DistinctBy}
use sauth.Db.Table.Distinct.{distinct-append, distinct-update}
use sauth.Db.Users.{
  CreateUserParams, create_user, same_email, set_user_email_verified, set_user_phone_verified,
}
use sauth.Db.Users.Laws.{create_user-IsInserted}
use sauth.Db.Sessions.Laws.{same_id, same_hash}
use sauth.Db.Otp.{
  CreateOtpParams, create_otp, consume_otp, increment_otp_attempts, invalidate_active_otps,
}
use sauth.Db.Rbac.{assign_role_to_user}
use sauth.Db.Rbac.Laws.{assign-attached}
use sauth.Db.Otp.Laws.{create-new_otp}
use sauth.Db.Oauth.{take_auth_exchange_code}
use sauth.Db.Oauth.Laws.{took}
use sauth.Exec.Keeps.{Preserves}

abbrev pub same_user_id : User → User → Bool
same_user_id x u = x.id == u.id

-- `x` has the address of `u` in the project of `u`.
abbrev pub same_user_email : Env → User → User → Bool
same_user_email env x u = same_email env u.project_id u.email x

module _ (env : Env) where
  -- Ids of users and sessions, addresses in a project and refresh hashes are distinct.
  pub record IsKeyed (d : Db) : Type 0 where
    pub user_ids : DistinctBy same_user_id d.users
    pub user_emails : DistinctBy (same_user_email env) d.users
    pub session_ids : DistinctBy same_id d.sessions
    pub session_hashes : DistinctBy same_hash d.sessions

  -- A database with the same users and sessions.
  pub IsKeyed-elsewhere :
      (d d' : Db) → d'.users ≡ d.users → d'.sessions ≡ d.sessions → IsKeyed d → IsKeyed d'
  IsKeyed-elsewhere d d' u s k = record {
    user_ids = rw u k.user_ids;
    user_emails = rw u k.user_emails;
    session_ids = rw s k.session_ids;
    session_hashes = rw s k.session_hashes;
  }

  IsKeyed-users :
      (d d' : Db)
      → d'.sessions ≡ d.sessions
      → DistinctBy same_user_id d'.users
      → DistinctBy (same_user_email env) d'.users
      → IsKeyed d
      → IsKeyed d'
  IsKeyed-users d d' s i e k = record {
    user_ids = i;
    user_emails = e;
    session_ids = rw s k.session_ids;
    session_hashes = rw s k.session_hashes;
  }

  pub IsKeyed-sessions :
      (d d' : Db)
      → d'.users ≡ d.users
      → DistinctBy same_id d'.sessions
      → DistinctBy same_hash d'.sessions
      → IsKeyed d
      → IsKeyed d'
  IsKeyed-sessions d d' u i h k = record {
    user_ids = rw u k.user_ids;
    user_emails = rw u k.user_emails;
    session_ids = i;
    session_hashes = h;
  }

  pub IsKeyed-same : (d d' : Db) → d' ≡ d → IsKeyed d → IsKeyed d'
  IsKeyed-same d d' e =
      IsKeyed-elsewhere d d' (ap (λ (b : Db). b.users) e) (ap (λ (b : Db). b.sessions) e)

  pub IsKeyed-create_user : (arg : CreateUserParams) → Preserves IsKeyed (create_user env arg)
  IsKeyed-create_user arg = record {
    at = λ t d user d' k h.
        let i = create_user-IsInserted env arg t d d' user h in
        let users : d'.users ≡ d.users ++ user ∷ [] = ap (λ (b : Db). b.users) i.added in
        IsKeyed-users d d' (ap (λ (b : Db). b.sessions) i.added)
          (rw users (distinct-append same_user_id d.users user k.user_ids i.fresh))
          (rw users (
            distinct-append (same_user_email env) d.users user k.user_emails (
              subst (λ u. exists (λ x. same_user_email env x u) d.users ≡ false) (sym i.row)
                i.email_free)))
          k;
  }

  IsKeyed-marked :
      (q : User → Bool) (f : User → User) (d d' : Db)
      → ((x y : User) → same_user_id (f x) y ≡ same_user_id x y)
      → ((x y : User) → same_user_id x (f y) ≡ same_user_id x y)
      → ((x y : User) → same_user_email env (f x) y ≡ same_user_email env x y)
      → ((x y : User) → same_user_email env x (f y) ≡ same_user_email env x y)
      → d' ≡ record d { users = update_where q f d.users }
      → IsKeyed d
      → IsKeyed d'
  IsKeyed-marked q f d d' il ir el er e k =
      let users : d'.users ≡ update_where q f d.users = ap (λ (b : Db). b.users) e in
      IsKeyed-users d d' (ap (λ (b : Db). b.sessions) e)
        (rw users (distinct-update same_user_id q f il ir d.users k.user_ids))
        (rw users (distinct-update (same_user_email env) q f el er d.users k.user_emails)) k

  pub IsKeyed-email_verified : (id : ℕ) → Preserves IsKeyed (set_user_email_verified id)
  unfolding set_user_email_verified
  IsKeyed-email_verified id = record {
    at = λ t d u d' k h.
        IsKeyed-marked (λ (u : User). u.id == id)
          (λ (u : User). record u { email_verified = true; updated_at = t.now }) d d' (λ x y. refl)
          (λ x y. refl) (λ x y. refl) (λ x y. refl) (cc h) k;
  }

  pub IsKeyed-phone_verified : (id : ℕ) → Preserves IsKeyed (set_user_phone_verified id)
  unfolding set_user_phone_verified
  IsKeyed-phone_verified id = record {
    at = λ t d u d' k h.
        IsKeyed-marked (λ (u : User). u.id == id)
          (λ (u : User). record u { phone_verified = true; updated_at = t.now }) d d' (λ x y. refl)
          (λ x y. refl) (λ x y. refl) (λ x y. refl) (cc h) k;
  }

  pub IsKeyed-assign :
      (user_id role_id project_id : ℕ)
      → Preserves IsKeyed (assign_role_to_user user_id role_id project_id)
  IsKeyed-assign user_id role_id project_id = record {
    at = λ t d u d' k h.
        let e = assign-attached user_id role_id project_id t d d' u h in
        IsKeyed-elsewhere d d' (ap (λ (b : Db). b.users) e ∙ ground arith)
          (ap (λ (b : Db). b.sessions) e ∙ ground arith) k;
  }

  pub IsKeyed-create_otp : (arg : CreateOtpParams) → Preserves IsKeyed (create_otp arg)
  IsKeyed-create_otp arg = record {
    at = λ t d o d' k h.
        let e = (create-new_otp arg t d d' o h).1 in
        IsKeyed-elsewhere d d' (ap (λ (b : Db). b.users) e) (ap (λ (b : Db). b.sessions) e) k;
  }

  pub IsKeyed-consume : (id : ℕ) → Preserves IsKeyed (consume_otp id)
  unfolding consume_otp
  IsKeyed-consume id = record { at = λ t d u d' k h. IsKeyed-elsewhere d d' (cc h) (cc h) k }

  pub IsKeyed-increment : (id : ℕ) → Preserves IsKeyed (increment_otp_attempts id)
  unfolding increment_otp_attempts
  IsKeyed-increment id = record {
    at = λ t d u d' k h. IsKeyed-elsewhere d d' (ground arith) (ground arith) k;
  }

  pub IsKeyed-invalidate :
      (p : ℕ) (dest purpose : Text) → Preserves IsKeyed (invalidate_active_otps p dest purpose)
  unfolding invalidate_active_otps
  IsKeyed-invalidate p dest purpose = record {
    at = λ t d u d' k h. IsKeyed-elsewhere d d' (cc h) (cc h) k;
  }

  pub IsKeyed-take : (h : Text) (p : ℕ) → Preserves IsKeyed (take_auth_exchange_code h p)
  IsKeyed-take hash p = record {
    at = λ t d c d' k h.
        let (_, _, _, e) = took hash p t d d' c h in
        IsKeyed-elsewhere d d' (ap (λ (b : Db). b.users) e) (ap (λ (b : Db). b.sessions) e) k;
  }
