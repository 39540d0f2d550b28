-- ===== src/Auth/OtpVerify/Resolve.antt =====
-- Whom a right code stands for: what resolving the user has read and written.
pub mod Returns
use mathlib.Core.Path.{subst}
use sauth.Prelude.{ℕ, ◌≡◌, refl, Bool, true, false, none, some, ◌==◌, if◌then◌else◌}
use sauth.Text.{Text, text_eq}
use sauth.Errors.{ok, otp_invalid, user_banned}
use sauth.Env.{Env, Channel, email, sms}
use sauth.Db.{Db, Stamp, User, select}
use sauth.Db.Table.{find, one, update_where}
use sauth.Db.Table.Laws.{one_ok, one_no_rows}
use sauth.Db.Users.{
  same_email, same_phone, get_user_by_email, get_user_by_phone, set_user_email_verified,
  set_user_phone_verified,
}
use sauth.Db.Users.Laws.{IsInserted}
use sauth.Db.Rbac.Laws.{default_attached}
use sauth.Exec.{World}
use sauth.Exec.Laws.{
  Yields, Yields-pure, Yields-raise, Yields-reject, Yields-if, Yields-bind, Yields-query,
  Yields-read_lookup,
}
use sauth.Auth.Signup.Success.{create-Yields, assign_default_role-Yields}
use sauth.Auth.OtpRequest.{
  user_by_destination, lookup_user_by_destination, login_purpose, signup_purpose,
}
use sauth.Auth.OtpVerify.{mark_verified, destination_params, resolve_user}

-- UPDATE users of the row that has the id, at `t`.
abbrev pub user_updated : ℕ → ℕ → (User → User) → Db → Db
user_updated id t f d = record d {
  users =
      update_where (λ (u : User). u.id == id) (λ (u : User). record (f u) { updated_at = t })
        d.users;
}

-- The database once the destination of the user is marked as verified.
abbrev pub marked : Channel → User → ℕ → Db → Db
marked email user t d =
    if user.email_verified
    then d
    else user_updated user.id t (λ (u : User). record u { email_verified = true }) d
marked sms user t d =
    if user.phone_verified
    then d
    else user_updated user.id t (λ (u : User). record u { phone_verified = true }) d

email_marked :
    (id : ℕ) (t : Stamp) (d d' : Db) (u : Unit {0})
    → set_user_email_verified id t d ≡ ok (u, d')
    → d' ≡ user_updated id t.now (λ (v : User). record v { email_verified = true }) d
unfolding set_user_email_verified
email_marked id t d d' u h = cc

phone_marked :
    (id : ℕ) (t : Stamp) (d d' : Db) (u : Unit {0})
    → set_user_phone_verified id t d ≡ ok (u, d')
    → d' ≡ user_updated id t.now (λ (v : User). record v { phone_verified = true }) d
unfolding set_user_phone_verified
phone_marked id t d d' u h = cc

module _ (env : Env) where
  -- A user of the project that has the destination.
  abbrev pub owns : ℕ → Channel → Text → User → Bool
  owns project_id email dest = same_email env project_id (some dest)
  owns project_id sms dest = same_phone env project_id (some dest)

  pub user_by_destination-reads :
      (project_id : ℕ) (channel : Channel) (dest : Text) (t : Stamp) (d : Db)
      → user_by_destination env project_id channel dest t d
        ≡ select (one (find (owns project_id channel dest) d.users)) d
  unfolding user_by_destination get_user_by_email get_user_by_phone
  user_by_destination-reads project_id email dest t d = refl
  user_by_destination-reads project_id sms dest t d = refl

  mark_verified-Yields :
      {Q : Unit {0} → World → Type 0} (user : User) (channel : Channel) {w : World}
      → ((d : Db)
          → d ≡ marked channel user w.now w.db
          → (n : ℕ) → Q tt (record w { db = d; calls = n }))
      → Yields (mark_verified env user channel) w Q
  unfolding mark_verified
  mark_verified-Yields user email {w} q =
      Yields-if user.email_verified (λ e. Yields-pure (q _ (rw e refl) _))
        (λ e.
          Yields-query env (set_user_email_verified user.id)
            λ u d f. q d (rw e (email_marked user.id _ w.db d u f)) _)
  mark_verified-Yields user sms {w} q =
      Yields-if user.phone_verified (λ e. Yields-pure (q _ (rw e refl) _))
        (λ e.
          Yields-query env (set_user_phone_verified user.id)
            λ u d f. q d (rw e (phone_marked user.id _ w.db d u f)) _)

  -- The user whom a right code of the purpose stands for, and the database once it is settled.
  pub data IsResolved (project_id : ℕ) (purpose : Text) (channel : Channel) (dest : Text) (t : ℕ)
      (before : Db) (user : User) (after : Db) : Type 0 where
    known :
        text_eq purpose login_purpose ≡ true
        → find (owns project_id channel dest) before.users ≡ some user
        → user.banned ≡ false
        → after ≡ marked channel user t before
        → IsResolved project_id purpose channel dest t before user after
    registered :
        text_eq purpose signup_purpose ≡ true
        → find (owns project_id channel dest) before.users ≡ none
        → (s : Stamp) (with_user : Db) → s.now ≡ t
        → IsInserted env (destination_params env project_id channel dest) s before user with_user
        → after ≡ default_attached user.id project_id (marked channel user t with_user)
        → IsResolved project_id purpose channel dest t before user after

  pub resolve_user-Yields :
      {Q : User → World → Type 0} (project_id : ℕ) (purpose : Text) (channel : Channel)
      (dest : Text) {w : World}
      → ((user : User) (d : Db)
          → IsResolved project_id purpose channel dest w.now w.db user d
          → (n : ℕ) → Q user (record w { db = d; calls = n }))
      → Yields (resolve_user env project_id purpose channel dest) w Q
  unfolding resolve_user lookup_user_by_destination
  resolve_user-Yields project_id purpose channel dest {w} q =
      Yields-if (text_eq purpose login_purpose)
        (λ p. Yields-bind (
          Yields-read_lookup env (user_by_destination env project_id channel dest)
            (one (find (owns project_id channel dest) w.db.users))
            (user_by_destination-reads project_id channel dest _ w.db)
            (λ user e. Yields-reject user.banned user_banned λ allowed. Yields-bind (
              mark_verified-Yields user channel
                λ d m n. Yields-pure (q user d (known p (one_ok _ e) allowed m) n)))
            (λ e. Yields-raise otp_invalid) (λ e. Yields-raise e)))
        (λ _.
          Yields-if (text_eq purpose signup_purpose)
            (λ p. Yields-bind (
              Yields-read_lookup env (user_by_destination env project_id channel dest)
                (one (find (owns project_id channel dest) w.db.users))
                (user_by_destination-reads project_id channel dest _ w.db)
                (λ user e. Yields-raise _)
                (λ e. Yields-bind (
                  create-Yields env _ λ s user d at ins. Yields-bind (
                    mark_verified-Yields user channel λ dm m _. Yields-bind (
                      assign_default_role-Yields env user.id project_id λ dr r n. Yields-pure (
                        q user dr
                          (registered p (one_no_rows _ e) s d at ins
                            (subst (λ b. dr ≡ default_attached user.id project_id b) m r))
                          n)))))
                (λ e. Yields-raise e)))
            (λ _. Yields-raise otp_invalid))
