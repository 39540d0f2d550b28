-- ===== src/Auth/Oauth/Linking.antt =====
-- Which user a Google identity is resolved to, and what resolving it writes.
use mathlib.Core.Path.{subst}
use sauth.Prelude.{
  ℕ, ◌+◌, ◌≡◌, refl, sym, ap, ◌∙◌, Bool, true, false, not, none, some, [], ◌∷◌, ◌++◌, arith, ◌==◌,
  if◌then◌else◌,
}
use sauth.Text.{Text}
use sauth.Errors.{ok}
use sauth.Env.{Env, Identity}
use sauth.Db.{Db, Stamp, User, Project, OauthAccount}
use sauth.Db.Table.{find, one, update_where}
use sauth.Db.Table.Laws.{one_ok, one_no_rows}
use sauth.Db.Users.{get_user_by_id_only, get_user_by_email, set_user_email_verified, same_email}
use sauth.Db.Users.Laws.{IsInserted}
use sauth.Db.Oauth.{get_oauth_account, create_oauth_account, is_account, new_account}
use sauth.Db.Oauth.Laws.{account_linked}
use sauth.Db.Rbac.Laws.{default_attached}
use sauth.Exec.{World}
use sauth.Exec.Laws.{
  Yields, Yields-pure, Yields-raise, Yields-if, Yields-reject, Yields-bind, Yields-query,
  Yields-read, Yields-read_lookup, stamp,
}
use sauth.Auth.Signup.Success.{create-Yields, assign_default_role-Yields}
use sauth.Auth.Oauth.{oauth_provider}
use sauth.Auth.Oauth.Resolve.{
  address_of, vouch, linked_user, link, oauth_user_params, vouched, create_oauth_user,
  unlinked_user, resolve_oauth_user,
}

-- The database with the address of the user verified at `t`, if `b`.
abbrev pub vouched_db : Bool → ℕ → ℕ → Db → Db
vouched_db b user_id t d =
    if b
    then record d {
      users =
          update_where (λ (u : User). u.id == user_id)
            (λ (u : User). record u { email_verified = true; updated_at = t }) d.users;
    }
    else d

-- The database with a Google account linked to the user.
abbrev pub linked_db : Stamp → ℕ → Text → Db → Db
linked_db t user_id sub d = record d {
  oauth_accounts = d.oauth_accounts ++ new_account t user_id oauth_provider sub ∷ [];
}

abbrev pub IsUnlinked : Identity → Db → Type 0
IsUnlinked id d = find (is_account oauth_provider id.sub) d.oauth_accounts ≡ none

module _ (env : Env) where
  -- How `id` becomes a user of `project` at `t`: the user, and the database before and after.
  pub data IsResolved (project : Project) (id : Identity) (t : ℕ) (before : Db)
      : User → Db → Type 0 where
    by_account :
        (acc : OauthAccount) (user : User)
        → find (is_account oauth_provider id.sub) before.oauth_accounts ≡ some acc
        → find (λ (u : User). u.id == acc.user_id) before.users ≡ some user
        → user.project_id ≡ project.id
        → user.banned ≡ false
        → IsResolved project id t before user before
    by_address :
        (s : Stamp) (user : User)
        → s.now ≡ t
        → IsUnlinked id before
        → id.email_verified ≡ true
        → find (same_email env project.id (some (address_of env id))) before.users ≡ some user
        → user.banned ≡ false
        → IsResolved project id t before user
            (vouched_db (not user.email_verified) user.id t (linked_db s user.id id.sub before))
    created :
        (s s' : Stamp) (user : User) (with_user : Db)
        → s.now ≡ t
        → s'.now ≡ t
        → IsUnlinked id before
        → IsInserted env (oauth_user_params env project id) s before user with_user
        → IsResolved project id t before (vouched id.email_verified user) (
            default_attached user.id project.id
              (linked_db s' user.id id.sub (vouched_db id.email_verified user.id t with_user)))

  verified_written :
      (user_id : ℕ) (t : Stamp) (d d' : Db) (u : Unit {0})
      → set_user_email_verified user_id t d ≡ ok (u, d')
      → d' ≡ vouched_db true user_id t.now d
  unfolding set_user_email_verified
  verified_written user_id t d d' u h = cc h

  vouch-Yields :
      {Q : Unit {0} → World → Type 0} (b : Bool) (user_id : ℕ) {w : World}
      → ((d : Db)
          → d ≡ vouched_db b user_id w.now w.db
          → (n : ℕ) → Q tt (record w { db = d; calls = n }))
      → Yields (vouch env b user_id) w Q
  unfolding vouch
  vouch-Yields true user_id {w} q =
      Yields-query env (set_user_email_verified user_id)
        λ u d e. q d (verified_written user_id _ w.db d u e) _
  vouch-Yields false user_id {w} q = Yields-pure (q w.db refl _)

  module _ (project : Project) (id : Identity) where
    linked_user-Yields :
        {Q : User → World → Type 0} (acc : OauthAccount) {w : World}
        → ((user : User)
            → find (λ (u : User). u.id == acc.user_id) w.db.users ≡ some user
            → user.project_id ≡ project.id
            → user.banned ≡ false
            → Q user (record w { calls = w.calls + 1 }))
        → Yields (linked_user env project acc) w Q
    unfolding linked_user get_user_by_id_only
    linked_user-Yields acc {w} q = Yields-bind (
        Yields-read env (get_user_by_id_only env acc.user_id)
          (one (find (λ (u : User). u.id == acc.user_id) w.db.users)) refl
          λ user e. Yields-reject (not (user.project_id == project.id)) _ λ same.
            Yields-reject user.banned _
              λ allowed. Yields-pure (q user (one_ok _ e) (ground arith) allowed))

    link-Yields :
        {Q : User → World → Type 0} (user : User) {w : World}
        → (user.banned ≡ false
            → (s : Stamp) (d : Db) → s.now ≡ w.now
            → d
              ≡ vouched_db (not user.email_verified) user.id w.now (linked_db s user.id id.sub w.db)
            → (n : ℕ) → Q user (record w { db = d; calls = n }))
        → Yields (link env id user) w Q
    unfolding link
    link-Yields user {w} q = Yields-reject user.banned _ λ allowed. Yields-bind (
        Yields-query env (create_oauth_account user.id oauth_provider id.sub) λ acc d e.
          let (_, added) = account_linked user.id oauth_provider id.sub _ w.db d acc e in
          Yields-bind (
            vouch-Yields (not user.email_verified) user.id λ d' v n. Yields-pure (
              q allowed (stamp env w) d' refl
                (v ∙ ap (vouched_db (not user.email_verified) user.id w.now) added) n)))

    create_oauth_user-Yields :
        {Q : User → World → Type 0} {w : World}
        → ((s s' : Stamp) (user : User) (with_user d : Db)
            → s.now ≡ w.now
            → s'.now ≡ w.now
            → IsInserted env (oauth_user_params env project id) s w.db user with_user
            → d
              ≡ default_attached user.id project.id (
                  linked_db s' user.id id.sub
                    (vouched_db id.email_verified user.id w.now with_user))
            → (n : ℕ) → Q (vouched id.email_verified user) (record w { db = d; calls = n }))
        → Yields (create_oauth_user env project id) w Q
    unfolding create_oauth_user
    create_oauth_user-Yields {Q} {w} q = Yields-bind (
        create-Yields env (oauth_user_params env project id) λ s user d at ins. Yields-bind (
          vouch-Yields id.email_verified user.id λ dv v n. Yields-bind (
            Yields-query env (create_oauth_account user.id oauth_provider id.sub) λ acc dl e.
              let (_, added) = account_linked user.id oauth_provider id.sub _ dv dl acc e in
              Yields-bind (
                assign_default_role-Yields env user.id project.id λ dr r m. Yields-pure (
                  q s _ user d dr at refl ins
                    (r
                      ∙ ap (default_attached user.id project.id)
                          (added ∙ ap (linked_db _ user.id id.sub) v))
                    m)))))

    unlinked_user-Yields :
        {Q : User → World → Type 0} {w : World}
        → IsUnlinked id w.db
        → ((user : User) (d : Db)
            → IsResolved project id w.now w.db user d
            → (n : ℕ) → Q user (record w { db = d; calls = n }))
        → Yields (unlinked_user env project id) w Q
    unfolding unlinked_user get_user_by_email
    unlinked_user-Yields {Q} {w} free q =
        let fresh : (m : ℕ) → Yields (create_oauth_user env project id) (record w { calls = m }) Q =
          λ m. create_oauth_user-Yields λ s s' user du d at at' ins e n.
            q _ d
              (subst (IsResolved project id w.now w.db (vouched id.email_verified user)) (sym e)
                (created s s' user du at at' free ins))
              n in
        Yields-if id.email_verified
          (λ verified. Yields-bind (
            Yields-read_lookup env (get_user_by_email env project.id (some (address_of env id)))
              (one (find (same_email env project.id (some (address_of env id))) w.db.users)) refl
              (λ user f. link-Yields user λ allowed s d at e n.
                q user d
                  (subst (IsResolved project id w.now w.db user) (sym e)
                    (by_address s user at free verified (one_ok _ f) allowed))
                  n)
              (λ _. fresh _) (λ e. Yields-raise e)))
          (λ _. fresh w.calls)

    pub resolve-Yields :
        {Q : User → World → Type 0} {w : World}
        → ((user : User) (d : Db)
            → IsResolved project id w.now w.db user d
            → (n : ℕ) → Q user (record w { db = d; calls = n }))
        → Yields (resolve_oauth_user env project id) w Q
    unfolding resolve_oauth_user get_oauth_account
    resolve-Yields {Q} {w} q = Yields-bind (
        Yields-read_lookup env (get_oauth_account oauth_provider id.sub)
          (one (find (is_account oauth_provider id.sub) w.db.oauth_accounts)) refl
          (λ acc f. linked_user-Yields acc λ user owner same allowed.
            q user w.db (by_account acc user (one_ok _ f) owner same allowed) _)
          (λ n. unlinked_user-Yields (one_no_rows _ n) q) (λ e. Yields-raise e))
