-- ===== src/Auth/Issue/Laws.antt =====
-- What minting and issuing leave behind when they succeed.
use sauth.Prelude.{ℕ, ◌+◌, ◌≡◌, refl, true, false, ◌==◌, arith, none, [], ◌∷◌, ◌++◌}
use sauth.Text.{Text}
use sauth.Errors.{ok}
use sauth.Env.{Env}
use sauth.Db.{Db, Stamp, User, Session}
use sauth.Db.Table.{exists}
use sauth.Db.Sessions.{CreateSessionParams, create_session, new_session, has_hash}
use sauth.Db.Rbac.{role_names, permission_names, get_user_role_names, get_user_permission_names}
use sauth.Token.{access_claims, hash_refresh_token, new_refresh_token, issue_access}
use sauth.Exec.{World}
use sauth.Exec.Laws.{
  Yields, Yields-pure, Yields-bind, Yields-answer, Yields-query, Yields-call, Yields-now,
}
use sauth.Auth.{Result, to_user_dto}
use sauth.Auth.Issue.{Minted, mint_access, issue}

module _ (env : Env) where
  -- The token that is minted for `user` from `w`: its roles and permissions are those in the database.
  abbrev pub minted_at : World → User → Minted
  minted_at w user = record {
    token_str = env.sign (
        access_claims env (w.calls + 1 + 1) w.now (env.uuid_string user.id)
          (env.uuid_string user.project_id) (role_names env user.id w.db)
          (permission_names env user.id w.db));
    exp = w.now + env.access_ttl;
    roles = role_names env user.id w.db;
  }

  pub mint_access-Yields :
      {Q : Minted → World → Type 0} (user : User) {w : World}
      → Q (minted_at w user) (record w { calls = w.calls + 1 + 1 + 1 })
      → Yields (mint_access env user) w Q
  unfolding mint_access issue_access get_user_role_names get_user_permission_names
  mint_access-Yields {Q} user {w} q = Yields-bind (
      Yields-answer env (get_user_role_names env user.id) (role_names env user.id w.db) refl (
        Yields-bind (
          Yields-answer env (get_user_permission_names env user.id)
            (permission_names env user.id w.db) refl
            (Yields-bind (
              Yields-bind
                (Yields-now (Yields-bind (Yields-call env (Yields-pure (Yields-pure q))))))))))

  pub new_refresh_token-Yields :
      {Q : Text × Text → World → Type 0} {w : World}
      → Q
          (env.random w.calls 32, hash_refresh_token env (env.random w.calls 32))
          (record w { calls = w.calls + 1 })
      → Yields (new_refresh_token env) w Q
  unfolding new_refresh_token
  new_refresh_token-Yields q = Yields-bind (Yields-call env (Yields-pure q))

  -- What issuing at `t` from `before` has done when it returns `res`.
  pub record IsIssued (user : User) (t : ℕ) (before : Db) (res : Result) (after : Db) : Type 0 where
    pub session : Session
    pub added : after ≡ record before { sessions = before.sessions ++ session ∷ [] }
    pub owner : session.user_id ≡ user.id
    pub known : exists (λ (u : User). u.id == user.id) before.users ≡ true
    pub hashed : session.refresh_token_hash ≡ hash_refresh_token env res.refresh_token
    pub unused : exists (has_hash session.refresh_token_hash) before.sessions ≡ false
    pub unrevoked : session.revoked_at ≡ none
    pub lifetime : session.expires_at ≡ t + env.refresh_ttl
    pub profile : res.user ≡ to_user_dto env user (role_names env user.id before)
    pub jti : ℕ
    pub access :
        res.access_token
        ≡ env.sign (
            access_claims env jti t
              (env.uuid_string user.id)
              (env.uuid_string user.project_id)
              (role_names env user.id before)
              (permission_names env user.id before))

  session_created :
      (arg : CreateSessionParams) (t : Stamp) (d d' : Db) (s : Session)
      → create_session arg t d ≡ ok (s, d')
      → (exists (has_hash arg.refresh_token_hash) d.sessions ≡ false)
        × (exists (λ (u : User). u.id == arg.user_id) d.users ≡ true)
        × (d' ≡ record d { sessions = d.sessions ++ new_session t arg ∷ [] })
  unfolding create_session
  session_created arg t d d' s h = ground arith

  pub issue-Yields :
      {Q : Result → World → Type 0} (user : User) {w : World}
      → ((res : Result) (d : Db)
          → IsIssued user w.now w.db res d
          → (n : ℕ) → Q res (record w { db = d; calls = n }))
      → Yields (issue env user) w Q
  unfolding issue
  issue-Yields user {w} q = Yields-bind (
      mint_access-Yields user (
        Yields-bind (
          new_refresh_token-Yields (
            Yields-bind (
              Yields-now (
                Yields-bind (
                  Yields-query env _ λ s d e.
                    let (unused, known, added) = session_created _ _ w.db d s e in
                    Yields-pure (
                      q _ d
                        (record {
                          session = _;
                          added = added;
                          owner = refl;
                          known = known;
                          hashed = refl;
                          unused = unused;
                          unrevoked = refl;
                          lifetime = refl;
                          profile = refl;
                          jti = w.calls + 1 + 1;
                          access = refl;
                        })
                        _))))))))
