-- ===== src/Auth/Oauth/Admission.antt =====
-- What a callback that returns a code has checked and written; a state is used once.
use mathlib.Core.Path.{subst}
use sauth.Prelude.{ℕ, ◌+◌, ◌≤◌, ◌≡◌, refl, false, none, some, [], ◌∷◌, ◌++◌, arith, ◌==◌}
use sauth.Text.{Text, text_eq, trim_space}
use sauth.Errors.{ok}
use sauth.Env.{Env, GoogleConfig, Identity}
use sauth.Db.{Db, Project, User, OauthState, AuthExchangeCode}
use sauth.Db.Table.{find, exists, one, delete_where}
use sauth.Db.Table.Laws.{one_ok}
use sauth.Db.Users.{get_project_by_id}
use sauth.Db.Oauth.{take_oauth_state, is_state, has_code}
use sauth.Db.Oauth.Laws.{state_took, code_stored}
use sauth.Token.{hash_refresh_token, random_token}
use sauth.Google.Laws.{IsIdentified, exchange-Yields}
use sauth.Exec.{World, rollback}
use sauth.Exec.Laws.{
  After, Yields, Yields-run, Yields-pure, Yields-raise, Yields-if, Yields-lift, Yields-reject,
  Yields-bind, Yields-query, Yields-read, Yields-lookup, Yields-call, Yields-now, Yields-in_tx,
  Yields-commit, Yields-attempted,
}
use sauth.Auth.Oauth.{google_config_for, auth_code_ttl}
use sauth.Auth.Oauth.Linking.{IsResolved, resolve-Yields}
use sauth.Auth.Oauth.Callback.{
  callback_in_tx, callback_known, callback_state, handle_google_callback,
}

-- The database without the state.
abbrev pub state_used : Text → Db → Db
state_used state d = record d { oauth_states = delete_where (is_state state) d.oauth_states }

module _ (env : Env) where
  -- What the transaction of a callback has done for an identity at `t`, from `before`.
  pub record IsCoded (project : Project) (ident : Identity) (raw : Text) (t : ℕ) (before after : Db)
      : Type 0 where
    pub user : User
    pub with_user : Db
    pub resolved : IsResolved env project ident t before user with_user
    pub entry : AuthExchangeCode
    pub added :
        after
        ≡ record with_user { auth_exchange_codes = with_user.auth_exchange_codes ++ entry ∷ [] }
    pub hashed : entry.code_hash ≡ hash_refresh_token env raw
    pub unused : exists (has_code entry.code_hash) with_user.auth_exchange_codes ≡ false
    pub of_user : entry.user_id ≡ user.id
    pub of_project : entry.project_id ≡ project.id
    pub lifetime : entry.expires_at ≡ t + auth_code_ttl
    pub unconsumed : entry.consumed_at ≡ none

  -- What a callback at `t` from `before` has done when it returns `raw` for the redirect URI `uri`.
  pub record IsCalledBack (code state : Text) (t : ℕ) (before : Db) (uri raw : Text) (after : Db)
      : Type 0 where
    pub row : OauthState
    pub taken : find (is_state state) before.oauth_states ≡ some row
    pub target : uri ≡ row.redirect_uri
    pub unexpired : t ≤ row.expires_at
    pub project : Project
    pub known : find (λ (p : Project). p.id == row.project_id) before.projects ≡ some project
    pub config : GoogleConfig
    pub configured : google_config_for env project ≡ ok config
    pub ident : Identity
    pub identity : IsIdentified env config code ident
    pub coded : IsCoded project ident raw t (state_used state before) after

  callback_in_tx-Yields :
      {Q : Text → World → Type 0} (project : Project) (ident : Identity) (raw : Text) {w : World}
      → ((d : Db)
          → IsCoded project ident raw w.now w.db d
          → (n : ℕ) → Q raw (record w { db = d; saved = none; calls = n }))
      → Yields (callback_in_tx env project ident raw) w Q
  unfolding callback_in_tx
  callback_in_tx-Yields project ident raw {w} q = Yields-bind (
      resolve-Yields env project ident λ user du r n. Yields-bind (
        Yields-now (
          Yields-bind (
            Yields-query env _ λ u d e.
              let (unused, added) = code_stored _ user.id project.id _ _ du d u e in
              Yields-bind (
                Yields-commit env (
                  Yields-pure (
                    q d
                      (record {
                        user = user;
                        with_user = du;
                        resolved = r;
                        entry = _;
                        added = added;
                        hashed = refl;
                        unused = unused;
                        of_user = refl;
                        of_project = refl;
                        lifetime = refl;
                        unconsumed = refl;
                      })
                      _)))))))

  callback_known-Yields :
      {Q : Text → World → Type 0} (code : Text) (project : Project) {w : World}
      → ((config : GoogleConfig) (ident : Identity) (raw : Text) (d : Db)
          → google_config_for env project ≡ ok config
          → IsIdentified env config code ident
          → IsCoded project ident raw w.now w.db d
          → (n : ℕ) → Q raw (record w { db = d; saved = none; calls = n }))
      → Yields (callback_known env code project) w Q
  unfolding callback_known random_token rollback
  callback_known-Yields code project {w} q = Yields-bind (
      Yields-lift (google_config_for env project) λ config c. Yields-bind (
        Yields-attempted
          (exchange-Yields env config code λ ident i n. Yields-bind (
            Yields-bind (
              Yields-call env (
                Yields-pure (
                  Yields-in_tx env (
                    callback_in_tx-Yields project ident _
                      λ d coded m. q config ident _ d c i coded m))))))
          (λ e u. Yields-raise _)))

  -- A callback that returns a code has taken a state that was stored and had not expired; the redirect
  -- URI is the one stored with it. The state's project is configured, Google answered the code with
  -- an identity, and a user of that project that is not banned stands for it: the one its account is
  -- linked to, else the one with the address that Google vouches for, which is linked, else a new
  -- one. It has stored one exchange code of that user for a minute, and changed nothing else.
  pub callback-admits :
      (code state : Text) (w v : World) (uri raw : Text)
      → handle_google_callback env code state w ≡ (ok (uri, ok raw), v)
      → IsCalledBack code state w.now w.db uri raw v.db
  unfolding handle_google_callback callback_state get_project_by_id
  callback-admits code state w v uri raw h =
      Yields-run {Q = λ p u. After (λ r x. IsCalledBack code state w.now w.db p.0 r x.db) p.1 u}
        (Yields-if (text_eq (trim_space state) []) (λ _. Yields-pure tt)
          λ _. Yields-bind (
            Yields-lookup env (take_oauth_state state)
              (λ row d e.
                let (f, used) = state_took state _ w.db d row e in
                Yields-bind (
                  Yields-attempted
                    (Yields-bind (
                      Yields-now (
                        Yields-reject _ _ λ fresh. Yields-bind (
                          Yields-read env (get_project_by_id row.project_id)
                            (one (find (λ (p : Project). p.id == row.project_id) d.projects)) refl
                            λ project k.
                              callback_known-Yields code project λ config ident raw' d' c i coded n.
                                Yields-pure (record {
                                  row = row;
                                  taken = f;
                                  target = refl;
                                  unexpired = ground arith;
                                  project = project;
                                  known =
                                      subst
                                        (λ (b : Db).
                                          find (λ (p : Project). p.id == row.project_id) b.projects
                                          ≡ some project)
                                        used (one_ok _ k);
                                  config = config;
                                  configured = c;
                                  ident = ident;
                                  identity = i;
                                  coded =
                                      subst (λ b. IsCoded project ident raw' w.now b d') used coded;
                                })))))
                    (λ e u. Yields-pure tt)))
              (λ _. Yields-pure tt) (λ e. Yields-pure tt)))
        (uri, ok raw) v h
