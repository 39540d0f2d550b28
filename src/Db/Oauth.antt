-- ===== src/Db/Oauth.antt =====
-- backend/internal/db/oauth.sql.go
pub mod Laws
use sauth.Prelude.{ℕ, Bool, ◌&&◌, Option, none, some, [], ◌∷◌, ◌++◌, ◌==◌, ltb, if◌then◌else◌}
use sauth.Text.{Text, text_eq}
use sauth.Errors.{
  Outcome, ok, err, no_rows, unique_violation, other_constraint, foreign_key_violation,
}
use sauth.Db.{select, Db, User, Project, OauthAccount, OauthState, AuthExchangeCode, Stamp, Stmt}
use sauth.Db.Table.{find, exists, update_where, delete_where, one, is_null}

abbrev pub is_user : ℕ → User → Bool
is_user id u = u.id == id

abbrev pub is_project : ℕ → Project → Bool
is_project id p = p.id == id

abbrev pub has_code : Text → AuthExchangeCode → Bool
has_code code_hash c = text_eq c.code_hash code_hash

unfoldable pub create_auth_exchange_code : Text → ℕ → ℕ → ℕ → Stmt (Unit {0})
create_auth_exchange_code code_hash user_id project_id expires_at t d =
    if exists (has_code code_hash) d.auth_exchange_codes
    then err (unique_violation other_constraint)
    else if exists (is_user user_id) d.users && exists (is_project project_id) d.projects
    then ok (
      tt,
      record d {
        auth_exchange_codes =
            d.auth_exchange_codes
            ++ record {
              code_hash = code_hash;
              user_id = user_id;
              project_id = project_id;
              created_at = t.now;
              expires_at = expires_at;
              consumed_at = none;
            }
              ∷ [];
      },
    )
    else err foreign_key_violation

abbrev pub is_account : Text → Text → OauthAccount → Bool
is_account provider provider_user_id a =
    text_eq a.provider provider && text_eq a.provider_user_id provider_user_id

abbrev pub new_account : Stamp → ℕ → Text → Text → OauthAccount
new_account t user_id provider provider_user_id = record {
  id = t.uuid;
  user_id = user_id;
  provider = provider;
  provider_user_id = provider_user_id;
  access_token_enc = none;
  refresh_token_enc = none;
  created_at = t.now;
}

-- The callers leave the two encrypted tokens unset.
unfoldable pub create_oauth_account : ℕ → Text → Text → Stmt OauthAccount
create_oauth_account user_id provider provider_user_id t d =
    if exists (λ (a : OauthAccount). a.id == t.uuid) d.oauth_accounts
    then err (unique_violation other_constraint)
    else if exists (is_account provider provider_user_id) d.oauth_accounts
    then err (unique_violation other_constraint)
    else if exists (is_user user_id) d.users
    then ok (
      new_account t user_id provider provider_user_id,
      record d {
        oauth_accounts = d.oauth_accounts ++ new_account t user_id provider provider_user_id ∷ [];
      },
    )
    else err foreign_key_violation

abbrev pub is_state : Text → OauthState → Bool
is_state state s = text_eq s.state state

unfoldable pub create_oauth_state : Text → ℕ → Text → Text → ℕ → Stmt (Unit {0})
create_oauth_state state project_id provider redirect_uri expires_at t d =
    if exists (is_state state) d.oauth_states
    then err (unique_violation other_constraint)
    else if exists (is_project project_id) d.projects
    then ok (
      tt,
      record d {
        oauth_states =
            d.oauth_states
            ++ record {
              state = state;
              project_id = project_id;
              provider = provider;
              redirect_uri = redirect_uri;
              created_at = t.now;
              expires_at = expires_at;
            }
              ∷ [];
      },
    )
    else err foreign_key_violation

unfoldable pub delete_expired_auth_exchange_codes : Stmt (Unit {0})
delete_expired_auth_exchange_codes t d = ok (
  tt,
  record d {
    auth_exchange_codes =
        delete_where (λ (c : AuthExchangeCode). ltb c.expires_at t.now) d.auth_exchange_codes;
  },
)

unfoldable pub delete_expired_oauth_states : Stmt (Unit {0})
delete_expired_oauth_states t d = ok (
  tt,
  record d {
    oauth_states = delete_where (λ (s : OauthState). ltb s.expires_at t.now) d.oauth_states;
  },
)

unfoldable pub get_oauth_account : Text → Text → Stmt OauthAccount
get_oauth_account provider provider_user_id t d =
    select (one (find (is_account provider provider_user_id) d.oauth_accounts)) d

-- What TakeAuthExchangeCode asks of a row.
abbrev pub is_takeable : Stamp → Text → ℕ → AuthExchangeCode → Bool
is_takeable t code_hash project_id c =
    text_eq c.code_hash code_hash
    && c.project_id == project_id
    && is_null c.consumed_at
    && ltb t.now c.expires_at

abbrev pub take_code : Stamp → AuthExchangeCode → AuthExchangeCode
take_code t c = record c { consumed_at = some t.now }

taken : Stamp → Text → ℕ → Db → Option AuthExchangeCode → Outcome (AuthExchangeCode × Db)
taken t code_hash project_id d none = err no_rows
taken t code_hash project_id d (some c) = ok (
  take_code t c,
  record d {
    auth_exchange_codes =
        update_where (is_takeable t code_hash project_id) (take_code t) d.auth_exchange_codes;
  },
)

unfoldable pub take_auth_exchange_code : Text → ℕ → Stmt AuthExchangeCode
unfolding taken
take_auth_exchange_code code_hash project_id t d =
    taken t code_hash project_id d (find (is_takeable t code_hash project_id) d.auth_exchange_codes)

state_taken : Text → Db → Option OauthState → Outcome (OauthState × Db)
state_taken state d none = err no_rows
state_taken state d (some s) =
    ok (s, record d { oauth_states = delete_where (is_state state) d.oauth_states })

-- DELETE ... RETURNING
unfoldable pub take_oauth_state : Text → Stmt OauthState
unfolding state_taken
take_oauth_state state t d = state_taken state d (find (is_state state) d.oauth_states)
