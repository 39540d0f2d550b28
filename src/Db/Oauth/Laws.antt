-- ===== src/Db/Oauth/Laws.antt =====
-- What taking a code leaves behind.
use sauth.Prelude.{
  ℕ, ◌≡◌, refl, Bool, false, none, some, List, [], ◌∷◌, ◌++◌, arith, ltb, Option-cases, inl, inr,
}
use sauth.Text.{Text}
use sauth.Errors.{ok}
use sauth.Db.{Db, Stamp, AuthExchangeCode, OauthAccount, OauthState}
use sauth.Db.Table.{find, exists, update_where, delete_where}
use sauth.Db.Oauth.{
  is_takeable, take_code, take_auth_exchange_code, has_code, create_auth_exchange_code, is_account,
  new_account, create_oauth_account, is_state, take_oauth_state, create_oauth_state,
}

pub took :
    (h : Text) (p : ℕ) (t : Stamp) (d d' : Db) (c : AuthExchangeCode)
    → take_auth_exchange_code h p t d ≡ ok (c, d')
    → (row : AuthExchangeCode) × (find (is_takeable t h p) d.auth_exchange_codes ≡ some row)
      × (c ≡ take_code t row)
      × (d' ≡ record d {
        auth_exchange_codes = update_where (is_takeable t h p) (take_code t) d.auth_exchange_codes;
      })
unfolding take_auth_exchange_code
took h p t d d' c e = elim (Option-cases (find (is_takeable t h p) d.auth_exchange_codes)) [
  | inl n ↦ cc (rw (n, take_auth_exchange_code) at e)
  | inr (row, f) ↦ (row, f, ground arith, ground arith)
]

-- Rows that can be taken once can be taken at no later time after they were taken at `t`, all of them.
pub find-taken :
    (h : Text) (p : ℕ) (t u : Stamp) (cs : List AuthExchangeCode)
    → ltb u.now t.now ≡ false
    → find (is_takeable u h p) (update_where (is_takeable t h p) (take_code t) cs) ≡ none
unfolding find update_where
find-taken h p t u [] later = refl
find-taken h p t u (c ∷ cs) later = ground (arith, find-taken h p t u cs)

-- What storing a code, linking an account and taking a state have done when they succeed.
pub code_stored :
    (h : Text) (user_id project_id expires_at : ℕ) (t : Stamp) (d d' : Db) (u : Unit {0})
    → create_auth_exchange_code h user_id project_id expires_at t d ≡ ok (u, d')
    → (exists (has_code h) d.auth_exchange_codes ≡ false)
      × (d' ≡ record d {
        auth_exchange_codes =
            d.auth_exchange_codes
            ++ record {
              code_hash = h;
              user_id = user_id;
              project_id = project_id;
              created_at = t.now;
              expires_at = expires_at;
              consumed_at = none;
            }
              ∷ [];
      })
unfolding create_auth_exchange_code
code_stored h user_id project_id expires_at t d d' u e = ground arith

pub account_linked :
    (user_id : ℕ) (provider sub : Text) (t : Stamp) (d d' : Db) (a : OauthAccount)
    → create_oauth_account user_id provider sub t d ≡ ok (a, d')
    → (exists (is_account provider sub) d.oauth_accounts ≡ false)
      × (d' ≡ record d {
        oauth_accounts = d.oauth_accounts ++ new_account t user_id provider sub ∷ [];
      })
unfolding create_oauth_account
account_linked user_id provider sub t d d' a e = ground arith

pub state_took :
    (state : Text) (t : Stamp) (d d' : Db) (s : OauthState)
    → take_oauth_state state t d ≡ ok (s, d')
    → (find (is_state state) d.oauth_states ≡ some s)
      × (d' ≡ record d { oauth_states = delete_where (is_state state) d.oauth_states })
unfolding take_oauth_state
state_took state t d d' s e = elim (Option-cases (find (is_state state) d.oauth_states)) [
  | inl n ↦ cc (rw (n, take_oauth_state) at e)
  | inr (row, f) ↦ (ground arith, ground arith)
]

-- A state that was taken is gone.
pub find-deleted : {A : Type 0} (p : A → Bool) (rs : List A) → find p (delete_where p rs) ≡ none
unfolding find delete_where
find-deleted p [] = refl
find-deleted p (r ∷ rs) = ground (arith, find-deleted p rs)

-- The row that CreateOAuthState writes.
abbrev pub new_state : Stamp → Text → Text → Text → ℕ → ℕ → OauthState
new_state t state provider raw project_id expires_at = record {
  state = state;
  project_id = project_id;
  provider = provider;
  redirect_uri = raw;
  created_at = t.now;
  expires_at = expires_at;
}

pub state_stored :
    (state provider raw : Text) (project_id expires_at : ℕ) (t : Stamp) (d d' : Db) (u : Unit {0})
    → create_oauth_state state project_id provider raw expires_at t d ≡ ok (u, d')
    → (exists (is_state state) d.oauth_states ≡ false)
      × (d' ≡ record d {
        oauth_states = d.oauth_states ++ new_state t state provider raw project_id expires_at ∷ [];
      })
unfolding create_oauth_state
state_stored state provider raw project_id expires_at t d d' u h = ground arith
