-- ===== src/Auth/Integrity/SignIns.antt =====
-- Signing in with Google keeps what the statements keep.
use sauth.Prelude.{ℕ, ◌≡◌, refl, Bool, Option, none, some, ◌==◌}
use sauth.Text.{Text}
use sauth.Errors.{Outcome, ok, err, Lookup, found, missing, failed}
use sauth.Env.{Env, GoogleConfig, Identity, Userinfo, UserinfoResponse}
use sauth.Db.{Db, User, Project, OauthAccount, OauthState}
use sauth.Db.Table.{find, one}
use sauth.Db.Table.Laws.{one_ok}
use sauth.Db.Users.{get_project_by_id}
use sauth.Db.Oauth.{create_oauth_state}
use sauth.Db.Kept.{IsKept, KeepsStates, read_rules, write_rules}
use sauth.Token.{random_token}
use sauth.Google.{exchange, tokened, responded, decoded, identified}
use sauth.Exec.{World, Exec, continue, query, lift, ◌>>=◌}
use sauth.Exec.Keeps.{
  Keeps, Holds, keeps_rules, Keeps-raise, Keeps-pure, Keeps-lift, Keeps-query, Keeps-bind,
}
use sauth.Exec.Laws.{After, Yields, Yields-lift, Yields-read}
use sauth.Auth.Integrity.{create-Keeps, assign_default_role-Keeps}
use sauth.Auth.Oauth.{validate_app_redirect, start_known, start_google_oauth}
use sauth.Auth.Oauth.Resolve.{
  vouch, linked_user, link, create_oauth_user, by_address, unlinked_user, by_account,
  resolve_oauth_user,
}
use sauth.Auth.Oauth.Callback.{
  callback_in_tx, callback_identified, callback_known, callback_state, callback_taken,
  handle_google_callback,
}

module _ (env : Env) {P : Db → Type 0} (kept : IsKept env P) where
  vouch-Keeps : (b : Bool) (id : ℕ) → Keeps P (vouch env b id)
  unfolding vouch
  vouch-Keeps b id = search (keeps_rules, write_rules) depth 12

  linked_user-Keeps : (p : Project) (acc : OauthAccount) → Keeps P (linked_user env p acc)
  unfolding linked_user
  linked_user-Keeps p acc = search (keeps_rules, read_rules) depth 12

  link-Keeps : (id : Identity) (user : User) → Keeps P (link env id user)
  unfolding link
  link-Keeps id user = search (keeps_rules, write_rules, vouch-Keeps) depth 12

  create_oauth_user-Keeps : (p : Project) (id : Identity) → Keeps P (create_oauth_user env p id)
  unfolding create_oauth_user
  create_oauth_user-Keeps p id =
      search
        (
          keeps_rules,
          write_rules,
          create-Keeps env kept,
          vouch-Keeps,
          assign_default_role-Keeps env kept,
        )
        depth 14

  by_address-Keeps :
      (p : Project) (id : Identity) (l : Lookup User) → Keeps P (by_address env p id l)
  by_address-Keeps p id (found user) = link-Keeps id user
  by_address-Keeps p id (failed e) = Keeps-raise _
  by_address-Keeps p id missing = create_oauth_user-Keeps p id

  unlinked_user-Keeps : (p : Project) (id : Identity) → Keeps P (unlinked_user env p id)
  unfolding unlinked_user
  unlinked_user-Keeps p id =
      search (keeps_rules, read_rules, by_address-Keeps, create_oauth_user-Keeps) depth 14

  by_account-Keeps :
      (p : Project) (id : Identity) (l : Lookup OauthAccount) → Keeps P (by_account env p id l)
  by_account-Keeps p id (found acc) = linked_user-Keeps p acc
  by_account-Keeps p id (failed e) = Keeps-raise _
  by_account-Keeps p id missing = unlinked_user-Keeps p id

  resolve-Keeps : (p : Project) (id : Identity) → Keeps P (resolve_oauth_user env p id)
  unfolding resolve_oauth_user
  resolve-Keeps p id = search (keeps_rules, read_rules, by_account-Keeps) depth 12

  callback_in_tx-Keeps :
      (p : Project) (id : Identity) (raw : Text) → Keeps P (callback_in_tx env p id raw)
  unfolding callback_in_tx
  callback_in_tx-Keeps p id raw = search (keeps_rules, write_rules, resolve-Keeps) depth 14

  identified-Keeps : (body : Userinfo) → Keeps P (identified body)
  unfolding identified
  identified-Keeps body = search keeps_rules

  decoded-Keeps : (o : Option Userinfo) → Keeps P (decoded o)
  decoded-Keeps none = Keeps-raise _
  decoded-Keeps (some body) = identified-Keeps body

  responded-Keeps : (o : Option UserinfoResponse) → Keeps P (responded o)
  responded-Keeps none = Keeps-raise _
  responded-Keeps (some resp) = search (keeps_rules, decoded-Keeps)

  tokened-Keeps : (o : Option Text) → Keeps P (tokened env o)
  tokened-Keeps none = Keeps-raise _
  tokened-Keeps (some tok) = search (keeps_rules, responded-Keeps)

  exchange-Keeps : (cfg : GoogleConfig) (code : Text) → Keeps P (exchange env cfg code)
  unfolding exchange
  exchange-Keeps cfg code = search (keeps_rules, tokened-Keeps) depth 12

  random_token-Keeps : (n : ℕ) → Keeps P (random_token env n)
  unfolding random_token
  random_token-Keeps n = search keeps_rules depth 12

  callback_identified-Keeps :
      (p : Project) (o : Outcome Identity) → Keeps P (callback_identified env p o)
  callback_identified-Keeps p (err e) = Keeps-raise _
  callback_identified-Keeps p (ok id) =
      search (keeps_rules, random_token-Keeps, callback_in_tx-Keeps) depth 12

  callback_known-Keeps : (code : Text) (p : Project) → Keeps P (callback_known env code p)
  unfolding callback_known
  callback_known-Keeps code p =
      search (keeps_rules, exchange-Keeps, callback_identified-Keeps) depth 14

  callback_state-Keeps : (code : Text) (st : OauthState) → Keeps P (callback_state env code st)
  unfolding callback_state
  callback_state-Keeps code st = search (keeps_rules, read_rules, callback_known-Keeps) depth 14

  callback_taken-Keeps : (code : Text) (l : Lookup OauthState) → Keeps P (callback_taken env code l)
  callback_taken-Keeps code missing = Keeps-pure _
  callback_taken-Keeps code (failed e) = Keeps-pure _
  callback_taken-Keeps code (found st) = search (keeps_rules, callback_state-Keeps) depth 12

  pub callback-Keeps : (code state : Text) → Keeps P (handle_google_callback env code state)
  unfolding handle_google_callback
  callback-Keeps code state = search (keeps_rules, write_rules, callback_taken-Keeps) depth 12

-- What a value that `m` returns is known to be helps the rest of the function to keep `P`.
module _ {A B : Type 0} {P : Db → Type 0} (R : A → Type 0) where
  continue-Holds :
      (f : A → Exec B) (r : Outcome A) (w : World)
      → After (λ a _. R a) r w
      → ((a : A) → R a → Keeps P (f a))
      → Holds P w
      → Holds P (continue r f w).1
  continue-Holds f (ok a) w y k h = (k a y).at w h
  continue-Holds f (err e) w y k h = h

  Keeps-bind_known :
      (m : Exec A) (f : A → Exec B)
      → Keeps P m
      → ((w : World) → P w.db → Yields m w (λ a _. R a))
      → ((a : A) → R a → Keeps P (f a))
      → Keeps P (m >>= f)
  unfolding ◌>>=◌
  Keeps-bind_known m f k y l = record {
    at = λ w h. continue-Holds f (m w).0 (m w).1 (y w h.db).after l (k.at w h);
  }

-- A redirect URI that passed the check for the project that is stored under the id is `Known`.
pub record Knows (env : Env) (P : Db → Type 0) (Known : ℕ → Text → Project → Type 0) : Type 0 where
  pub knows :
      (d : Db) (project_id : ℕ) (raw : Text) (project : Project)
      → P d
      → find (λ (p : Project). p.id == project_id) d.projects ≡ some project
      → validate_app_redirect env project raw ≡ ok tt
      → Known project_id raw project

module _ (env : Env) {P : Db → Type 0} (Known : ℕ → Text → Project → Type 0) (kept : IsKept env P)
    (states : KeepsStates P Known) (knows : Knows env P Known) where
  stored-Keeps :
      (project_id : ℕ) (raw : Text) (project : Project)
      → Known project_id raw project
      → (state provider : Text) (expires_at : ℕ)
      → Keeps P (query env (create_oauth_state state project_id provider raw expires_at))
  stored-Keeps project_id raw project k state provider expires_at =
      Keeps-query env _ (states.stores state provider raw project_id expires_at project k)

  start_known-Keeps :
      (project_id : ℕ) (raw : Text) (project : Project)
      → (validate_app_redirect env project raw ≡ ok tt → Known project_id raw project)
      → Keeps P (start_known env project_id raw project)
  unfolding start_known
  start_known-Keeps project_id raw project admits = Keeps-bind _ _ (Keeps-lift _) λ gcfg.
      Keeps-bind_known (λ _. validate_app_redirect env project raw ≡ ok tt)
        (lift (validate_app_redirect env project raw)) _ (Keeps-lift _)
        (λ w _. Yields-lift _ λ _ e. e)
        λ _ e.
          search
            (
              keeps_rules,
              random_token-Keeps env kept,
              stored-Keeps project_id raw project (admits e),
            )
            depth 14

  pub start-Keeps : (project_id : ℕ) (raw : Text) → Keeps P (start_google_oauth env project_id raw)
  unfolding start_google_oauth get_project_by_id
  start-Keeps project_id raw =
      Keeps-bind_known
        (λ project. validate_app_redirect env project raw ≡ ok tt → Known project_id raw project)
        (query env (get_project_by_id project_id)) _ (search (keeps_rules, read_rules))
        (λ w p.
          Yields-read env (get_project_by_id project_id)
            (one (find (λ (q : Project). q.id == project_id) w.db.projects)) refl
            λ project e. knows.knows w.db project_id raw project p (one_ok _ e))
        (λ project admits. start_known-Keeps project_id raw project admits)
