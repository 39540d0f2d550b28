-- ===== src/Tests/SignIns.antt =====
-- Signing in with Google.
use sauth.Prelude.{◌≡◌, ◌≢◌, refl, some, [], ◌∷◌, ◌++◌, replicate}
use sauth.Text.{Text, lit}
use sauth.Errors.{ok, err, oauth_exchange_failed}
use sauth.Text
use sauth.Db.Table
use sauth.Exec
use sauth.SecretBox
use sauth.Auth.Oauth as SignIn
use sauth.Db.Users
use sauth.Token
use sauth.Db.Oauth
use sauth.Db.Rbac
use sauth.Auth.Signup
use sauth.Text.Hex
use sauth.Google
use sauth.Auth.Oauth.Resolve
use sauth.Auth.Oauth.Callback
use sauth.Db.{Project, OauthState}
use sauth.SecretBox.{Box, seal, open_sealed}
use sauth.SecretBox.Laws.{IsSound, open-seal}
use sauth.Exec.{World}
use sauth.Auth.Oauth.{start_google_oauth}
use sauth.Auth.Oauth.Redirects.{IsStarted, start-admits}
use sauth.Auth.Oauth.Callback.{handle_google_callback}
use sauth.Auth.Oauth.Admission.{IsCalledBack, callback-admits}
use sauth.Auth.Oauth.States.{callback_twice}
use sauth.Auth.Oauth.Atomicity.{AtMostUsed, callback-atomic}
use sauth.Tests.{env, start, project}

env-IsSound : IsSound env
env-IsSound = record { base64 = λ raw. refl; aead = λ k n t. refl; nonces = λ n. refl }

abbrev box : Box
box = record { key = replicate 32 7 }

abbrev sealed_text : Text
sealed_text = replicate 12 0 ++ lit "secret"

abbrev sealed_world : World
sealed_world = record start { calls = 1 }

seal_run : seal env box (lit "secret") start ≡ (ok sealed_text, sealed_world)
unfolding Text.text_eq Text.trim_left Text.trim_right Text.trim_space Text.is_space Text.contains
    Text.to_lower Text.to_lower_rune Text.len Text.rune_len Text.has_prefix Table.find Table.exists
    Table.update_where Table.rows_where Table.join Table.insert_sorted Table.order_by Table.distinct
    Exec.reject_if Exec.◌>>=◌ Exec.call Exec.query Exec.begin Exec.commit Exec.rollback
    Exec.deferred Exec.in_tx SecretBox.seal
seal_run = refl

open-seal_example : open_sealed env box sealed_text ≡ ok (lit "secret")
open-seal_example =
    open-seal env env-IsSound box (lit "secret") sealed_text start sealed_world seal_run

-- A project that signs in with Google.
abbrev pub shop : Project
shop = record project {
  allowed_origins = lit "H://a.io/" ∷ [];
  google_oauth_client_id = some (lit "client");
  google_oauth_client_secret_enc = some sealed_text;
}

abbrev pub opened : World
opened = record start { db = record start.db { projects = shop ∷ [] } }

abbrev started : World
started = (start_google_oauth env 1 (lit "ha.io") opened).1

-- The state is the random text of call 1.
abbrev pub state : Text
state = 114 ∷ 101 ∷ []

start_run : start_google_oauth env 1 (lit "ha.io") opened ≡ (ok state, started)
unfolding Text.text_eq Text.trim_left Text.trim_right Text.trim_space Text.is_space Text.contains
    Text.to_lower Text.to_lower_rune Text.len Text.rune_len Text.has_prefix Table.find Table.exists
    Table.update_where Table.rows_where Table.join Table.insert_sorted Table.order_by Table.distinct
    Exec.reject_if Exec.◌>>=◌ Exec.call Exec.query Exec.begin Exec.commit Exec.rollback
    Exec.deferred Exec.in_tx Text.folded Text.equal_fold SecretBox.new SecretBox.box_of
    SecretBox.open_sealed SignIn.redirect_for SignIn.google_config_for SignIn.is_listed
    SignIn.is_admissible SignIn.validate_app_redirect Users.get_project_by_id Token.random_token
    Oauth.create_oauth_state SignIn.start_known SignIn.start_google_oauth
start_run = refl

start-admits_example : IsStarted env 1 (lit "ha.io") 1_000_000_000 opened.db state started.db
start-admits_example = start-admits env 1 (lit "ha.io") opened started state start_run

abbrev pending : OauthState
pending = record {
  state = lit "s";
  project_id = 1;
  provider = lit "google";
  redirect_uri = lit "ha.io";
  created_at = 0;
  expires_at = 1_500_000_000;
}

abbrev waiting : World
waiting = record opened { db = record opened.db { oauth_states = pending ∷ [] } }

abbrev returned : World
returned = (handle_google_callback env (lit "g") (lit "s") waiting).1

-- The code is the random text of call 4.
abbrev code : Text
code = 114 ∷ 104 ∷ []

callback_run :
    handle_google_callback env (lit "g") (lit "s") waiting ≡ (ok (lit "ha.io", ok code), returned)
unfolding Text.text_eq Text.trim_left Text.trim_right Text.trim_space Text.is_space Text.contains
    Text.to_lower Text.to_lower_rune Text.len Text.rune_len Text.has_prefix Table.find Table.exists
    Table.update_where Table.rows_where Table.join Table.insert_sorted Table.order_by Table.distinct
    Exec.reject_if Exec.◌>>=◌ Exec.call Exec.query Exec.begin Exec.commit Exec.rollback
    Exec.deferred Exec.in_tx Text.folded Text.equal_fold SecretBox.new SecretBox.box_of
    SecretBox.open_sealed SignIn.redirect_for SignIn.google_config_for SignIn.is_listed
    SignIn.is_admissible SignIn.validate_app_redirect Users.get_project_by_id Token.random_token
    Rbac.get_default_role Rbac.assign_role_to_user Users.create_user Signup.username_of
    Signup.email_of Signup.create Signup.assign_default_role Signup.map_create_user_err
    Hex.hex_encode Token.hash_refresh_token Google.identified Google.exchange
    Users.get_user_by_id_only Users.get_user_by_email Users.set_user_email_verified
    Oauth.get_oauth_account Oauth.create_oauth_account Oauth.take_oauth_state
    Oauth.create_auth_exchange_code Resolve.address_of Resolve.vouch Resolve.linked_user
    Resolve.link Resolve.create_oauth_user Resolve.unlinked_user Resolve.resolve_oauth_user
    Callback.callback_in_tx Callback.callback_known Callback.callback_state
    Callback.handle_google_callback
callback_run = refl

callback-admits_example :
    IsCalledBack env (lit "g") (lit "s") 1_000_000_000 waiting.db (lit "ha.io") code returned.db
callback-admits_example =
    callback-admits env (lit "g") (lit "s") waiting returned (lit "ha.io") code callback_run

callback_twice_example :
    (handle_google_callback env (lit "h") (lit "s") (record returned { now = 1_000_000_001 })).0
    ≢ ok (lit "ha.io", ok code)
callback_twice_example =
    callback_twice env (lit "g") (lit "h") (lit "s") waiting returned
      (record returned { now = 1_000_000_001 }) (lit "ha.io") code (lit "ha.io") code callback_run
      refl

abbrev refused_world : World
refused_world = (handle_google_callback env [] (lit "s") waiting).1

-- Without a code, Google grants no token.
refused_run :
    handle_google_callback env [] (lit "s") waiting
    ≡ (ok (lit "ha.io", err oauth_exchange_failed), refused_world)
unfolding Text.text_eq Text.trim_left Text.trim_right Text.trim_space Text.is_space Text.contains
    Text.to_lower Text.to_lower_rune Text.len Text.rune_len Text.has_prefix Table.find Table.exists
    Table.update_where Table.rows_where Table.join Table.insert_sorted Table.order_by Table.distinct
    Exec.reject_if Exec.◌>>=◌ Exec.call Exec.query Exec.begin Exec.commit Exec.rollback
    Exec.deferred Exec.in_tx Text.folded Text.equal_fold SecretBox.new SecretBox.box_of
    SecretBox.open_sealed SignIn.redirect_for SignIn.google_config_for SignIn.is_listed
    SignIn.is_admissible SignIn.validate_app_redirect Users.get_project_by_id Token.random_token
    Rbac.get_default_role Rbac.assign_role_to_user Users.create_user Signup.username_of
    Signup.email_of Signup.create Signup.assign_default_role Signup.map_create_user_err
    Hex.hex_encode Token.hash_refresh_token Google.identified Google.exchange
    Users.get_user_by_id_only Users.get_user_by_email Users.set_user_email_verified
    Oauth.get_oauth_account Oauth.create_oauth_account Oauth.take_oauth_state
    Oauth.create_auth_exchange_code Resolve.address_of Resolve.vouch Resolve.linked_user
    Resolve.link Resolve.create_oauth_user Resolve.unlinked_user Resolve.resolve_oauth_user
    Callback.callback_in_tx Callback.callback_known Callback.callback_state
    Callback.handle_google_callback
refused_run = refl

callback-atomic_example : AtMostUsed env (lit "s") waiting.db refused_world.db
callback-atomic_example =
    callback-atomic env [] (lit "s") waiting refused_world (lit "ha.io") oauth_exchange_failed
      refused_run
