-- ===== src/Auth/Oauth/Atomicity.antt =====
-- What a Google sign-in that fails leaves of the database.
use sauth.Prelude.{ℕ, ◌≡◌, refl, Bool, Option, none, some, [], ◌⊎◌, inl, inr, ◌∙◌}
use sauth.Text.{Text, text_eq, trim_space}
use sauth.Errors.{Err, Outcome, ok, err, Lookup, found, missing, failed}
use sauth.Env.{Env, GoogleConfig, Identity, Userinfo, UserinfoResponse}
use sauth.Db.{Db, User, Project, OauthAccount, OauthState}
use sauth.Db.Users.{get_project_by_id}
use sauth.Db.Oauth.{take_oauth_state}
use sauth.Db.Oauth.Laws.{state_took}
use sauth.Token.{random_token}
use sauth.Google.{exchange, tokened, responded, decoded, identified}
use sauth.Exec.{World, attempt, query}
use sauth.Exec.Atomic.{IsQuiet, IsAtomic, Any, quiet_rules, atomic_rules}
use sauth.Exec.FailSafe.{
  IsReader, IsReader-query, IsFailSafe, reader_rules, fail_safe_rules, select-reads,
}
use sauth.Exec.Laws.{
  Yields, Yields-run, Yields-pure, Yields-if, Yields-bind, Yields-lookup, Yields-weaken,
}
use sauth.Auth.Signup.Atomicity.{create-IsQuiet, assign_default_role-IsQuiet}
use sauth.Auth.Oauth.Resolve.{
  vouch, linked_user, link, create_oauth_user, by_address, unlinked_user, by_account,
  resolve_oauth_user,
}
use sauth.Auth.Oauth.Callback.{
  callback_in_tx, callback_identified, callback_known, callback_state, handle_google_callback,
}
use sauth.Auth.Oauth.Admission.{state_used}

module _ (env : Env) where
  vouch-IsQuiet : (b : Bool) (id : ℕ) → IsQuiet (vouch env b id)
  unfolding vouch
  vouch-IsQuiet b id = search quiet_rules depth 12

  linked_user-IsQuiet : (p : Project) (acc : OauthAccount) → IsQuiet (linked_user env p acc)
  unfolding linked_user
  linked_user-IsQuiet p acc = search quiet_rules depth 12

  link-IsQuiet : (id : Identity) (user : User) → IsQuiet (link env id user)
  unfolding link
  link-IsQuiet id user = search (quiet_rules, vouch-IsQuiet) depth 12

  create_oauth_user-IsQuiet : (p : Project) (id : Identity) → IsQuiet (create_oauth_user env p id)
  unfolding create_oauth_user
  create_oauth_user-IsQuiet p id =
      search (quiet_rules, create-IsQuiet env, vouch-IsQuiet, assign_default_role-IsQuiet env) depth
        14

  by_address-IsQuiet :
      (p : Project) (id : Identity) (l : Lookup User) → IsQuiet (by_address env p id l)
  by_address-IsQuiet p id (found user) = link-IsQuiet id user
  by_address-IsQuiet p id (failed e) = search quiet_rules
  by_address-IsQuiet p id missing = create_oauth_user-IsQuiet p id

  unlinked_user-IsQuiet : (p : Project) (id : Identity) → IsQuiet (unlinked_user env p id)
  unfolding unlinked_user
  unlinked_user-IsQuiet p id =
      search (quiet_rules, by_address-IsQuiet, create_oauth_user-IsQuiet) depth 14

  by_account-IsQuiet :
      (p : Project) (id : Identity) (l : Lookup OauthAccount) → IsQuiet (by_account env p id l)
  by_account-IsQuiet p id (found acc) = linked_user-IsQuiet p acc
  by_account-IsQuiet p id (failed e) = search quiet_rules
  by_account-IsQuiet p id missing = unlinked_user-IsQuiet p id

  resolve-IsQuiet : (p : Project) (id : Identity) → IsQuiet (resolve_oauth_user env p id)
  unfolding resolve_oauth_user
  resolve-IsQuiet p id = search (quiet_rules, by_account-IsQuiet) depth 12

  callback_in_tx-IsAtomic :
      (p : Project) (id : Identity) (raw : Text) → IsAtomic Any (callback_in_tx env p id raw)
  unfolding callback_in_tx
  callback_in_tx-IsAtomic p id raw = search (atomic_rules, resolve-IsQuiet) depth 14

  identified-IsReader : (body : Userinfo) → IsReader (identified body)
  unfolding identified
  identified-IsReader body = search reader_rules

  decoded-IsReader : (o : Option Userinfo) → IsReader (decoded o)
  decoded-IsReader none = search reader_rules
  decoded-IsReader (some body) = identified-IsReader body

  responded-IsReader : (o : Option UserinfoResponse) → IsReader (responded o)
  responded-IsReader none = search reader_rules
  responded-IsReader (some resp) = search (reader_rules, decoded-IsReader)

  tokened-IsReader : (o : Option Text) → IsReader (tokened env o)
  tokened-IsReader none = search reader_rules
  tokened-IsReader (some tok) = search (reader_rules, responded-IsReader)

  exchange-IsReader : (cfg : GoogleConfig) (code : Text) → IsReader (exchange env cfg code)
  unfolding exchange
  exchange-IsReader cfg code = search (reader_rules, tokened-IsReader) depth 12

  random_token-IsReader : (n : ℕ) → IsReader (random_token env n)
  unfolding random_token
  random_token-IsReader n = search reader_rules depth 12

  callback_identified-IsFailSafe :
      (p : Project) (o : Outcome Identity) → IsFailSafe Any (λ d. d) (callback_identified env p o)
  callback_identified-IsFailSafe p (err e) = search fail_safe_rules
  callback_identified-IsFailSafe p (ok id) =
      search (fail_safe_rules, random_token-IsReader, callback_in_tx-IsAtomic) depth 12

  callback_known-IsFailSafe :
      (code : Text) (p : Project) → IsFailSafe Any (λ d. d) (callback_known env code p)
  unfolding callback_known
  callback_known-IsFailSafe code p =
      search (fail_safe_rules, exchange-IsReader, callback_identified-IsFailSafe) depth 14

  project-IsReader : (id : ℕ) → IsReader (query env (get_project_by_id id))
  unfolding get_project_by_id
  project-IsReader id =
      IsReader-query env (get_project_by_id id) λ t d a d' h. select-reads _ d a d' h

  callback_state-IsFailSafe :
      (code : Text) (st : OauthState) → IsFailSafe Any (λ d. d) (callback_state env code st)
  unfolding callback_state
  callback_state-IsFailSafe code st =
      search (fail_safe_rules, project-IsReader, callback_known-IsFailSafe) depth 14

  -- What an answer says of `T` when it is an error.
  abbrev WhenFailed : {A : Type 0} → Outcome A → Type 0 → Type 0
  WhenFailed (ok a) T = Unit
  WhenFailed (err e) T = T

  failed_cases :
      {A : Type 0} (r : Outcome A) (T : Type 0) → ((e : Err) → r ≡ err e → T) → WhenFailed r T
  failed_cases (ok a) T q = tt
  failed_cases (err e) T q = q e refl

  when_mapped : {A S T : Type 0} (r : Outcome A) → (S → T) → WhenFailed r S → WhenFailed r T
  when_mapped (ok a) f k = tt
  when_mapped (err e) f k = f k

  callback_state-Yields :
      (code : Text) (st : OauthState) (d : Db) {w : World}
      → w.db ≡ d
      → Yields (attempt (callback_state env code st)) w (λ r u. WhenFailed r (u.db ≡ d))
  callback_state-Yields code st d {w} same = record {
    after =
        failed_cases (callback_state env code st w).0 _
          λ e h. (callback_state-IsFailSafe code st).at w e tt h ∙ same;
  }

  -- What is left of the database by a callback that answers with an error.
  abbrev pub AtMostUsed : Text → Db → Db → Type 0
  AtMostUsed state before after = (after ≡ before) ⊎ (after ≡ state_used state before)

  callback_fails :
      (code state : Text) (w : World)
      → Yields
          (handle_google_callback env code state)
          w
          (λ p u. WhenFailed p.1 (AtMostUsed state w.db u.db))
  unfolding handle_google_callback
  callback_fails code state w =
      Yields-if (text_eq (trim_space state) []) (λ _. Yields-pure (inl refl))
        λ _. Yields-bind (
          Yields-lookup env (take_oauth_state state)
            (λ row d e.
              let (_, used) = state_took state _ w.db d row e in
              Yields-bind (
                Yields-weaken (callback_state-Yields code row (state_used state w.db) used)
                  λ r u k. Yields-pure (when_mapped r inr k)))
            (λ _. Yields-pure (inl refl)) (λ e. Yields-pure (inl refl)))

  -- A callback that answers with an error, whichever check, statement, request or commit fails, leaves
  -- the database as it was, except that the state may be used up: no user, account or code is left.
  pub callback-atomic :
      (code state : Text) (w v : World) (uri : Text) (e : Err)
      → handle_google_callback env code state w ≡ (ok (uri, err e), v)
      → AtMostUsed state w.db v.db
  callback-atomic code state w v uri e h = Yields-run (callback_fails code state w) (uri, err e) v h
