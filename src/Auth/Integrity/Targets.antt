-- ===== src/Auth/Integrity/Targets.antt =====
-- No sign-in sends the browser anywhere but to a redirect URI that passed the check of its project.
use mathlib.Core.Path.{subst}
use sauth.Prelude.{ℕ, ◌≡◌, ◌∙◌, refl, sym, ap, some, List, [], ◌==◌, ◌⊎◌, inl, inr}
use sauth.Text.{Text, text_eq, trim_space}
use sauth.Errors.{Outcome, ok, err}
use sauth.Env.{Env}
use sauth.Db.{Db, Stmt, Project, OauthState}
use sauth.Db.Table.{find}
use sauth.Db.Table.Every.{All, All-append, All-delete, All-find}
use sauth.Db.Oauth.{is_state, take_oauth_state}
use sauth.Db.Oauth.Laws.{state_took, state_stored, new_state}
use sauth.Db.Kept.{IsKept}
use sauth.Db.Targets.{
  LeavesTargets, create_user-LeavesTargets, create_session-LeavesTargets,
  rotate_session_refresh_hash-LeavesTargets, revoke_all_user_sessions-LeavesTargets,
  revoke_session-LeavesTargets, record_used_refresh_hash-LeavesTargets,
  set_user_email_verified-LeavesTargets, set_user_phone_verified-LeavesTargets,
  assign_role_to_user-LeavesTargets, create_otp-LeavesTargets, consume_otp-LeavesTargets,
  increment_otp_attempts-LeavesTargets, invalidate_active_otps-LeavesTargets,
  take_auth_exchange_code-LeavesTargets, create_auth_exchange_code-LeavesTargets,
  create_oauth_account-LeavesTargets,
}
use sauth.Exec.{World}
use sauth.Exec.Keeps.{Preserves}
use sauth.Exec.Laws.{Yields, Yields-pure, Yields-if, Yields-bind, Yields-lookup, Yields-always}
use sauth.Auth.Oauth.Redirects.{IsAllowed, validate-IsAllowed}
use sauth.Auth.Oauth.Callback.{handle_google_callback}
use sauth.Auth.Integrity.Invariants.{IsInvariant}

module _ (env : Env) (projects : List Project) where
  -- A redirect URI that one of the projects admits.
  pub record IsTarget (project_id : ℕ) (raw : Text) : Type 0 where
    pub project : Project
    pub stored : find (λ (p : Project). p.id == project_id) projects ≡ some project
    pub allowed : IsAllowed env project raw

  abbrev RowTarget : OauthState → Type 0
  RowTarget row = IsTarget row.project_id row.redirect_uri

  -- The projects are these, and every pending sign-in leads to where its project admits.
  pub record IsTrusted (d : Db) : Type 0 where
    pub same : d.projects ≡ projects
    pub targets : All RowTarget d.oauth_states

  IsTrusted-Preserves : {A : Type 0} (s : Stmt A) → LeavesTargets s → Preserves IsTrusted s
  IsTrusted-Preserves s l = record {
    at = λ t d a d' k h.
        let (p, o) = l.at t d a d' h in
        record { same = p ∙ k.same; targets = subst (All RowTarget) (sym o) k.targets };
  }

  IsTrusted-take : (state : Text) → Preserves IsTrusted (take_oauth_state state)
  IsTrusted-take state = record {
    at = λ t d a d' k h.
        let (_, e) = state_took state t d d' a h in
        record {
          same = ap (λ (b : Db). b.projects) e ∙ k.same;
          targets =
              subst (All RowTarget) (sym (ap (λ (b : Db). b.oauth_states) e))
                (All-delete RowTarget (is_state state) d.oauth_states k.targets);
        };
  }

  IsTrusted-IsKept : IsKept env IsTrusted
  IsTrusted-IsKept = record {
    creates_user = λ arg. IsTrusted-Preserves _ (create_user-LeavesTargets env arg);
    creates_session = λ arg. IsTrusted-Preserves _ (create_session-LeavesTargets arg);
    rotates = λ new_hash expires_at id.
        IsTrusted-Preserves _ (rotate_session_refresh_hash-LeavesTargets new_hash expires_at id);
    revokes_all = λ user_id. IsTrusted-Preserves _ (revoke_all_user_sessions-LeavesTargets user_id);
    revokes = λ id. IsTrusted-Preserves _ (revoke_session-LeavesTargets id);
    records = λ hash id. IsTrusted-Preserves _ (record_used_refresh_hash-LeavesTargets hash id);
    verifies_email = λ id. IsTrusted-Preserves _ (set_user_email_verified-LeavesTargets id);
    verifies_phone = λ id. IsTrusted-Preserves _ (set_user_phone_verified-LeavesTargets id);
    assigns = λ user_id role_id project_id.
        IsTrusted-Preserves _ (assign_role_to_user-LeavesTargets user_id role_id project_id);
    creates_otp = λ arg. IsTrusted-Preserves _ (create_otp-LeavesTargets arg);
    consumes = λ id. IsTrusted-Preserves _ (consume_otp-LeavesTargets id);
    increments = λ id. IsTrusted-Preserves _ (increment_otp_attempts-LeavesTargets id);
    invalidates = λ project_id dest purpose.
        IsTrusted-Preserves _ (invalidate_active_otps-LeavesTargets project_id dest purpose);
    takes_code = λ hash project_id.
        IsTrusted-Preserves _ (take_auth_exchange_code-LeavesTargets hash project_id);
    creates_code = λ hash user_id project_id expires_at.
        IsTrusted-Preserves _
          (create_auth_exchange_code-LeavesTargets hash user_id project_id expires_at);
    creates_account = λ user_id provider sub.
        IsTrusted-Preserves _ (create_oauth_account-LeavesTargets user_id provider sub);
    takes_state = IsTrusted-take;
  }

  abbrev Admitted : ℕ → Text → Project → Type 0
  Admitted project_id raw project = IsTarget project_id raw

  pub IsTrusted-IsInvariant : IsInvariant env IsTrusted
  IsTrusted-IsInvariant = record {
    kept = IsTrusted-IsKept;
    Known = Admitted;
    states = record {
      stores = λ state provider raw id expires_at project known. record {
        at = λ t d a d' k h.
            let (_, e) = state_stored state provider raw id expires_at t d d' a h in
            record {
              same = ap (λ (b : Db). b.projects) e ∙ k.same;
              targets = subst (All RowTarget) (sym (ap (λ (b : Db). b.oauth_states) e)) (
                  All-append RowTarget d.oauth_states (new_state t state provider raw id expires_at)
                    k.targets known);
            };
      };
    };
    knows = record {
      knows = λ d id raw project k f v. record {
        project = project;
        stored = subst (λ ps. find (λ (p : Project). p.id == id) ps ≡ some project) k.same f;
        allowed = validate-IsAllowed env project raw v;
      };
    };
  }

  -- Where a callback may bounce the browser to: where some project admits, or nowhere with an error.
  abbrev pub BouncesTo : Text → Outcome Text → Type 0
  BouncesTo uri (ok code) = (project_id : ℕ) × IsTarget project_id uri
  BouncesTo uri (err e) = (uri ≡ []) ⊎ ((project_id : ℕ) × IsTarget project_id uri)

  lands : (row : OauthState) (r : Outcome Text) → RowTarget row → BouncesTo row.redirect_uri r
  lands row (ok code) t = (row.project_id, t)
  lands row (err e) t = inr (row.project_id, t)

  pub callback-Bounces :
      (code state : Text) (w : World)
      → IsTrusted w.db
      → Yields (handle_google_callback env code state) w (λ p u. BouncesTo p.0 p.1)
  unfolding handle_google_callback
  callback-Bounces code state w k =
      Yields-if (text_eq (trim_space state) []) (λ _. Yields-pure (inl refl))
        λ _. Yields-bind (
          Yields-lookup env (take_oauth_state state)
            (λ row d e.
              let (f, _) = state_took state _ w.db d row e in
              let target = All-find RowTarget (is_state state) w.db.oauth_states row f k.targets in
              Yields-bind (Yields-always λ r u. Yields-pure (lands row r target)))
            (λ _. Yields-pure (inl refl)) (λ e. Yields-pure (inl refl)))
