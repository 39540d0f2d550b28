-- ===== src/Http/Sessions.antt =====
-- A session lives by its steps, whatever arrives over HTTP, and one that has ended is never revived.
use mathlib.Core.Path.{subst}
use sauth.Prelude.{
  ℕ, List, [], ◌∷◌, ◌≡◌, ◌≢◌, ◌∙◌, sym, ap, false, none, some, arith, Bool-cases, inl, inr, ==_refl,
}
use sauth.Text.{Text}
use sauth.Text.Laws.{text_eq_iff, text_eq_sym, text_eq_refl}
use sauth.Errors.{ok}
use sauth.Env.{Env}
use sauth.Db.{Session}
use sauth.Db.Table.{find, is_null, DistinctBy}
use sauth.Db.Table.Laws.{find-holds, find-exists_false}
use sauth.Db.Kept.{IsKept, Preserves-left}
use sauth.Db.Sessions.{has_id, has_hash}
use sauth.Db.Sessions.Laws.{same_id, same_hash}
use sauth.Db.Sessions.Elsewhere.{
  create_user-Leaves, record_used_refresh_hash-Leaves, set_user_email_verified-Leaves,
  set_user_phone_verified-Leaves, assign_role_to_user-Leaves, create_otp-Leaves, consume_otp-Leaves,
  increment_otp_attempts-Leaves, invalidate_active_otps-Leaves, take_auth_exchange_code-Leaves,
  create_auth_exchange_code-Leaves, create_oauth_account-Leaves, take_oauth_state-Leaves,
  create_oauth_state-Leaves,
}
use sauth.Db.Sessions.Life.{
  HasLived, Lived, here, ⟶*-IsEnded, Lived-create, Lived-rotate, Lived-revoke, Lived-revoke_all,
}
use sauth.Db.Integrity.Statements.{IsKeyed}
use sauth.Token.{hash_refresh_token}
use sauth.Exec.{World}
use sauth.Auth.{Result}
use sauth.Auth.Refresh.{refresh}
use sauth.Auth.Refresh.Rotation.{refresh-rotates}
use sauth.Auth.Integrity.Invariants.{IsInvariant, IsKeyed-IsInvariant}
use sauth.Http.Middleware.{HttpRequest}
use sauth.Http.Routes.{Route, answered_all}
use sauth.Http.Keys.{answered_all-Holds}

-- Where ids are distinct, the row that is found by anything is the one that is found by its id.
find-own_id :
    (h : Text) (ss : List Session) (s : Session)
    → DistinctBy same_id ss
    → find (has_hash h) ss ≡ some s
    → find (has_id s.id) ss ≡ some s
unfolding find
find-own_id h [] s d f = cc f
find-own_id h (x ∷ ss) s d f = elim (Bool-cases (has_hash h x)) [
  | inl hit ↦ ground (arith, ==_refl s.id)
  | inr miss ↦
      let there = find-own_id h ss s d.1 (rw miss at f) in
      let apart = find-exists_false (has_hash h) (same_id x) ss s (rw miss at f) d.0 in
      ground (arith, there, apart)
]

revoked_alive : (s r : Session) → is_null s.revoked_at ≡ false → r ≡ s → r.revoked_at ≡ none → ⊥
revoked_alive s r e same alive = cc (e, same, alive)

-- Where hashes are distinct, the row of a hash is the one found by its id.
find-own_hash :
    (id : ℕ) (ss : List Session) (s r : Session)
    → DistinctBy same_hash ss
    → find (has_id id) ss ≡ some s
    → find (has_hash s.refresh_token_hash) ss ≡ some r
    → r ≡ s
unfolding find
find-own_hash id [] s r d f g = cc f
find-own_hash id (x ∷ ss) s r d f g = elim (Bool-cases (has_id id x)) [
  | inl hit ↦ ground (arith, text_eq_refl s.refresh_token_hash)
  | inr miss ↦
      let apart = find-exists_false (has_id id) (same_hash x) ss s (rw miss at f) d.0 in
      let other : has_hash s.refresh_token_hash x ≡ false =
        text_eq_sym x.refresh_token_hash s.refresh_token_hash ∙ apart in
      find-own_hash id ss s r d.1 (rw miss at f) (rw other at g)
]

module _ (env : Env) (key : ℕ) (first : Session) where
  Lived-IsKept : IsKept env (Lived key first)
  Lived-IsKept = record {
    creates_user = λ arg. Preserves-left (HasLived key first) _ (create_user-Leaves env arg);
    creates_session = Lived-create key first;
    rotates = Lived-rotate key first;
    revokes_all = Lived-revoke_all key first;
    revokes = Lived-revoke key first;
    records =
        λ hash id. Preserves-left (HasLived key first) _ (record_used_refresh_hash-Leaves hash id);
    verifies_email =
        λ id. Preserves-left (HasLived key first) _ (set_user_email_verified-Leaves id);
    verifies_phone =
        λ id. Preserves-left (HasLived key first) _ (set_user_phone_verified-Leaves id);
    assigns = λ user_id role_id project_id.
        Preserves-left (HasLived key first) _
          (assign_role_to_user-Leaves user_id role_id project_id);
    creates_otp = λ arg. Preserves-left (HasLived key first) _ (create_otp-Leaves arg);
    consumes = λ id. Preserves-left (HasLived key first) _ (consume_otp-Leaves id);
    increments = λ id. Preserves-left (HasLived key first) _ (increment_otp_attempts-Leaves id);
    invalidates = λ project_id dest purpose.
        Preserves-left (HasLived key first) _
          (invalidate_active_otps-Leaves project_id dest purpose);
    takes_code = λ hash project_id.
        Preserves-left (HasLived key first) _ (take_auth_exchange_code-Leaves hash project_id);
    creates_code = λ hash user_id project_id expires_at.
        Preserves-left (HasLived key first) _
          (create_auth_exchange_code-Leaves hash user_id project_id expires_at);
    creates_account = λ user_id provider sub.
        Preserves-left (HasLived key first) _ (create_oauth_account-Leaves user_id provider sub);
    takes_state = λ state. Preserves-left (HasLived key first) _ (take_oauth_state-Leaves state);
  }

  Lived-IsInvariant : IsInvariant env (Lived key first)
  Lived-IsInvariant = record {
    kept = Lived-IsKept;
    Known = λ p raw project. Unit;
    states = record {
      stores = λ state provider raw p exp project known.
          Preserves-left (HasLived key first) _
            (create_oauth_state-Leaves state provider raw p exp);
    };
    knows = record { knows = λ d p raw project k f v. tt };
  }

module _ (env : Env) where
  -- A session that has ended is never revived. If the session that answers to a refresh token is revoked,
  -- then whatever requests are answered, one after the other, and whichever of their calls fail, no
  -- refresh of that token returns tokens any more, at whatever time. The unique keys of the
  -- database hold and no transaction is open at the start.
  pub revoked_forever :
      (raw : Text) (s : Session) (w : World) (rs : List (ℕ × HttpRequest × Route)) (t : ℕ)
      (res : Result)
      → w.saved ≡ none
      → IsKeyed env w.db
      → find (has_hash (hash_refresh_token env raw)) w.db.sessions ≡ some s
      → is_null s.revoked_at ≡ false
      → (refresh env raw (record (answered_all env rs w) { now = t })).0 ≢ ok res
  revoked_forever raw s w rs t res closed keyed f ended again =
      let hash = hash_refresh_token env raw in
      let u = record (answered_all env rs w) { now = t } in
      let keys =
        (answered_all-Holds env (IsKeyed-IsInvariant env) rs w
          (record { db = keyed; saved = rw closed tt })).db in
      let lived =
        (answered_all-Holds env (Lived-IsInvariant env s.id s) rs w (record {
          db = record {
            row = s;
            named = find-own_id hash w.db.sessions s keyed.session_ids f;
            life = here;
          };
          saved = rw closed tt;
        })).db in
      let (still, same) = (⟶*-IsEnded s lived.row lived.life).ended ended in
      let r =
        refresh-rotates env raw u (refresh env raw u).1 res keys.session_ids
          (ap (λ x. (x, (refresh env raw u).1)) again) in
      let held : lived.row.refresh_token_hash ≡ hash =
        same
        ∙ (text_eq_iff s.refresh_token_hash hash).0
            (find-holds (has_hash hash) w.db.sessions s f) in
      let one =
        find-own_hash s.id u.db.sessions lived.row r.sess keys.session_hashes lived.named
          (subst (λ k. find (has_hash k) u.db.sessions ≡ some r.sess) (sym held) r.current) in
      absurd (revoked_alive lived.row r.sess still one r.alive)
