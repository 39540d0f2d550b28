-- ===== src/Db/Integrity/Sessions.antt =====
-- The statements on sessions keep the unique keys.
use sauth.Prelude.{
  ℕ, ◌≡◌, ◌∙◌, ap, refl, Bool, false, not, ◌&&◌, ◌==◌, [], ◌∷◌, ◌++◌, arith, Bool-cases,
  Option-cases, inl, inr,
}
use sauth.Text.{Text}
use sauth.Text.Laws.{text_eq_sym}
use sauth.Errors.{ok}
use sauth.Env.{Env}
use sauth.Db.{Db, Stamp, Session}
use sauth.Db.Table.{exists, find, update_where, is_null}
use sauth.Db.Table.Distinct.{exists-same, distinct-append, distinct-update}
use sauth.Db.Sessions.{
  CreateSessionParams, create_session, new_session, has_id, has_hash, rotate, is_live, revoke,
  rotate_session_refresh_hash, record_used_refresh_hash, revoke_all_user_sessions, revoke_session,
}
use sauth.Db.Sessions.Laws.{same_id, same_hash, replaced, recorded}
use sauth.Db.Integrity.{sym_eq, distinct-rotate}
use sauth.Exec.Keeps.{Preserves}
use sauth.Db.Integrity.Statements.{IsKeyed, IsKeyed-sessions, IsKeyed-elsewhere}

module _ (env : Env) where
  created_session :
      (arg : CreateSessionParams) (t : Stamp) (d d' : Db) (s : Session)
      → create_session arg t d ≡ ok (s, d')
      → (s ≡ new_session t arg)
        × (exists (has_id t.uuid) d.sessions ≡ false)
        × (exists (has_hash arg.refresh_token_hash) d.sessions ≡ false)
        × (d' ≡ record d { sessions = d.sessions ++ new_session t arg ∷ [] })
  unfolding create_session
  created_session arg t d d' s h = ground arith

  pub IsKeyed-create_session :
      (arg : CreateSessionParams) → Preserves (IsKeyed env) (create_session arg)
  IsKeyed-create_session arg = record {
    at = λ t d s d' k h.
        let (_, id, hash, added) = created_session arg t d d' s h in
        let sessions : d'.sessions ≡ d.sessions ++ new_session t arg ∷ [] =
          ap (λ (b : Db). b.sessions) added in
        IsKeyed-sessions env d d' (ap (λ (b : Db). b.users) added)
          (rw sessions (
            distinct-append same_id d.sessions (new_session t arg) k.session_ids
              (exists-same _ _ (λ x. sym_eq t.uuid x.id) d.sessions ∙ id)))
          (rw sessions (
            distinct-append same_hash d.sessions (new_session t arg) k.session_hashes (
              exists-same _ _ (λ x. text_eq_sym arg.refresh_token_hash x.refresh_token_hash)
                d.sessions
              ∙ hash)))
          k;
  }

  unheld_hash :
      (nh : Text) (exp id : ℕ) (t : Stamp) (d d' : Db) (s : Session)
      → rotate_session_refresh_hash nh exp id t d ≡ ok (s, d')
      → exists (λ (x : Session). has_hash nh x && not (has_id id x)) d.sessions ≡ false
  unfolding rotate_session_refresh_hash
  unheld_hash nh exp id t d d' s h =
      elim (Bool-cases (exists (λ (x : Session). has_hash nh x && not (has_id id x)) d.sessions)) [
        | inr free ↦ free
        | inl held ↦ elim (Option-cases (find (is_live id) d.sessions)) [
          | inl e ↦ cc (rw (e, rotate_session_refresh_hash) at h)
          | inr (row, e) ↦ cc (rw (e, rotate_session_refresh_hash, held) at h)
        ]
      ]

  pub IsKeyed-rotate :
      (nh : Text) (exp id : ℕ) → Preserves (IsKeyed env) (rotate_session_refresh_hash nh exp id)
  IsKeyed-rotate nh exp id = record {
    at = λ t d s d' k h.
        let (_, _, _, e) = replaced nh exp id t d d' s h in
        let sessions : d'.sessions ≡ update_where (is_live id) (rotate t nh exp) d.sessions =
          ap (λ (b : Db). b.sessions) e in
        IsKeyed-sessions env d d' (ap (λ (b : Db). b.users) e)
          (rw sessions (
            distinct-update same_id (is_live id) (rotate t nh exp) (λ x y. refl) (λ x y. refl)
              d.sessions k.session_ids))
          (rw sessions (
            distinct-rotate t nh exp id d.sessions k.session_ids k.session_hashes
              (unheld_hash nh exp id t d d' s h)))
          k;
  }

  IsKeyed-revoked :
      (q : Session → Bool) (t : Stamp) (d d' : Db)
      → d' ≡ record d { sessions = update_where q (revoke t) d.sessions }
      → IsKeyed env d
      → IsKeyed env d'
  IsKeyed-revoked q t d d' e k =
      let sessions : d'.sessions ≡ update_where q (revoke t) d.sessions =
        ap (λ (b : Db). b.sessions) e in
      IsKeyed-sessions env d d' (ap (λ (b : Db). b.users) e)
        (rw sessions (
          distinct-update same_id q (revoke t) (λ x y. refl) (λ x y. refl) d.sessions
            k.session_ids))
        (rw sessions (
          distinct-update same_hash q (revoke t) (λ x y. refl) (λ x y. refl) d.sessions
            k.session_hashes))
        k

  pub IsKeyed-revoke_all :
      (user_id : ℕ) → Preserves (IsKeyed env) (revoke_all_user_sessions user_id)
  unfolding revoke_all_user_sessions
  IsKeyed-revoke_all user_id = record {
    at = λ t d u d' k h.
        IsKeyed-revoked (λ (s : Session). s.user_id == user_id && is_null s.revoked_at) t d d'
          (cc h) k;
  }

  pub IsKeyed-revoke : (id : ℕ) → Preserves (IsKeyed env) (revoke_session id)
  unfolding revoke_session
  IsKeyed-revoke id = record { at = λ t d u d' k h. IsKeyed-revoked (has_id id) t d d' (cc h) k }

  pub IsKeyed-record : (h : Text) (id : ℕ) → Preserves (IsKeyed env) (record_used_refresh_hash h id)
  IsKeyed-record hash id = record {
    at = λ t d u d' k h.
        let e = recorded hash id t d d' h in
        IsKeyed-elsewhere env d d' (ap (λ (b : Db). b.users) e) (ap (λ (b : Db). b.sessions) e) k;
  }
