-- ===== src/Auth/Refresh/Twice.antt =====
-- Using one refresh token twice.
use sauth.Prelude.{ℕ, ◌+◌, ◌≡◌, false, some, List, [], ap, ◌∙◌, Bool-cases, inl, inr}
use sauth.Text.{Text, text_eq, trim_space}
use sauth.Text.Laws.{text_eq_refl}
use sauth.Errors.{ok, err, refresh_reuse}
use sauth.Env.{Env}
use sauth.Db.{Session, RefreshTokenHistory}
use sauth.Db.Table.{find, exists, DistinctBy}
use sauth.Db.Table.Laws.{exists-false-find, find-append_absent}
use sauth.Db.Sessions.{has_hash, was_hash, rotate}
use sauth.Db.Sessions.Laws.{same_id, same_hash, spent, find-rotate, find-has_id, find-is_live}
use sauth.Token.{hash_refresh_token}
use sauth.Exec.{World, reject_if}
use sauth.Exec.Runs.{IsHealthy}
use sauth.Auth.{Result}
use sauth.Auth.Refresh.{refresh}
use sauth.Auth.Refresh.Rotation.{IsRotation, refresh-rotates}
use sauth.Auth.Refresh.Replay.{refresh-replay, is_open}

find-spent :
    (h : Text) (id t : ℕ) (hs : List RefreshTokenHistory)
    → exists (was_hash h) hs ≡ false
    → find (was_hash h) (spent h id t hs)
      ≡ some (record { token_hash = h; session_id = id; used_at = t })
unfolding find
find-spent h id t hs fresh = rw fresh (
    find-append_absent (was_hash h) hs _ (exists-false-find (was_hash h) hs fresh)
    ∙ rw (text_eq_refl h))

module _ (env : Env) where
  refresh_given :
      (raw : Text) (w v : World) (res : Result)
      → refresh env raw w ≡ (ok res, v)
      → text_eq (trim_space raw) [] ≡ false
  unfolding refresh reject_if
  refresh_given raw w v res h = elim (Bool-cases (text_eq (trim_space raw) [])) [
    | inl e ↦ cc (ap (λ p. p.0) (rw (e, refresh, reject_if) at h))
    | inr e ↦ e
  ]

  -- A refresh token is good for one refresh. When no call fails and a refresh has returned, the same
  -- token presented again, to the database that the refresh left and at any time, is answered with
  -- the reuse error, and leaves no session of the user open, the one just rotated included. Ids and
  -- hashes of sessions are distinct, the hash was not in the history, and the new token has another.
  pub refresh_twice :
      IsHealthy env
      → (raw : Text) (w v : World) (res : Result) → DistinctBy same_id w.db.sessions
      → DistinctBy same_hash w.db.sessions
      → exists (was_hash (hash_refresh_token env raw)) w.db.refresh_token_history ≡ false
      → text_eq (hash_refresh_token env res.refresh_token) (hash_refresh_token env raw) ≡ false
      → refresh env raw w ≡ (ok res, v)
      → (u : World) → u.db ≡ v.db
      → (sess : Session) × (find (has_hash (hash_refresh_token env raw)) w.db.sessions ≡ some sess)
        × ((refresh env raw u).0 ≡ err refresh_reuse)
        × (exists (is_open sess.user_id) (refresh env raw u).1.db.sessions ≡ false)
  refresh_twice healthy raw w v res ids hashes fresh ne h u same =
      let r : IsRotation env (hash_refresh_token env raw) w.now w.db res v.db =
        refresh-rotates env raw w v res ids h in
      let e : u.db ≡ _ = same ∙ r.rotated in
      let again =
        refresh-replay env healthy raw u
          (record {
            token_hash = hash_refresh_token env raw;
            session_id = r.sess.id;
            used_at = w.now;
          })
          (rotate (record { uuid = 0; now = w.now }) (hash_refresh_token env res.refresh_token)
            (w.now + env.refresh_ttl) r.sess)
          (refresh_given raw w v res h)
          (rw e (
            find-rotate _ _ _ (record { uuid = 0; now = w.now }) w.db.sessions r.sess ne hashes
              r.current r.alive))
          (rw e (find-spent _ _ _ _ fresh))
          (rw e (
            find-has_id _ _ (record { uuid = 0; now = w.now }) w.db.sessions r.sess ids
              (find-is_live _ w.db.sessions r.sess ids r.current r.alive))) in
      (r.sess, r.current, again.0, again.2)
