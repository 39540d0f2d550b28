-- ===== src/Auth/Refresh/Ending.antt =====
-- Logging out ends the session, and its refresh token with it.
use sauth.Prelude.{
  ℕ, ◌≡◌, ◌≢◌, ◌∙◌, sym, ap, refl, false, Option, none, some, List, [], arith, ==_refl,
}
use mathlib.Core.Path.{subst}
use sauth.Text.{Text, text_eq, trim_space}
use sauth.Errors.{ok}
use sauth.Env.{Env}
use sauth.Db.{Db, Session}
use sauth.Db.Table.{find, update_where, one, DistinctBy}
use sauth.Db.Table.Laws.{one_ok, one_no_rows, find-update_stable}
use sauth.Db.Table.Distinct.{distinct-update}
use sauth.Db.Sessions.{has_hash, has_id, revoke, revoke_session, get_session_by_refresh_hash}
use sauth.Db.Sessions.Laws.{same_id}
use sauth.Token.{hash_refresh_token}
use sauth.Exec.{World}
use sauth.Exec.Laws.{
  Yields, Yields-run, Yields-pure, Yields-raise, Yields-if, Yields-bind, Yields-query,
  Yields-read_lookup,
}
use sauth.Auth.{Result}
use sauth.Auth.Refresh.{logout, refresh}
use sauth.Auth.Refresh.Rotation.{refresh-rotates}

-- The sessions after the one that was found is revoked at `t`.
abbrev pub ended : ℕ → Option Session → List Session → List Session
ended t none ss = ss
ended t (some s) ss = update_where (has_id s.id) (revoke (record { uuid = 0; now = t })) ss

no_change :
    (t : ℕ) (d : Db) (o : Option Session)
    → o ≡ none
    → d ≡ record d { sessions = ended t o d.sessions }
no_change t d none h = refl
no_change t d (some s) h = cc h

ended-distinct :
    (t : ℕ) (o : Option Session) (ss : List Session)
    → DistinctBy same_id ss
    → DistinctBy same_id (ended t o ss)
ended-distinct t none ss ids = ids
ended-distinct t (some s) ss ids =
    distinct-update same_id (has_id s.id) (revoke (record { uuid = 0; now = t })) (λ x y. refl)
      (λ x y. refl) ss ids

-- The session of the hash is revoked, if there is one.
ended-revoked :
    (h : Text) (t : ℕ) (o : Option Session) (ss : List Session) (sess : Session)
    → find (has_hash h) ss ≡ o
    → find (has_hash h) (ended t o ss) ≡ some sess
    → sess.revoked_at ≢ none
ended-revoked h t none ss sess e f r = cc (e, f)
ended-revoked h t (some s) ss sess e f r =
    let g =
      find-update_stable (has_hash h) (has_id s.id) (revoke (record { uuid = 0; now = t }))
        (λ x. refl) ss s e in
    ground (arith, ==_refl s.id, g, f)

module _ (env : Env) where
  logout-Yields :
      (raw : Text) (w : World)
      → text_eq (trim_space raw) [] ≡ false
      → Yields (logout env raw) w (λ _ v. v.db ≡ record w.db {
        sessions =
            ended w.now (find (has_hash (hash_refresh_token env raw)) w.db.sessions) w.db.sessions;
      })
  unfolding logout get_session_by_refresh_hash revoke_session
  logout-Yields raw w given =
      Yields-if (text_eq (trim_space raw) []) (λ blank. cc (blank, given))
        (λ _. Yields-bind (
          Yields-read_lookup env (get_session_by_refresh_hash (hash_refresh_token env raw))
            (one (find (has_hash (hash_refresh_token env raw)) w.db.sessions)) refl
            (λ s e. Yields-query env (revoke_session s.id) λ u d r. rw (one_ok _ e) (cc r))
            (λ e. Yields-pure (no_change w.now w.db _ (one_no_rows _ e))) (λ e. Yields-raise e)))

  -- A logout that succeeds has revoked the session of the token that it was given, if there is one,
  -- and changed nothing else; the token is then not refreshed any more, at whatever time, while the
  -- database is as the logout left it. The ids of the sessions are distinct.
  pub logout_ends :
      (raw : Text) (w v : World) (done : Unit {0})
      → text_eq (trim_space raw) [] ≡ false
      → DistinctBy same_id w.db.sessions
      → logout env raw w ≡ (ok done, v)
      → (v.db ≡ record w.db {
        sessions =
            ended w.now (find (has_hash (hash_refresh_token env raw)) w.db.sessions) w.db.sessions;
      })
        × ((u : World) (res : Result) → u.db ≡ v.db → (refresh env raw u).0 ≢ ok res)
  logout_ends raw w v done given ids h =
      let left =
        Yields-run
          {Q = λ _ x. x.db ≡ record w.db {
            sessions =
                ended w.now (find (has_hash (hash_refresh_token env raw)) w.db.sessions)
                  w.db.sessions;
          }}
          (logout-Yields raw w given) done v h in
      (
        left,
        λ u res same again.
            let hash = hash_refresh_token env raw in
            let now_sessions : u.db.sessions
                ≡ ended w.now (find (has_hash hash) w.db.sessions) w.db.sessions =
              ap (λ (d : Db). d.sessions) (same ∙ left) in
            let r =
              refresh-rotates env raw u (refresh env raw u).1 res
                (subst (DistinctBy same_id) (sym now_sessions)
                  (ended-distinct w.now _ w.db.sessions ids))
                (ap (λ x. (x, (refresh env raw u).1)) again) in
            ended-revoked hash w.now (find (has_hash hash) w.db.sessions) w.db.sessions r.sess refl
              (subst (λ ss. find (has_hash hash) ss ≡ some r.sess) now_sessions r.current) r.alive,
      )
