-- ===== src/Auth/Refresh/Returns.antt =====
-- A refresh succeeds.
use sauth.Prelude.{
  ℕ, ◌+◌, ◌≤◌, ◌≡◌, refl, ap, Bool, true, false, not, ◌&&◌, none, some, List, [], ◌∷◌, arith, ◌==◌,
  ==_refl, Bool-cases, inl, inr,
}
use sauth.Text.{Text, text_eq, trim_space}
use sauth.Errors.{ok}
use sauth.Env.{Env}
use sauth.Db.{Db, Stamp, User, Session, select}
use sauth.Db.Table.{one, find, exists, update_where, DistinctBy}
use sauth.Db.Users.{get_user_by_id_only}
use sauth.Db.Sessions.{
  has_hash, has_id, was_hash, is_live, rotate, get_session_by_refresh_hash,
  record_used_refresh_hash, rotate_session_refresh_hash,
}
use sauth.Db.Sessions.Laws.{same_id, find-is_live, spent}
use sauth.Token.{hash_refresh_token}
use sauth.Exec.{World, query}
use sauth.Exec.Runs.{IsHealthy}
use sauth.Exec.Returns.{
  Returns, Returns-pure, Returns-bind, Returns-query, Returns-found, Returns-now, Returns-reject,
  Returns-in_tx, Returns-commit,
}
use sauth.Auth.{Result}
use sauth.Auth.Issue.Returns.{mint_access-Returns, new_refresh_token-Returns}
use sauth.Auth.Refresh.{refresh, refresh_in_tx, is_dead, renew, rotate_session}

-- The session that is found is there by its id.
found_exists :
    (p : Session → Bool) (ss : List Session) (s : Session)
    → find p ss ≡ some s
    → exists (has_id s.id) ss ≡ true
unfolding find exists
found_exists p [] s f = cc f
found_exists p (x ∷ ss) s f = elim (Bool-cases (p x)) [
  | inl hit ↦ ground (arith, ==_refl s.id)
  | inr miss ↦ ground (arith, found_exists p ss s)
]

exists_and :
    (p q : Session → Bool) (ss : List Session)
    → exists p ss ≡ false
    → exists (λ s. p s && q s) ss ≡ false
unfolding exists
exists_and p q [] h = refl
exists_and p q (x ∷ ss) h = ground (arith, exists_and p q ss)

records :
    (h : Text) (id : ℕ) (t : Stamp) (d : Db)
    → exists (has_id id) d.sessions ≡ true
    → record_used_refresh_hash h id t d
      ≡ ok (tt, record d { refresh_token_history = spent h id t.now d.refresh_token_history })
unfolding record_used_refresh_hash
records h id t d held = elim (Bool-cases (exists (was_hash h) d.refresh_token_history)) [
  | inl e ↦ rw (e, record_used_refresh_hash)
  | inr e ↦ rw (e, held, record_used_refresh_hash)
]

rotates :
    (nh : Text) (exp : ℕ) (t : Stamp) (d : Db) (s : Session)
    → find (is_live s.id) d.sessions ≡ some s
    → exists (has_hash nh) d.sessions ≡ false
    → rotate_session_refresh_hash nh exp s.id t d
      ≡ ok (
        rotate t nh exp s,
        record d { sessions = update_where (is_live s.id) (rotate t nh exp) d.sessions },
      )
unfolding rotate_session_refresh_hash
rotates nh exp t d s live free = rw (
  live,
  rotate_session_refresh_hash,
  exists_and (has_hash nh) (λ x. not (has_id s.id x)) d.sessions free,
)

module _ (env : Env) (healthy : IsHealthy env) where
  owner-Returns :
      {Q : User → World → Type 0} (id : ℕ) (user : User) {w : World}
      → find (λ (u : User). u.id == id) w.db.users ≡ some user
      → Q user (record w { calls = w.calls + 1 })
      → Returns (query env (get_user_by_id_only env id)) w Q
  unfolding get_user_by_id_only
  owner-Returns id user {w} owner q =
      Returns-query env healthy _ user w.db (ap (λ o. select (one o) w.db) owner) q

  renew-Returns :
      (h : Text) (sess : Session) (user : User) (w : World)
      → find (has_hash h) w.db.sessions ≡ some sess
      → sess.revoked_at ≡ none
      → DistinctBy same_id w.db.sessions
      → find (λ (u : User). u.id == sess.user_id) w.db.users ≡ some user
      → user.banned ≡ false
      → ((n : ℕ)
          → exists (has_hash (hash_refresh_token env (env.random n 32))) w.db.sessions ≡ false)
      → Returns (renew env h sess) w (λ _ _. Unit)
  unfolding renew rotate_session
  renew-Returns h sess user w f alive ids owner allowed fresh = Returns-bind _ (
      new_refresh_token-Returns env healthy (
        Returns-bind _ (
          Returns-bind _ (
            Returns-query env healthy _ _ _
              (records h sess.id _ w.db (found_exists (has_hash h) w.db.sessions sess f))
              (Returns-bind _ (
                Returns-now (
                  Returns-bind _ (
                    Returns-found (
                      Returns-query env healthy _ _ _
                        (rotates _ _ _ _ sess
                          (find-is_live (has_hash h) w.db.sessions sess ids f alive) (fresh _))
                        (Returns-pure (
                          Returns-bind _ (
                            owner-Returns sess.user_id user owner (
                              Returns-reject user.banned _ allowed (
                                Returns-bind _ (
                                  mint_access-Returns env healthy user λ minted n. Returns-bind _ (
                                    Returns-commit env healthy (
                                      Returns-bind _
                                        (Returns-now (Returns-pure tt)))))))))))))))))))

  -- A refresh succeeds. When no call fails, a token that is not blank and whose session is neither revoked
  -- nor expired, of a user that is not banned, is answered with new tokens. The ids of the sessions
  -- are distinct, and no session has the hash of a token that the random source gives.
  pub refresh_returns :
      (raw : Text) (w : World) (sess : Session) (user : User)
      → text_eq (trim_space raw) [] ≡ false
      → find (has_hash (hash_refresh_token env raw)) w.db.sessions ≡ some sess
      → sess.revoked_at ≡ none
      → w.now ≤ sess.expires_at
      → DistinctBy same_id w.db.sessions
      → find (λ (u : User). u.id == sess.user_id) w.db.users ≡ some user
      → user.banned ≡ false
      → ((n : ℕ)
          → exists (has_hash (hash_refresh_token env (env.random n 32))) w.db.sessions ≡ false)
      → (res : Result) × ((refresh env raw w).0 ≡ ok res)
  unfolding refresh refresh_in_tx get_session_by_refresh_hash
  refresh_returns raw w sess user given f alive fresh ids owner allowed unused =
      let hash = hash_refresh_token env raw in
      let open_still : is_dead env w.now sess ≡ false = ground (arith, alive) in
      let y : Returns (refresh env raw) w (λ _ _. Unit) = Returns-reject _ _ given (
        Returns-in_tx env healthy (
          Returns-bind _ (
            Returns-found (
              Returns-query env healthy (get_session_by_refresh_hash hash) sess w.db (rw f) (
                Returns-bind _ (
                  Returns-now (
                    Returns-reject _ _ open_still
                      (renew-Returns hash sess user _ f alive ids owner allowed unused)))))))) in
      (y.result, ap (λ p. p.0) y.runs)
