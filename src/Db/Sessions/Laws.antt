-- ===== src/Db/Sessions/Laws.antt =====
-- Searches in the table of sessions.
use mathlib.Core.Path.{subst}
use sauth.Text.Laws.{text_eq_iff}
use sauth.Prelude.{
  ℕ, ◌≡◌, refl, Bool, false, none, some, List, [], ◌∷◌, ◌++◌, Option-cases, inl, inr, Bool-cases,
  arith, ◌==◌, ==_refl, if◌then◌else◌,
}
use sauth.Text.{Text, text_eq}
use sauth.Errors.{ok}
use sauth.Db.{Db, Stamp, Session, RefreshTokenHistory}
use sauth.Db.Table.{find, exists, update_where, DistinctBy}
use sauth.Db.Table.Laws.{find-exists_false}
use sauth.Db.Sessions.{
  is_live, has_id, has_hash, was_hash, rotate, record_used_refresh_hash,
  rotate_session_refresh_hash,
}

abbrev pub same_id : Session → Session → Bool
same_id s s' = s'.id == s.id

-- Where ids are distinct, a session that is found and not revoked is the live row of its id.
pub find-is_live :
    (p : Session → Bool) (ss : List Session) (s : Session)
    → DistinctBy same_id ss
    → find p ss ≡ some s
    → s.revoked_at ≡ none
    → find (is_live s.id) ss ≡ some s
unfolding find
find-is_live p [] s d h r = cc
find-is_live p (x ∷ ss) s d h r =
    ground (arith, find-is_live p ss s d.1, find-exists_false p (same_id x) ss s)

-- The history after one more outgoing hash.
abbrev pub spent : Text → ℕ → ℕ → List RefreshTokenHistory → List RefreshTokenHistory
spent presented session_id t history =
    if exists (was_hash presented) history
    then history
    else history ++ record { token_hash = presented; session_id = session_id; used_at = t } ∷ []

pub recorded :
    (h : Text) (id : ℕ) (t : Stamp) (d d' : Db) {u : Unit {0}}
    → record_used_refresh_hash h id t d ≡ ok (u, d')
    → d' ≡ record d { refresh_token_history = spent h id t.now d.refresh_token_history }
unfolding record_used_refresh_hash
recorded h id t d d' e = ground arith

pub replaced :
    (nh : Text) (exp id : ℕ) (t : Stamp) (d d' : Db) (s : Session)
    → rotate_session_refresh_hash nh exp id t d ≡ ok (s, d')
    → (row : Session) × (find (is_live id) d.sessions ≡ some row)
      × (s ≡ rotate t nh exp row)
      × (d' ≡ record d { sessions = update_where (is_live id) (rotate t nh exp) d.sessions })
unfolding rotate_session_refresh_hash
replaced nh exp id t d d' s e = elim (Option-cases (find (is_live id) d.sessions)) [
  | inl n ↦ cc (rw (n, rotate_session_refresh_hash) at e)
  | inr (row, f) ↦ (row, f, ground arith, ground arith)
]

abbrev pub same_hash : Session → Session → Bool
same_hash s s' = text_eq s'.refresh_token_hash s.refresh_token_hash

-- Rotation to another hash makes no session answer to `h`.
find-rotate-none :
    (h nh : Text) (exp id : ℕ) (t : Stamp) (ss : List Session)
    → text_eq nh h ≡ false
    → exists (has_hash h) ss ≡ false
    → find (has_hash h) (update_where (is_live id) (rotate t nh exp) ss) ≡ none
unfolding find exists update_where
find-rotate-none h nh exp id t [] ne e = refl
find-rotate-none h nh exp id t (x ∷ ss) ne e = ground (arith, find-rotate-none h nh exp id t ss ne)

-- Where hashes are distinct, the rotation of the session that answered to `h` leaves none that does.
pub find-rotate :
    (h nh : Text) (exp : ℕ) (t : Stamp) (ss : List Session) (s : Session)
    → text_eq nh h ≡ false
    → DistinctBy same_hash ss
    → find (has_hash h) ss ≡ some s
    → s.revoked_at ≡ none
    → find (has_hash h) (update_where (is_live s.id) (rotate t nh exp) ss) ≡ none
unfolding find update_where
find-rotate h nh exp t [] s ne d f r = cc
find-rotate h nh exp t (x ∷ ss) s ne d f r = elim (Bool-cases (has_hash h x)) [
  | inl hit ↦
      let alone : exists (has_hash h) ss ≡ false =
        subst (λ k. exists (λ (s' : Session). text_eq s'.refresh_token_hash k) ss ≡ false)
          ((text_eq_iff _ _).0 hit) d.0 in
      ground (arith, ==_refl s.id, find-rotate-none h nh exp s.id t ss ne alone)
  | inr miss ↦ ground (arith, find-rotate h nh exp t ss s ne d.1)
]

-- The rotated session is still the session of its id.
pub find-has_id :
    (nh : Text) (exp : ℕ) (t : Stamp) (ss : List Session) (s : Session)
    → DistinctBy same_id ss
    → find (is_live s.id) ss ≡ some s
    → find (has_id s.id) (update_where (is_live s.id) (rotate t nh exp) ss)
      ≡ some (rotate t nh exp s)
unfolding find update_where
find-has_id nh exp t [] s d f = cc
find-has_id nh exp t (x ∷ ss) s d f =
    ground (arith, find-has_id nh exp t ss s d.1, find-exists_false (is_live s.id) (same_id x) ss s)
