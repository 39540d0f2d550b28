-- ===== src/Db/Sessions/Life.antt =====
-- The life of a session: what may happen to its row, as a step relation.
use sauth.Prelude.{
  ℕ, ◌≡◌, refl, ap, Bool, true, false, ◌&&◌, some, List, [], ◌∷◌, ◌++◌, arith, if◌then◌else◌, ◌==◌,
  and_right,
}
use sauth.Text.{Text}
use sauth.Errors.{ok}
use sauth.Db.{Db, Stamp, Session}
use sauth.Db.Table.{find, update_where, is_null}
use sauth.Db.Table.Laws.{find-append, find-update_stable}
use sauth.Db.Sessions.{
  CreateSessionParams, create_session, new_session, has_id, is_live, rotate, revoke,
  rotate_session_refresh_hash, revoke_all_user_sessions, revoke_session,
}
use sauth.Db.Sessions.Laws.{replaced}
use sauth.Db.Sessions.Elsewhere.{sessions_of}
use sauth.Exec.Keeps.{Preserves}

infix 40 ◌⟶◌ ◌⟶*◌
-- A session that is not revoked moves to a new refresh hash; a session is revoked.
pub data ◌⟶◌ : Session → Session → Type 0 where
  rotated :
      {s : Session} (t : Stamp) (hash : Text) (exp : ℕ)
      → is_null s.revoked_at ≡ true
      → s ⟶ rotate t hash exp s
  revoked : {s : Session} (t : Stamp) → s ⟶ revoke t s

pub data ◌⟶*◌ : Session → Session → Type 0 where
  here : {s : Session} → s ⟶* s
  after : {s p q : Session} → s ⟶* p → p ⟶ q → s ⟶* q

-- A session that is revoked stays so, under the same hash, and a session keeps its user.
pub record IsEnded (s p : Session) : Type 0 where
  pub user : p.user_id ≡ s.user_id
  pub ended :
      is_null s.revoked_at ≡ false
      → (is_null p.revoked_at ≡ false) × (p.refresh_token_hash ≡ s.refresh_token_hash)

pub ⟶*-IsEnded : (s p : Session) → s ⟶* p → IsEnded s p
⟶*-IsEnded s _ here = record { user = refl; ended = λ e. (e, refl) }
⟶*-IsEnded s _ (after {p = p} h (rotated t hash exp live)) =
    let l = ⟶*-IsEnded s p h in
    record { user = l.user; ended = λ e. let (still, _) = l.ended e in absurd (cc (still, live)) }
⟶*-IsEnded s _ (after {p = p} h (revoked t)) =
    let l = ⟶*-IsEnded s p h in record { user = l.user; ended = λ e. (refl, (l.ended e).1) }

-- The row of `id` is there, and has come from `s` by steps.
pub record HasLived (id : ℕ) (s : Session) (ss : List Session) : Type 0 where
  pub row : Session
  pub named : find (has_id id) ss ≡ some row
  pub life : s ⟶* row

step_if : (b : Bool) (s p q : Session) → s ⟶* p → (b ≡ true → p ⟶ q) → s ⟶* (if b then q else p)
step_if true s p q h k = after h (k refl)
step_if false s p q h k = h

module _ (id : ℕ) (s : Session) where
  update-HasLived :
      (q : Session → Bool) (f : Session → Session)
      → ((r : Session) → (f r).id ≡ r.id)
      → ((r : Session) → q r ≡ true → r ⟶ f r)
      → (ss : List Session) → HasLived id s ss
      → HasLived id s (update_where q f ss)
  update-HasLived q f same step ss l = record {
    row = if q l.row then f l.row else l.row;
    named = find-update_stable (has_id id) q f (λ r. ap (λ n. n == id) (same r)) ss l.row l.named;
    life = step_if (q l.row) s l.row (f l.row) l.life (step l.row);
  }

  abbrev pub Lived : Db → Type 0
  Lived d = HasLived id s (sessions_of d)

  created :
      (arg : CreateSessionParams) (t : Stamp) (d d' : Db) (a : Session)
      → create_session arg t d ≡ ok (a, d')
      → d'.sessions ≡ d.sessions ++ new_session t arg ∷ []
  unfolding create_session
  created arg t d d' a h = ground arith

  pub Lived-create : (arg : CreateSessionParams) → Preserves Lived (create_session arg)
  Lived-create arg = record {
    at = λ t d a d' l h. rw (created arg t d d' a h) (record {
      row = l.row;
      named = find-append (has_id id) d.sessions (new_session t arg ∷ []) l.row l.named;
      life = l.life;
    });
  }

  pub Lived-rotate :
      (hash : Text) (exp i : ℕ) → Preserves Lived (rotate_session_refresh_hash hash exp i)
  Lived-rotate hash exp i = record {
    at = λ t d a d' l h.
        let (_, _, _, e) = replaced hash exp i t d d' a h in
        rw (ap sessions_of e) (
          update-HasLived (is_live i) (rotate t hash exp) (λ r. refl)
            (λ r live. rotated t hash exp (and_right (r.id == i) (is_null r.revoked_at) live))
            d.sessions l);
  }

  pub Lived-revoke : (i : ℕ) → Preserves Lived (revoke_session i)
  unfolding revoke_session
  Lived-revoke i = record {
    at = λ t d a d' l h.
        let e : d'.sessions ≡ update_where (has_id i) (revoke t) d.sessions = cc h in
        rw e (update-HasLived (has_id i) (revoke t) (λ r. refl) (λ r _. revoked t) d.sessions l);
  }

  pub Lived-revoke_all : (u : ℕ) → Preserves Lived (revoke_all_user_sessions u)
  unfolding revoke_all_user_sessions
  Lived-revoke_all u = record {
    at = λ t d a d' l h.
        let open_one = λ (r : Session). r.user_id == u && is_null r.revoked_at in
        let e : d'.sessions ≡ update_where open_one (revoke t) d.sessions = cc h in
        rw e (update-HasLived open_one (revoke t) (λ r. refl) (λ r _. revoked t) d.sessions l);
  }
