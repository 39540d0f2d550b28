-- ===== src/Db/Integrity.antt =====
-- The hashes of the sessions, under a rotation.
pub mod Statements
pub mod Sessions
pub mod Keyed
use mathlib.Core.Path.{subst}
use sauth.Prelude.{
  ==_iff, ℕ, ◌≡◌, ◌∙◌, sym, refl, Bool, true, false, not, ◌&&◌, ◌||◌, ◌==◌, Option, none, some,
  List, [], ◌∷◌, ◌++◌, arith, if◌then◌else◌, Bool-cases, inl, inr,
}
use sauth.Text.{Text, text_eq}
use sauth.Text.Laws.{text_eq_sym}
use sauth.Errors.{Outcome, ok, err}
use sauth.Env.{Env}
use sauth.Db.{Db, Stamp, User, Session}
use sauth.Db.Table.{exists, find, update_where, is_null, DistinctBy}
use sauth.Db.Table.Distinct.{
  exists-same, exists-update, update-none, distinct-append, distinct-update,
}
use sauth.Db.Sessions.{
  CreateSessionParams, create_session, new_session, has_id, has_hash, rotate, is_live,
  rotate_session_refresh_hash,
}
use sauth.Db.Sessions.Laws.{same_id, same_hash, replaced}

pub sym_eq : (a b : ℕ) → (a == b) ≡ (b == a)
sym_eq a b = ground arith

none_live :
    (id : ℕ) (ss : List Session) → exists (has_id id) ss ≡ false → exists (is_live id) ss ≡ false
unfolding exists
none_live id [] h = refl
none_live id (s ∷ ss) h = ground (arith, none_live id ss)

-- Whoever has the new hash has the id, and nobody has the id.
unheld :
    (nh : Text) (id : ℕ) (ss : List Session)
    → exists (has_id id) ss ≡ false
    → exists (λ (s : Session). has_hash nh s && not (has_id id s)) ss ≡ false
    → exists (has_hash nh) ss ≡ false
unfolding exists
unheld nh id [] h free = refl
unheld nh id (s ∷ ss) h free = ground (arith, unheld nh id ss)

-- Another hash than the new one is not met by a rotation.
unmet :
    (t : Stamp) (nh h : Text) (exp id : ℕ) (ss : List Session)
    → text_eq nh h ≡ false
    → exists (has_hash h) ss ≡ false
    → exists (has_hash h) (update_where (is_live id) (rotate t nh exp) ss) ≡ false
unfolding exists update_where
unmet t nh h exp id [] other free = refl
unmet t nh h exp id (s ∷ ss) other free = ground (arith, unmet t nh h exp id ss)

head-live :
    (t : Stamp) (nh : Text) (exp id : ℕ) (x : Session) (ss : List Session)
    → exists (same_id x) ss ≡ false
    → exists (λ (s : Session). has_hash nh s && not (has_id id s)) ss ≡ false
    → (x.id == id) ≡ true
    → exists (has_hash nh) (update_where (is_live id) (rotate t nh exp) ss) ≡ false
head-live t nh exp id x ss ids free e =
    let alone : exists (has_id id) ss ≡ false =
      subst (λ k. exists (has_id k) ss ≡ false) ((==_iff x.id id).0 e) ids in
    rw (update-none (is_live id) (rotate t nh exp) ss (none_live id ss alone))
      (unheld nh id ss alone free)

head-dead :
    (t : Stamp) (nh : Text) (exp id : ℕ) (x : Session) (ss : List Session)
    → exists (same_id x) ss ≡ false
    → exists (same_hash x) ss ≡ false
    → (has_hash nh x && not (has_id id x)) ≡ false
    → exists (same_hash x) (update_where (is_live id) (rotate t nh exp) ss) ≡ false
head-dead t nh exp id x ss ids hashes free = elim (Bool-cases (text_eq nh x.refresh_token_hash)) [
  | inr other ↦ unmet t nh x.refresh_token_hash exp id ss other hashes
  | inl same ↦
      let e : (x.id == id) ≡ true = ground (arith, text_eq_sym nh x.refresh_token_hash, free) in
      let alone : exists (has_id id) ss ≡ false =
        subst (λ k. exists (has_id k) ss ≡ false) ((==_iff x.id id).0 e) ids in
      rw (update-none (is_live id) (rotate t nh exp) ss (none_live id ss alone)) hashes
]

-- No session of the rows has the id, or the new hash but under the id.
pub distinct-rotate :
    (t : Stamp) (nh : Text) (exp id : ℕ) (ss : List Session)
    → DistinctBy same_id ss
    → DistinctBy same_hash ss
    → exists (λ (s : Session). has_hash nh s && not (has_id id s)) ss ≡ false
    → DistinctBy same_hash (update_where (is_live id) (rotate t nh exp) ss)
unfolding exists update_where
distinct-rotate t nh exp id [] ids hashes free = tt
distinct-rotate t nh exp id (x ∷ ss) ids hashes free = elim (Bool-cases (is_live id x)) [
  | inl live ↦ (
    rw live (head-live t nh exp id x ss ids.0 (ground arith) (ground arith)),
    distinct-rotate t nh exp id ss ids.1 hashes.1 (ground arith),
  )
  | inr dead ↦ (
    rw dead (head-dead t nh exp id x ss ids.0 hashes.0 (ground arith)),
    distinct-rotate t nh exp id ss ids.1 hashes.1 (ground arith),
  )
]
