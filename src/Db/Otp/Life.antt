-- ===== src/Db/Otp/Life.antt =====
-- The life of a one-time code: what may happen to its row, as a step relation.
use sauth.Prelude.{
  ℕ, ◌≤◌, ◌≡◌, ◌≢◌, refl, ap, Bool, true, false, none, some, List, [], ◌∷◌, arith, Option-cases,
  inl, inr, if◌then◌else◌, ◌==◌, ◌&&◌,
}
use sauth.Text.{Text}
use sauth.Errors.{ok}
use sauth.Db.{Db, Stamp, OtpCode}
use sauth.Db.Table.{find, update_where, is_null}
use sauth.Db.Table.Laws.{find-append, find-update_stable}
use sauth.Db.Otp.{
  otp_id, consume, attempt_more, CreateOtpParams, create_otp, consume_otp, increment_otp_attempts,
  invalidate_active_otps, same_request,
}
use sauth.Db.Otp.Laws.{create-new_otp}
use sauth.Db.Otp.Elsewhere.{otp_codes_of}
use sauth.Exec.Keeps.{Preserves}

infix 40 ◌⟶◌ ◌⟶*◌
-- A wrong code is counted; the code is consumed, by a right code, a lock or a newer request.
pub data ◌⟶◌ : OtpCode → OtpCode → Type 0 where
  missed : {o : OtpCode} → o ⟶ attempt_more o
  consumed : {o : OtpCode} (t : Stamp) → o ⟶ consume t o

pub data ◌⟶*◌ : OtpCode → OtpCode → Type 0 where
  here : {o : OtpCode} → o ⟶* o
  after : {o p q : OtpCode} → o ⟶* p → p ⟶ q → o ⟶* q

-- What no step changes or takes back.
pub record IsLater (o p : OtpCode) : Type 0 where
  pub id : p.id ≡ o.id
  pub project : p.project_id ≡ o.project_id
  pub destination : p.destination ≡ o.destination
  pub hash : p.code_hash ≡ o.code_hash
  pub expiry : p.expires_at ≡ o.expires_at
  pub attempts : o.attempts ≤ p.attempts
  pub used : o.consumed_at ≢ none → p.consumed_at ≢ none

pub ⟶*-IsLater : (o p : OtpCode) → o ⟶* p → IsLater o p
⟶*-IsLater o _ here = record {
  id = refl;
  project = refl;
  destination = refl;
  hash = refl;
  expiry = refl;
  attempts = omega arith;
  used = λ u. u;
}
⟶*-IsLater o _ (after {p = p} h missed) =
    let l = ⟶*-IsLater o p h in
    record {
      id = l.id;
      project = l.project;
      destination = l.destination;
      hash = l.hash;
      expiry = l.expiry;
      attempts = omega (arith, l.attempts);
      used = l.used;
    }
⟶*-IsLater o _ (after {p = p} h (consumed t)) =
    let l = ⟶*-IsLater o p h in
    record {
      id = l.id;
      project = l.project;
      destination = l.destination;
      hash = l.hash;
      expiry = l.expiry;
      attempts = l.attempts;
      used = λ u e. cc e;
    }

-- The row of `id` is there, and has come from `o` by steps.
pub record HasLived (id : ℕ) (o : OtpCode) (os : List OtpCode) : Type 0 where
  pub row : OtpCode
  pub named : find (otp_id id) os ≡ some row
  pub life : o ⟶* row

step_if : (b : Bool) (o p q : OtpCode) → o ⟶* p → p ⟶ q → o ⟶* (if b then q else p)
step_if true o p q h s = after h s
step_if false o p q h s = h

module _ (id : ℕ) (o : OtpCode) where
  update-HasLived :
      (q : OtpCode → Bool) (f : OtpCode → OtpCode)
      → ((r : OtpCode) → (f r).id ≡ r.id)
      → ((r : OtpCode) → r ⟶ f r)
      → (os : List OtpCode) → HasLived id o os
      → HasLived id o (update_where q f os)
  update-HasLived q f same step os l = record {
    row = if q l.row then f l.row else l.row;
    named = find-update_stable (otp_id id) q f (λ r. ap (λ n. n == id) (same r)) os l.row l.named;
    life = step_if (q l.row) o l.row (f l.row) l.life (step l.row);
  }

  abbrev pub Lived : Db → Type 0
  Lived d = HasLived id o (otp_codes_of d)

  pub Lived-create : (arg : CreateOtpParams) → Preserves Lived (create_otp arg)
  Lived-create arg = record {
    at = λ t d a d' l h.
        let e = ap otp_codes_of (create-new_otp arg t d d' a h).1 in
        rw e (record {
          row = l.row;
          named = find-append (otp_id id) d.otp_codes (a ∷ []) l.row l.named;
          life = l.life;
        });
  }

  pub Lived-consume : (i : ℕ) → Preserves Lived (consume_otp i)
  unfolding consume_otp
  Lived-consume i = record {
    at = λ t d a d' l h.
        let e : d'.otp_codes ≡ update_where (otp_id i) (consume t) d.otp_codes = cc h in
        rw e (update-HasLived (otp_id i) (consume t) (λ r. refl) (λ r. consumed t) d.otp_codes l);
  }

  pub Lived-invalidate :
      (p : ℕ) (dest purpose : Text) → Preserves Lived (invalidate_active_otps p dest purpose)
  unfolding invalidate_active_otps
  Lived-invalidate p dest purpose = record {
    at = λ t d a d' l h.
        let active = λ (r : OtpCode). same_request p dest purpose r && is_null r.consumed_at in
        let e : d'.otp_codes ≡ update_where active (consume t) d.otp_codes = cc h in
        rw e (update-HasLived active (consume t) (λ r. refl) (λ r. consumed t) d.otp_codes l);
  }

  incremented :
      (i : ℕ) (t : Stamp) (d d' : Db) (n : ℕ)
      → increment_otp_attempts i t d ≡ ok (n, d')
      → d'.otp_codes ≡ update_where (otp_id i) attempt_more d.otp_codes
  unfolding increment_otp_attempts
  incremented i t d d' n h = elim (Option-cases (find (otp_id i) d.otp_codes)) [
    | inl absent ↦ cc (rw (absent, increment_otp_attempts) at h)
    | inr (row, f) ↦ ground arith
  ]

  pub Lived-increment : (i : ℕ) → Preserves Lived (increment_otp_attempts i)
  Lived-increment i = record {
    at = λ t d a d' l h.
        rw (incremented i t d d' a h)
          (update-HasLived (otp_id i) attempt_more (λ r. refl) (λ r. missed) d.otp_codes l);
  }
