-- ===== src/Auth/OtpVerify/Lockout.antt =====
-- Five wrong codes end a record: guessing stops there.
use mathlib.Core.Path.{subst}
use sauth.Prelude.{
  ℕ, ◌+◌, ◌≤◌, ◌≡◌, ◌≢◌, refl, true, false, none, some, List, [], ◌∷◌, ap, arith, leb, length,
  Bool-cases, inl, inr, ◌⊎◌, sym, ◌∙◌,
}
use sauth.Text.{Text, trim_space}
use sauth.Errors.{ok, err, otp_invalid, otp_too_many_attempts}
use sauth.Env.{Env}
use sauth.Db.{Db, OtpCode}
use sauth.Db.Table.{find, update_where, is_null}
use sauth.Db.Otp.{otp_id, consume, attempt_more}
use sauth.Db.Otp.Laws.{find-update}
use sauth.Otp
use sauth.Exec.{World}
use sauth.Exec.Runs.{IsHealthy, Runs-bind, Runs-raise, Runs-rejected}
use sauth.Auth.{Result}
use sauth.Auth.OtpRequest.{otp_max_attempts}
use sauth.Auth.OtpVerify.{verify_otp, is_foreign_or_used, is_expired, is_locked, lock}
use sauth.Auth.OtpVerify.Success.{verify-admits}
use sauth.Auth.OtpVerify.Attempts.{missed, found-Runs, fresh-Runs, consumed-Runs, verify-counts}

-- A request to verify a code: when it comes, and the code.
pub record Guess : Type 0 where
  pub time : ℕ
  pub code : Text

-- The row of `id` is that of `o`, and consumed or with at least `k` wrong attempts.
pub record IsWorn (id : ℕ) (o : OtpCode) (k : ℕ) (d : Db) : Type 0 where
  pub row : OtpCode
  pub named : find (otp_id id) d.otp_codes ≡ some row
  pub project : row.project_id ≡ o.project_id
  pub hash : row.code_hash ≡ o.code_hash
  pub expiry : row.expires_at ≡ o.expires_at
  pub worn : (is_null row.consumed_at ≡ false) ⊎ (k ≤ row.attempts)

module _ (env : Env) (healthy : IsHealthy env) (otp_id_text : Text) (id : ℕ)
    (parsed : env.parse_uuid (trim_space otp_id_text) ≡ some id) (o : OtpCode) where
  -- The world after the guesses, one after the other, for the project of the record.
  abbrev pub guessed : List Guess → World → World
  guessed [] w = w
  guessed (g ∷ gs) w =
      guessed gs (verify_otp env o.project_id otp_id_text g.code (record w { now = g.time })).1

  -- Wrong codes, while the record lives.
  abbrev pub AreWrong : List Guess → Type 0
  AreWrong [] = Unit
  AreWrong (g ∷ gs) =
      (Otp.equal env (trim_space g.code) o.code_hash ≡ false)
      × (g.time ≤ o.expires_at)
      × AreWrong gs

  consumed-IsWorn :
      (k k' t : ℕ) (d : Db) (a : IsWorn id o k d)
      → IsWorn id o k' (record d {
        otp_codes = update_where (otp_id id) (consume (record { uuid = 0; now = t })) d.otp_codes;
      })
  consumed-IsWorn k k' t d a = record {
    row = consume (record { uuid = 0; now = t }) a.row;
    named =
        find-update id (consume (record { uuid = 0; now = t })) d.otp_codes a.row (λ x. refl)
          a.named;
    project = a.project;
    hash = a.hash;
    expiry = a.expiry;
    worn = inl refl;
  }

  counted-IsWorn :
      (k : ℕ) (d : Db) (a : IsWorn id o k d)
      → k ≤ a.row.attempts
      → IsWorn id o
          (k + 1)
          (record d { otp_codes = update_where (otp_id id) attempt_more d.otp_codes })
  counted-IsWorn k d a few = record {
    row = attempt_more a.row;
    named = find-update id attempt_more d.otp_codes a.row (λ x. refl) a.named;
    project = a.project;
    hash = a.hash;
    expiry = a.expiry;
    worn = inr (omega (arith, few));
  }

  missed-IsWorn :
      (k t : ℕ) (d : Db) (a : IsWorn id o k d)
      → k ≤ a.row.attempts
      → IsWorn id o (k + 1) (record d { otp_codes = missed id a.row.attempts t d.otp_codes })
  missed-IsWorn k t d a few = elim (Bool-cases (leb otp_max_attempts (a.row.attempts + 1))) [
    | inl last ↦ rw last (consumed-IsWorn (k + 1) (k + 1) t _ (counted-IsWorn k d a few))
    | inr more ↦ rw more (counted-IsWorn k d a few)
  ]

  dead-IsWorn :
      (k : ℕ) (code : Text) (w : World) (a : IsWorn id o k w.db)
      → is_null a.row.consumed_at ≡ false
      → IsWorn id o (k + 1) (verify_otp env o.project_id otp_id_text code w).1.db
  dead-IsWorn k code w a used =
      let run =
        found-Runs env healthy o.project_id otp_id_text code id w a.row _ _ parsed a.named (
          Runs-rejected (is_foreign_or_used env o.project_id a.row) otp_invalid _ (ground arith)) in
      rw run.at (record {
        row = a.row;
        named = a.named;
        project = a.project;
        hash = a.hash;
        expiry = a.expiry;
        worn = inl used;
      })

  locked-IsWorn :
      (k : ℕ) (code : Text) (w : World) (a : IsWorn id o k w.db)
      → is_foreign_or_used env o.project_id a.row ≡ false
      → is_expired env w.now a.row ≡ false
      → is_locked env a.row ≡ true
      → IsWorn id o (k + 1) (verify_otp env o.project_id otp_id_text code w).1.db
  unfolding lock
  locked-IsWorn k code w a own fresh locked =
      let run =
        found-Runs env healthy o.project_id otp_id_text code id w a.row (err otp_too_many_attempts)
          _ parsed a.named
          (fresh-Runs env healthy id o.project_id (trim_space code) a.row _ _ _ own fresh
            (λ _. Runs-bind _ (consumed-Runs env healthy id _) Runs-raise) (λ l. cc (l, locked))) in
      rw run.at (consumed-IsWorn k (k + 1) w.now w.db a)

  live-IsWorn :
      (k : ℕ) (code : Text) (w : World) (a : IsWorn id o k w.db)
      → Otp.equal env (trim_space code) o.code_hash ≡ false
      → w.now ≤ o.expires_at
      → is_null a.row.consumed_at ≡ true
      → k ≤ a.row.attempts
      → IsWorn id o (k + 1) (verify_otp env o.project_id otp_id_text code w).1.db
  live-IsWorn k code w a wrong fresh unused few =
      let own : is_foreign_or_used env o.project_id a.row ≡ false =
        ground (arith, a.project, unused) in
      let alive : is_expired env w.now a.row ≡ false = ground (arith, a.expiry) in
      elim (Bool-cases (is_locked env a.row)) [
        | inl locked ↦ locked-IsWorn k code w a own alive locked
        | inr unlocked ↦
            let (_, counted) =
              verify-counts env healthy o.project_id otp_id_text code id w a.row parsed a.named own
                alive (ground arith) (ap (Otp.equal env (trim_space code)) a.hash ∙ wrong) in
            rw counted (missed-IsWorn k w.now w.db a few)
      ]

  -- One wrong guess.
  guess-IsWorn :
      (k : ℕ) (code : Text) (w : World) (a : IsWorn id o k w.db)
      → Otp.equal env (trim_space code) o.code_hash ≡ false
      → w.now ≤ o.expires_at
      → IsWorn id o (k + 1) (verify_otp env o.project_id otp_id_text code w).1.db
  guess-IsWorn k code w a wrong fresh = elim (Bool-cases (is_null a.row.consumed_at)) [
    | inr used ↦ dead-IsWorn k code w a used
    | inl unused ↦
        live-IsWorn k code w a wrong fresh unused
          (elim a.worn [ inl used ↦ cc (unused, used) | inr few ↦ few ])
  ]

  guessed-IsWorn :
      (gs : List Guess) (k : ℕ) (w : World)
      → AreWrong gs
      → IsWorn id o k w.db
      → IsWorn id o (length gs + k) (guessed gs w).db
  guessed-IsWorn [] k w h a = subst (λ n. IsWorn id o n w.db) (omega arith) a
  guessed-IsWorn (g ∷ gs) k w (wrong, fresh, more) a =
      let next = guess-IsWorn k g.code (record w { now = g.time }) a wrong fresh in
      subst (λ n. IsWorn id o n (guessed (g ∷ gs) w).db) (omega arith)
        (guessed-IsWorn gs (k + 1) _ more next)

  spent_clash :
      (gs : List Guess) (w : World) (i : ℕ) (row : OtpCode)
      → IsWorn id o (length gs + 0) (guessed gs w).db
      → 5 ≤ length gs
      → i ≡ id
      → find (otp_id i) (guessed gs w).db.otp_codes ≡ some row
      → row.consumed_at ≡ none
      → 5 ≤ row.attempts
  spent_clash gs w i row a five same f unused =
      let a_row : some row ≡ some a.row =
        sym f ∙ ap (λ k. find (otp_id k) (guessed gs w).db.otp_codes) same ∙ a.named in
      elim a.worn [ inl used ↦ ground (arith, a_row) | inr few ↦ ground (arith, a_row) ]

  -- When no call fails: after five or more wrong codes for a record, each sent before its expiry, no
  -- code at all gives tokens under that id, the right one included, for whatever project and at
  -- whatever time.
  pub guessing_ends :
      (gs : List Guess) (w : World)
      → find (otp_id id) w.db.otp_codes ≡ some o
      → AreWrong gs
      → 5 ≤ length gs
      → (project_id : ℕ) (code : Text) (t : ℕ) (res : Result)
      → (verify_otp env project_id otp_id_text code (record (guessed gs w) { now = t })).0 ≢ ok res
  guessing_ends gs w f wrong five project_id code t res h =
      let start : IsWorn id o 0 w.db = record {
        row = o;
        named = f;
        project = refl;
        hash = refl;
        expiry = refl;
        worn = inr (omega arith);
      } in
      let a = guessed-IsWorn gs 0 w wrong start in
      let u = record (guessed gs w) { now = t } in
      let v = (verify_otp env project_id otp_id_text code u).1 in
      let b = verify-admits env project_id otp_id_text code u v res (ap (λ r. (r, v)) h) in
      let enough =
        spent_clash gs w b.id b.code_row a five (cc (b.parsed, parsed)) b.named b.unconsumed in
      omega (arith, enough, b.unlocked)
