-- ===== src/Auth/OtpVerify/Profile.antt =====
-- The profile that a signup by e-mail code returns.
use mathlib.Core.Path.{subst}
use sauth.Prelude.{
  ℕ, ◌≡◌, ◌∙◌, sym, ap, refl, Bool, true, false, ◌&&◌, ◌==◌, Option, none, some, List, [], ◌∷◌,
  ◌++◌, arith, ==_refl,
}
use sauth.Text.{Text, text_eq, trim_space}
use sauth.Text.Laws.{text_eq_iff}
use sauth.Errors.{ok}
use sauth.Env.{Env, email}
use sauth.Db.{Db, User, Role, OtpCode}
use sauth.Db.Table.{exists, find, update_where}
use sauth.Db.Rbac.Laws.{attached_role}
use sauth.Db.Otp.{otp_id}
use sauth.Exec.{World}
use sauth.Auth.{Result, UserDto, to_user_dto}
use sauth.Auth.Destination.{classify_destination}
use sauth.Auth.OtpRequest.{signup_purpose, login_purpose}
use sauth.Auth.OtpVerify.{verify_otp}
use sauth.Auth.OtpVerify.Resolve.{IsResolved, known, registered, marked}
use sauth.Auth.OtpVerify.Success.{verify-admits}

-- A user of the rows has the id, and a verified address.
abbrev pub is_verified : ℕ → User → Bool
is_verified id u = u.id == id && u.email_verified

users-attached :
    (user project : ℕ) (r : Option Role) (d : Db) → (attached_role user project r d).users ≡ d.users
users-attached user project none d = refl
users-attached user project (some r) d = ground arith

users-marked :
    (user : User) (t : ℕ) (d : Db)
    → user.email_verified ≡ false
    → (marked email user t d).users
      ≡ update_where
          (λ (u : User). u.id == user.id)
          (λ (u : User). record u { email_verified = true; updated_at = t })
          d.users
users-marked user t d unset = rw unset refl

same_row :
    (os : List OtpCode) (i j : ℕ) (o o' : OtpCode)
    → i ≡ j
    → find (otp_id i) os ≡ some o
    → find (otp_id j) os ≡ some o'
    → o ≡ o'
same_row os i j o o' e f g = cc (sym f ∙ ap (λ k. find (otp_id k) os) e ∙ g)

-- The mark reaches the row that was added last.
marked-last :
    (t : ℕ) (us : List User) (user : User)
    → exists (is_verified user.id) (
        update_where
          (λ (u : User). u.id == user.id)
          (λ (u : User). record u { email_verified = true; updated_at = t })
          (us ++ user ∷ []))
      ≡ true
unfolding exists update_where
marked-last t [] user = ground (arith, ==_refl user.id)
marked-last t (u ∷ us) user = ground (arith, marked-last t us user)

not_both :
    (p : Text)
    → text_eq p login_purpose ≡ true
    → text_eq p signup_purpose ≡ true
    → text_eq login_purpose signup_purpose ≡ true
not_both p l s = subst (λ q. text_eq q signup_purpose ≡ true) ((text_eq_iff p login_purpose).0 l) s

distinct_purposes : text_eq login_purpose signup_purpose ≡ false
unfolding text_eq
distinct_purposes = refl

module _ (env : Env) where
  -- What the answer says of the new user, and what the database says.
  pub record IsStale (res : Result) (after : Db) : Type 0 where
    pub user : User
    pub profile : res.user.id ≡ env.uuid_string user.id
    pub answered : res.user.email_verified ≡ false
    pub stored : exists (is_verified user.id) after.users ≡ true

  resolved-stale :
      (p : ℕ) (purpose dest : Text) (t : ℕ) (d d' : Db) (user : User)
      → text_eq purpose signup_purpose ≡ true
      → IsResolved env p purpose email dest t d user d'
      → (user.email_verified ≡ false) × (exists (is_verified user.id) d'.users ≡ true)
  resolved-stale p purpose dest t d d' user signs (known l f a e) =
      cc (not_both purpose l signs, distinct_purposes)
  resolved-stale p purpose dest t d d' user signs (registered _ f s with_user at i e) =
      let unset : user.email_verified ≡ false = ap (λ (u : User). u.email_verified) i.row in
      let users : with_user.users ≡ d.users ++ user ∷ [] = ap (λ (b : Db). b.users) i.added in
      let after : d'.users
          ≡ update_where (λ (u : User). u.id == user.id)
              (λ (u : User). record u { email_verified = true; updated_at = t })
              (d.users ++ user ∷ []) =
        ap (λ (b : Db). b.users) e
        ∙ users-attached user.id p _ _
        ∙ users-marked user t with_user unset
        ∙ ap
            (update_where (λ (u : User). u.id == user.id)
              (λ (u : User). record u { email_verified = true; updated_at = t }))
            users in
      (unset, rw after (marked-last t d.users user))

  -- After a signup by a code that was sent to an e-mail address, the profile in the answer says that
  -- the address is not verified, while the row of the user in the database says that it is.
  pub verify-IsStale :
      (project_id : ℕ) (otp_id_text code : Text) (id : ℕ) (o : OtpCode) (dest : Text) (w v : World)
      (res : Result)
      → env.parse_uuid (trim_space otp_id_text) ≡ some id
      → find (otp_id id) w.db.otp_codes ≡ some o
      → text_eq o.purpose signup_purpose ≡ true
      → classify_destination env o.destination ≡ ok (email, dest)
      → verify_otp env project_id otp_id_text code w ≡ (ok res, v)
      → IsStale res v.db
  unfolding to_user_dto
  verify-IsStale project_id otp_id_text code id o dest w v res parsed named signs mail h =
      let a = verify-admits env project_id otp_id_text code w v res h in
      let same : a.code_row ≡ o =
        same_row w.db.otp_codes a.id id a.code_row o (cc (a.parsed, parsed)) a.named named in
      let channel : a.channel ≡ email =
        cc (
          a.destination,
          ap (λ (x : OtpCode). classify_destination env x.destination) same,
          mail,
        ) in
      let (unset, set) =
        resolved-stale project_id o.purpose a.dest w.now a.consumed a.settled a.user signs (
          subst
            (λ c. IsResolved env project_id o.purpose c a.dest w.now a.consumed a.user a.settled)
            channel
            (subst
              (λ (x : OtpCode).
                IsResolved env project_id x.purpose a.channel a.dest w.now a.consumed a.user
                  a.settled)
              same a.resolved)) in
      record {
        user = a.user;
        profile = ap (λ (u : UserDto). u.id) a.issued.profile;
        answered = ap (λ (u : UserDto). u.email_verified) a.issued.profile ∙ unset;
        stored =
            subst (λ us. exists (is_verified a.user.id) us ≡ true)
              (sym (ap (λ (b : Db). b.users) a.issued.added)) set;
      }
