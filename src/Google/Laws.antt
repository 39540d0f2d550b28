-- ===== src/Google/Laws.antt =====
-- What an exchange with Google that returns an identity was answered.
use sauth.Prelude.{ℕ, ◌≡◌, ◌≢◌, refl, some, none, [], arith, ◌==◌, not, ◌||◌, Option}
use sauth.Text.{Text, text_eq}
use sauth.Text.Laws.{not_empty}
use sauth.Env.{Env, GoogleConfig, Identity, Userinfo, UserinfoResponse}
use sauth.Google.{exchange, identity_of, tokened, responded, decoded, identified}
use sauth.Exec.{World}
use sauth.Exec.Laws.{Yields, Yields-pure, Yields-raise, Yields-reject, Yields-bind, Yields-call}

module _ (env : Env) where
  -- Google's answer to `code` is a profile with an id and an address: the identity.
  pub record IsIdentified (cfg : GoogleConfig) (code : Text) (ident : Identity) : Type 0 where
    pub token : Text
    pub granted : env.google_token cfg code ≡ some token
    pub response : UserinfoResponse
    pub answered : env.google_userinfo token ≡ some response
    pub status : response.status ≡ 200
    pub profile : Userinfo
    pub body : response.body ≡ some profile
    pub has_id : profile.id ≢ []
    pub has_email : profile.email ≢ []
    pub is : ident ≡ identity_of profile

  identified-Yields :
      {Q : Identity → World → Type 0} (body : Userinfo) {w : World}
      → (body.id ≢ [] → body.email ≢ [] → Q (identity_of body) w)
      → Yields (identified body) w Q
  unfolding identified
  identified-Yields body q =
      Yields-reject (text_eq body.id [] || text_eq body.email []) _ λ h.
        Yields-pure (q (not_empty body.id (ground arith)) (not_empty body.email (ground arith)))

  decoded-Yields :
      {Q : Identity → World → Type 0} (o : Option Userinfo) {w : World}
      → ((body : Userinfo)
          → o ≡ some body
          → body.id ≢ []
          → body.email ≢ []
          → Q (identity_of body) w)
      → Yields (decoded o) w Q
  decoded-Yields none q = Yields-raise _
  decoded-Yields (some body) q = identified-Yields body (q body refl)

  responded-Yields :
      {Q : Identity → World → Type 0} (o : Option UserinfoResponse) {w : World}
      → ((resp : UserinfoResponse) (body : Userinfo)
          → o ≡ some resp
          → resp.status ≡ 200
          → resp.body ≡ some body
          → body.id ≢ []
          → body.email ≢ []
          → Q (identity_of body) w)
      → Yields (responded o) w Q
  responded-Yields none q = Yields-raise _
  responded-Yields (some resp) q =
      Yields-reject (not (resp.status == 200)) _
        λ h. decoded-Yields resp.body λ body b i e. q resp body refl (ground arith) b i e

  tokened-Yields :
      {Q : Identity → World → Type 0} (cfg : GoogleConfig) (code : Text) (o : Option Text)
      {w : World}
      → env.google_token cfg code ≡ o
      → ((ident : Identity)
          → IsIdentified cfg code ident
          → (n : ℕ) → Q ident (record w { calls = n }))
      → Yields (tokened env o) w Q
  tokened-Yields cfg code none g q = Yields-raise _
  tokened-Yields cfg code (some tok) {w} g q = Yields-bind (
      Yields-call env (
        responded-Yields (env.google_userinfo tok) λ resp body a s b i e.
          q (identity_of body)
            (record {
              token = tok;
              granted = g;
              response = resp;
              answered = a;
              status = s;
              profile = body;
              body = b;
              has_id = i;
              has_email = e;
              is = refl;
            })
            _))

  pub exchange-Yields :
      {Q : Identity → World → Type 0} (cfg : GoogleConfig) (code : Text) {w : World}
      → ((ident : Identity)
          → IsIdentified cfg code ident
          → (n : ℕ) → Q ident (record w { calls = n }))
      → Yields (exchange env cfg code) w Q
  unfolding exchange
  exchange-Yields cfg code q =
      Yields-bind (Yields-call env (tokened-Yields cfg code (env.google_token cfg code) refl q))
