-- ===== src/Config/Sound.antt =====
-- What a configuration that is loaded promises the server.
use mathlib.Core.Path.{subst}
use sauth.Prelude.{
  ℕ, ◌≤◌, ◌≡◌, ◌≢◌, inl, inr, refl, Bool, true, false, not, Option, none, some, List, [], length,
  arith, ltb, ◌==◌, Bool-cases, if◌then◌else◌,
}
use sauth.Text.{Text, lit, text_eq, len}
use sauth.Text.Laws.{not_empty, text_eq_iff}
use sauth.SecretBox.{box_of, new}
use sauth.Config.{
  Process, Config, Loaded, loaded, refused, ◌>>=◌, env_or, env_duration, decoded_key, load_key,
  load_rest, load, minutes,
}

-- What a loaded value satisfies.
abbrev WhenLoaded : {A : Type 0} → (A → Type 0) → Loaded A → Type 0
WhenLoaded Q (loaded a) = Q a
WhenLoaded Q (refused e) = Unit

when_bound :
    {A B : Type 0} (Q : A → Type 0) (T : B → Type 0) (r : Loaded A) (f : A → Loaded B)
    → WhenLoaded Q r
    → ((a : A) → Q a → WhenLoaded T (f a))
    → WhenLoaded T (r >>= f)
when_bound Q T (loaded a) f q k = k a q
when_bound Q T (refused e) f q k = tt

when_always : {A : Type 0} (r : Loaded A) → WhenLoaded (λ a. Unit) r
when_always (loaded a) = tt
when_always (refused e) = tt

when_if :
    {A : Type 0} (Q : A → Type 0) (b : Bool) (r s : Loaded A)
    → (b ≡ true → WhenLoaded Q r)
    → (b ≡ false → WhenLoaded Q s)
    → WhenLoaded Q (if b then r else s)
when_if Q true r s k l = k refl
when_if Q false r s k l = l refl

-- The key of a configuration: none is set and there is none, or it has 32 bytes and makes a box.
pub data IsKey (set : Text) (key : List ℕ) : Type 0 where
  unset : set ≡ [] → key ≡ [] → box_of key ≡ none → IsKey set key
  fitting : set ≢ [] → box_of key ≡ some (record { key = key }) → IsKey set key

boxed : (key : List ℕ) → not (length key == 32) ≡ false → box_of key ≡ some (record { key = key })
unfolding box_of new
boxed key fits = let e : (length key == 32) ≡ true = ground arith in rw (e, box_of, new)

module _ (os : Process) where
  pub record IsSound (c : Config) : Type 0 where
    pub database : c.database_url ≢ []
    pub secret : 32 ≤ len c.jwt_secret
    pub issuer : c.jwt_issuer ≢ []
    pub base_url : c.public_base_url ≢ []
    pub key : IsKey (os.getenv (lit "SAUTH_ENCRYPTION_KEY")) c.encryption_key

  -- `fallback` is not empty.
  env_or_set : (key fallback : Text) → text_eq fallback [] ≡ false → env_or os key fallback ≢ []
  unfolding env_or
  env_or_set key fallback h = elim (Bool-cases (text_eq (os.getenv key) [])) [
    | inl e ↦ rw (e, env_or) (not_empty fallback h)
    | inr e ↦ rw (e, env_or) (not_empty (os.getenv key) e)
  ]

  decoded_fits :
      (set : Text) (o : Option (List ℕ)) → set ≢ [] → WhenLoaded (IsKey set) (decoded_key os o)
  unfolding box_of new
  decoded_fits set none given = tt
  decoded_fits set (some key) given =
      when_if (IsKey set) (not (length key == 32)) _ (loaded key) (λ _. tt)
        λ fits. fitting given (boxed key fits)

  load_key-IsKey : WhenLoaded (IsKey (os.getenv (lit "SAUTH_ENCRYPTION_KEY"))) (load_key os)
  unfolding load_key box_of
  load_key-IsKey =
      let set = os.getenv (lit "SAUTH_ENCRYPTION_KEY") in
      when_if (IsKey set) (not (text_eq set [])) _ (loaded [])
        (λ given. decoded_fits set (os.base64_decode set) (not_empty set (ground (arith, given))))
        λ absent. unset ((text_eq_iff set []).0 (ground (arith, absent))) refl refl

  rest-IsSound :
      (secret : Text)
      → os.getenv (lit "SAUTH_DATABASE_URL") ≢ []
      → 32 ≤ len secret
      → WhenLoaded IsSound (load_rest os secret)
  unfolding load_rest text_eq
  rest-IsSound secret database long =
      when_bound (λ _. Unit) IsSound (env_duration os (lit "SAUTH_ACCESS_TOKEN_TTL") (minutes 15)) _
        (when_always _)
        λ access _.
          when_bound (λ _. Unit) IsSound
            (env_duration os (lit "SAUTH_REFRESH_TOKEN_TTL") (minutes 43_200)) _ (when_always _)
            λ renewal _.
              when_bound (IsKey (os.getenv (lit "SAUTH_ENCRYPTION_KEY"))) IsSound (load_key os) _
                load_key-IsKey
                λ key fits. record {
                  database = database;
                  secret = long;
                  issuer = env_or_set (lit "SAUTH_JWT_ISSUER") (lit "sauth") refl;
                  base_url =
                      env_or_set (lit "SAUTH_PUBLIC_BASE_URL") (lit "http://localhost:8080") refl;
                  key = fits;
                }

  loading-IsSound : WhenLoaded IsSound (load os)
  unfolding load
  loading-IsSound =
      let secret = os.getenv (lit "SAUTH_JWT_SECRET") in
      when_if IsSound (text_eq (os.getenv (lit "SAUTH_DATABASE_URL")) []) _ _ (λ _. tt)
        λ given.
          when_if IsSound (ltb (len secret) 32) _ _ (λ _. tt)
            λ long. rest-IsSound secret (not_empty _ given) (ground arith)

  -- A configuration that is loaded has a database, an issuer and a base URL, a signing secret of at least
  -- 32 bytes, and either no encryption key and no box, since none is set, or a key from which the
  -- server makes its box: what NewServer ignores the error of cannot fail.
  pub load-IsSound : (c : Config) → load os ≡ loaded c → IsSound c
  load-IsSound c h = subst (WhenLoaded IsSound) h loading-IsSound
