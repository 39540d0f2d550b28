-- ===== src/Config.antt =====
-- Load of backend/internal/config/config.go. The process environment is the argument `getenv`
-- (os.Getenv, after the optional .env file); time.ParseDuration and the base64 of the standard
-- library are arguments.
pub mod Sound
use sauth.Prelude.{
  ℕ, ◌*◌, Bool, not, Option, none, some, List, [], length, ltb, ◌==◌, if◌then◌else◌,
}
use sauth.Text.{Text, lit, text_eq, len}

-- A duration in nanoseconds; it may be negative.
pub data Duration : Type 0 where
  forward : ℕ → Duration
  backward : ℕ → Duration

abbrev pub minutes : ℕ → Duration
minutes n = forward (n * 60 * 1_000_000_000)

pub record Config : Type 0 where
  pub http_addr : Text
  pub env : Text
  pub database_url : Text
  pub public_base_url : Text
  pub jwt_secret : Text
  pub jwt_issuer : Text
  pub access_token_ttl : Duration
  pub refresh_token_ttl : Duration
  pub encryption_key : List ℕ

-- The errors of Load, by what their messages name.
pub data LoadError : Type 0 where
  database_url_required : LoadError
  secret_too_short : ℕ → LoadError
  bad_duration : Text → LoadError
  key_not_base64 : LoadError
  key_wrong_length : ℕ → LoadError

pub data Loaded (A : Type 0) : Type 0 where
  loaded : A → Loaded A
  refused : LoadError → Loaded A

infixl 5 ◌>>=◌
-- if err != nil { return nil, err }, before the rest
abbrev pub ◌>>=◌ : {A B : Type 0} → Loaded A → (A → Loaded B) → Loaded B
loaded a >>= f = f a
refused e >>= f = refused e

-- What config.go is given.
pub record Process : Type 0 where
  pub getenv : Text → Text
  pub parse_duration : Text → Option Duration
  pub base64_decode : Text → Option (List ℕ)

module _ (os : Process) where
  unfoldable pub env_or : Text → Text → Text
  env_or key fallback = let v = os.getenv key in if not (text_eq v []) then v else fallback

  abbrev pub parsed : Text → Option Duration → Loaded Duration
  parsed key none = refused (bad_duration key)
  parsed key (some d) = loaded d

  unfoldable pub env_duration : Text → Duration → Loaded Duration
  env_duration key fallback =
      let v = os.getenv key in
      if text_eq v [] then loaded fallback else parsed key (os.parse_duration v)

  abbrev pub decoded_key : Option (List ℕ) → Loaded (List ℕ)
  decoded_key none = refused key_not_base64
  decoded_key (some key) =
      if not (length key == 32) then refused (key_wrong_length (length key)) else loaded key

  -- The key is optional.
  unfoldable pub load_key : Loaded (List ℕ)
  load_key =
      let enc = os.getenv (lit "SAUTH_ENCRYPTION_KEY") in
      if not (text_eq enc []) then decoded_key (os.base64_decode enc) else loaded []

  unfoldable pub load_rest : Text → Loaded Config
  load_rest secret = do
    access ← env_duration (lit "SAUTH_ACCESS_TOKEN_TTL") (minutes 15)
    renewal ← env_duration (lit "SAUTH_REFRESH_TOKEN_TTL") (minutes 43_200)
    key ← load_key
    loaded (record {
      http_addr = env_or (lit "SAUTH_HTTP_ADDR") (lit ":8080");
      env = env_or (lit "SAUTH_ENV") (lit "development");
      database_url = os.getenv (lit "SAUTH_DATABASE_URL");
      public_base_url = env_or (lit "SAUTH_PUBLIC_BASE_URL") (lit "http://localhost:8080");
      jwt_secret = secret;
      jwt_issuer = env_or (lit "SAUTH_JWT_ISSUER") (lit "sauth");
      access_token_ttl = access;
      refresh_token_ttl = renewal;
      encryption_key = key;
    })

  unfoldable pub load : Loaded Config
  load =
      let secret = os.getenv (lit "SAUTH_JWT_SECRET") in
      if text_eq (os.getenv (lit "SAUTH_DATABASE_URL")) []
      then refused database_url_required
      else if ltb (len secret) 32
      then refused (secret_too_short (len secret))
      else load_rest secret

unfoldable pub is_production : Config → Bool
is_production c = text_eq c.env (lit "production")
