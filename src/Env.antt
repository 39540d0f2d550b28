-- ===== src/Env.antt =====
-- What the program runs against: the code that is not in the repository, and the outside.
--
-- The `n`-th call that leaves the program (a statement, a random number, a signature, a request to
-- Google) fails if `fails n` says so, and `uuid n`, `random n k` and `random_code n` are what the
-- random sources would give it.
use sauth.Prelude.{ℕ, Bool, Option, List}
use sauth.Text.{Text}

-- Channel of backend/internal/notify/notify.go
pub data Channel : Type 0 where
  email sms : Channel

-- AccessClaims of backend/internal/token/token.go, with the fields of jwt.RegisteredClaims that
-- IssueAccess sets; the two dates are in seconds.
pub record AccessClaims : Type 0 where
  pub project_id : Text
  pub roles : List Text
  pub permissions : List Text
  pub subject : Text
  pub issuer : Text
  pub issued_at : ℕ
  pub expires_at : ℕ
  pub id : Text

-- Config of backend/internal/googleoauth/googleoauth.go
pub record GoogleConfig : Type 0 where
  pub client_id : Text
  pub client_secret : Text
  pub redirect_url : Text

-- Identity of backend/internal/googleoauth/googleoauth.go
pub record Identity : Type 0 where
  pub sub : Text
  pub email : Text
  pub email_verified : Bool
  pub name : Text

-- What url.Parse finds: the scheme, host:port, and Hostname().
pub record Url : Type 0 where
  pub scheme : Text
  pub host : Text
  pub hostname : Text

-- The body of Google's userinfo endpoint, as Exchange decodes it.
pub record Userinfo : Type 0 where
  pub id : Text
  pub email : Text
  pub verified_email : Bool
  pub name : Text

-- A response of that endpoint; the body is `none` if it is not such JSON.
pub record UserinfoResponse : Type 0 where
  pub status : ℕ
  pub body : Option Userinfo

-- What bcrypt.CompareHashAndPassword reports: nil, ErrMismatchedHashAndPassword, another error.
pub data Comparison : Type 0 where
  matches differs malformed : Comparison

pub record Env : Type 0 where
  pub fails : ℕ → Bool
  pub uuid : ℕ → ℕ
  -- base64.RawURLEncoding of `k` random bytes
  pub random : ℕ → ℕ → Text
  pub random_below : ℕ → ℕ → ℕ
  -- the order of names in the database, a ≤ b
  pub name_le : Text → Text → Bool
  -- unicode.ToLower beyond ASCII
  pub lower_rune : ℕ → ℕ
  -- mail.ParseAddress succeeds
  pub is_address : Text → Bool
  -- uuid.Parse, and UUID.String
  pub parse_uuid : Text → Option ℕ
  pub uuid_string : ℕ → Text
  -- the bytes of SHA-256, and of HMAC-SHA256 under the key that otp.NewHasher derives
  pub sha256 : Text → List ℕ
  pub otp_mac : Text → List ℕ
  -- bcrypt.GenerateFromPassword with the salt of the given call, and CompareHashAndPassword
  pub bcrypt : ℕ → Text → Text
  pub bcrypt_compare : Text → Text → Comparison
  -- an HS256 signature under the issuer's secret, and the claims of a token that verifies under it
  pub sign : AccessClaims → Text
  pub open_signed : Text → Option AccessClaims
  -- the issuer and the lifetimes of backend/internal/config/config.go
  pub issuer : Text
  pub access_ttl : ℕ
  pub refresh_ttl : ℕ
  -- notify.OTPSender fails
  pub sender_fails : ℕ → Bool
  -- simple Unicode case folding beyond ASCII
  pub fold_rune : ℕ → ℕ
  pub parse_url : Text → Option Url
  -- oauth2.Config: AuthCodeURL, and the access token that Exchange is given for a code
  pub auth_code_url : GoogleConfig → Text → Text
  pub google_token : GoogleConfig → Text → Option Text
  -- GET /oauth2/v2/userinfo with an access token
  pub google_userinfo : Text → Option UserinfoResponse
  -- a Provider is set
  pub has_google : Bool
  -- base64.StdEncoding
  pub base64_encode : List ℕ → Text
  pub base64_decode : Text → Option (List ℕ)
  -- AES-256-GCM: the random nonces, Seal and Open under a key and a nonce
  pub nonce : ℕ → List ℕ
  pub aead_seal : List ℕ → List ℕ → Text → List ℕ
  pub aead_open : List ℕ → List ℕ → List ℕ → Option Text
  -- more of backend/internal/config/config.go
  pub public_base_url : Text
  pub encryption_key : List ℕ
  -- appendQuery: url.Parse, then Query, Set, Encode and String; and url.QueryEscape
  pub set_query : Text → Text → Text → Option Text
  pub query_escape : Text → Text
