-- ===== src/Tests.antt =====
-- Runs of the flows on a small database: the environment and the worlds of the tests.
pub mod Passwords
pub mod Refreshes
pub mod Codes
pub mod Values
pub mod Endings
pub mod Exchanges
pub mod Refusals
pub mod SignIns
pub mod Web
pub mod Answers
pub mod Lives
pub mod Settings
pub mod Successes
use sauth.Prelude.{
  ℕ, zero, suc, ◌+◌, ◌%◌, Bool, true, false, Option, none, some, List, [], ◌∷◌, map, replicate,
  if◌then◌else◌,
}
use sauth.Text.{Text, lit, text_eq, contains}
use sauth.Errors.{Err, Outcome, ok, err}
use sauth.Env.{Env, Comparison, matches, differs, malformed, AccessClaims, Url}
use sauth.Db.{Db, Project, Role}
use sauth.Exec.{World}
use sauth.Auth.{Result}
use sauth.Auth.Signup.{SignupInput}

abbrev one_rune : Text → Option ℕ
one_rune (c ∷ []) = some c
one_rune _ = none

abbrev compare_hash : Text → Text → Comparison
compare_hash [] plain = malformed
compare_hash (salt ∷ hash) plain = if text_eq hash plain then matches else differs

-- The scheme is one rune, the host what follows.
abbrev split_url : Text → Option Url
split_url [] = none
split_url (c ∷ s) = some (record { scheme = c ∷ []; host = s; hostname = s })

-- Nothing fails. A hash is the text itself, a token the number of the call that drew it.
abbrev pub env : Env
env = record {
  fails = λ n. false;
  uuid = λ n. 1000 + n;
  random = λ n k. 114 ∷ (100 + n) ∷ [];
  random_below = λ n bound. n % bound;
  name_le = λ a b. true;
  lower_rune = λ c. c;
  is_address = contains 64;
  parse_uuid = one_rune;
  uuid_string = λ n. n ∷ [];
  sha256 = λ t. t;
  otp_mac = map (λ c. c % 256);
  bcrypt = λ n plain. n ∷ plain;
  bcrypt_compare = compare_hash;
  sign = λ c. c.subject;
  open_signed = λ t. none;
  issuer = lit "sauth";
  access_ttl = 900_000_000;
  refresh_ttl = 86_400_000_000;
  sender_fails = λ n. false;
  fold_rune = λ c. c;
  parse_url = split_url;
  auth_code_url = λ cfg state. state;
  google_token = λ cfg code. if text_eq code [] then none else some code;
  google_userinfo = λ t. some (record {
    status = 200;
    body = some (record { id = t; email = lit "Bo@x.io"; verified_email = true; name = lit "Bo" });
  });
  has_google = true;
  base64_encode = λ t. t;
  base64_decode = λ t. some t;
  nonce = λ n. replicate 12 n;
  aead_seal = λ k n t. t;
  aead_open = λ k n t. some t;
  set_query = λ base key value. none;
  query_escape = λ t. t;
  public_base_url = lit "https://id.x.io/";
  encryption_key = replicate 32 7;
}

abbrev pub project : Project
project = record {
  id = 1;
  org_id = 2;
  name = lit "shop";
  environment = lit "live";
  api_key = lit "key";
  api_secret_hash = [];
  allowed_origins = [];
  otp_enabled = true;
  google_oauth_client_id = none;
  google_oauth_client_secret_enc = none;
  google_oauth_redirect_uri = none;
  access_token_ttl_seconds = 900;
  refresh_token_ttl_seconds = 86_400;
  created_at = 0;
  updated_at = 0;
}

abbrev member : Role
member = record {
  id = 5;
  project_id = 1;
  name = lit "member";
  description = none;
  is_default = true;
  created_at = 0;
}

abbrev pub start_db : Db
start_db = record {
  projects = project ∷ [];
  users = [];
  sessions = [];
  refresh_token_history = [];
  otp_codes = [];
  roles = member ∷ [];
  permissions = [];
  role_permissions = [];
  user_roles = [];
  oauth_accounts = [];
  oauth_states = [];
  auth_exchange_codes = [];
}

abbrev pub start : World
start = record { db = start_db; saved = none; now = 1_000_000_000; calls = 0; sent = [] }

-- The result of a run that succeeds, or another value.
abbrev pub result {ℓ} : {A : Type ℓ} → Outcome A → A → A
result (ok a) other = a
result (err e) other = other

abbrev pub nobody : Result
nobody = record {
  access_token = [];
  refresh_token = [];
  token_type = [];
  expires_in = 0;
  user = record {
    id = [];
    email = none;
    username = none;
    phone = none;
    email_verified = false;
    roles = [];
    created_at = 0;
  };
}
