-- ===== src/Tests/Settings.antt =====
-- A configuration from the environment of a process.
use sauth.Prelude.{◌≡◌, refl, some, none, [], if◌then◌else◌}
use sauth.Text.{Text, lit, text_eq}
use sauth.Text
use sauth.Config
use sauth.Config.{Process, Config, forward, loaded, load}
use sauth.Config.Sound.{IsSound, load-IsSound}

abbrev os : Process
os = record {
  getenv = λ key.
      if text_eq key (lit "SAUTH_DATABASE_URL")
      then lit "postgres://db"
      else if text_eq key (lit "SAUTH_JWT_SECRET")
      then lit "0123456789abcdef0123456789abcdef"
      else if text_eq key (lit "SAUTH_ACCESS_TOKEN_TTL")
      then lit "1us"
      else [];
  parse_duration = λ v. some (forward 1_000);
  base64_decode = λ v. none;
}

abbrev config : Config
config = record {
  http_addr = lit ":8080";
  env = lit "development";
  database_url = lit "postgres://db";
  public_base_url = lit "http://localhost:8080";
  jwt_secret = lit "0123456789abcdef0123456789abcdef";
  jwt_issuer = lit "sauth";
  access_token_ttl = forward 1_000;
  refresh_token_ttl = forward 2_592_000_000_000_000;
  encryption_key = [];
}

load_run : load os ≡ loaded config
unfolding Text.text_eq Text.len Text.rune_len Config.env_or Config.env_duration Config.load_key
    Config.load_rest Config.load
load_run = refl

load-IsSound_example : IsSound os config
load-IsSound_example = load-IsSound os config load_run
