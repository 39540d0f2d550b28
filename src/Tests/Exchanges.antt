-- ===== src/Tests/Exchanges.antt =====
-- Exchanging a code.
use sauth.Prelude.{◌≡◌, refl, none, [], ◌∷◌}
use sauth.Text.{Text, lit}
use sauth.Errors.{ok}
use sauth.Text
use sauth.Db.Table
use sauth.Exec
use sauth.Text.Hex
use sauth.Token
use sauth.Auth
use sauth.Auth.Issue
use sauth.Db.Rbac
use sauth.Db.Sessions
use sauth.Db.Users
use sauth.Db.Oauth
use sauth.Auth.Exchange
use sauth.Db.{AuthExchangeCode}
use sauth.Token.{hash_refresh_token}
use sauth.Exec.{World}
use sauth.Auth.{Result}
use sauth.Auth.Exchange.{exchange_auth_code}
use sauth.Auth.Exchange.Success.{IsExchanged, exchange-admits}
use sauth.Tests.{env, result, nobody}
use sauth.Tests.Refreshes.{before}

abbrev pub code : AuthExchangeCode
code = record {
  code_hash = hash_refresh_token env (lit "c");
  user_id = 7;
  project_id = 1;
  created_at = 0;
  expires_at = 1_050_000_000;
  consumed_at = none;
}

abbrev coming : World
coming = record before { db = record before.db { auth_exchange_codes = code ∷ [] } }

abbrev arrived : World
arrived = (exchange_auth_code env 1 (lit "c") coming).1

abbrev arrived_result : Result
arrived_result = result (exchange_auth_code env 1 (lit "c") coming).0 nobody

exchange_run : exchange_auth_code env 1 (lit "c") coming ≡ (ok arrived_result, arrived)
unfolding Text.text_eq Text.trim_left Text.trim_right Text.trim_space Text.is_space Text.contains
    Text.to_lower Text.to_lower_rune Text.len Text.rune_len Text.has_prefix Table.find Table.exists
    Table.update_where Table.rows_where Table.join Table.insert_sorted Table.order_by Table.distinct
    Exec.reject_if Exec.◌>>=◌ Exec.call Exec.query Exec.begin Exec.commit Exec.rollback
    Exec.deferred Exec.in_tx Hex.hex_encode Token.hash_refresh_token Token.new_refresh_token
    Token.issue_access Auth.to_user_dto Issue.mint_access Issue.issue Rbac.permission_names
    Rbac.role_names Rbac.get_user_permission_names Rbac.get_user_role_names Sessions.create_session
    Users.get_user_by_id_only Oauth.take_auth_exchange_code Exchange.exchange_in_tx
    Exchange.exchange_auth_code
exchange_run = refl

exchange-admits_example :
    IsExchanged env 1
      (hash_refresh_token env (lit "c"))
      1_000_000_000
      coming.db
      arrived_result
      arrived.db
exchange-admits_example = exchange-admits env 1 (lit "c") coming arrived arrived_result exchange_run
