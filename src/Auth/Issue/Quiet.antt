-- ===== src/Auth/Issue/Quiet.antt =====
-- Minting and issuing run inside the caller's transaction.
use sauth.Env.{Env}
use sauth.Db.{User}
use sauth.Exec.Atomic.{IsQuiet, IsQuiet-bind, quiet_rules}
use sauth.Token.{issue_access, new_refresh_token}
use sauth.Auth.Issue.{mint_access, issue}

module _ (env : Env) where
  pub mint_access-IsQuiet : (user : User) → IsQuiet (mint_access env user)
  unfolding mint_access issue_access
  mint_access-IsQuiet user = search quiet_rules depth 12

  pub new_refresh_token-IsQuiet : IsQuiet (new_refresh_token env)
  unfolding new_refresh_token
  new_refresh_token-IsQuiet = search quiet_rules depth 12

  pub issue-IsQuiet : (user : User) → IsQuiet (issue env user)
  unfolding issue
  issue-IsQuiet user =
      IsQuiet-bind _ _ (mint_access-IsQuiet user)
        λ minted. IsQuiet-bind _ _ new_refresh_token-IsQuiet λ t. search quiet_rules depth 12
