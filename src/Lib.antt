-- ===== src/Lib.antt =====
-- A model of SAuth, the authentication service under backend/, and the theorems that make it correct.
--
-- The program's parts. backend/internal/httpapi decodes a request and calls one method of the service
-- of backend/internal/auth. A method runs statements of backend/internal/db on PostgreSQL, most of
-- them in one transaction, hashes with backend/internal/password, backend/internal/token and
-- backend/internal/otp, and answers with an access token, a refresh token and a profile.
--
-- Which file models what.
--   Text            Go strings and the functions of the package strings; Text/Hex is encoding/hex
--   Errors          backend/internal/auth/errors.go and the errors of the driver; Outcome is (T, error)
--   Env             what is outside the repository, as one record of functions
--   Db              backend/internal/db/models.go: one record per row, and Db, the tables
--   Db/Users        users.sql.go and projects.sql.go of backend/internal/db; so Db/Sessions, Db/Rbac,
--                   Db/Otp and Db/Oauth: a statement is a function from the tables to an answer and
--                   the new tables, and is named as the query is (create_user is CreateUser)
--   Exec            how a method runs: the world (tables, open transaction, time, number of the next
--                   call, codes handed to the sender) is passed on; begin, commit and the deferred
--                   Rollback are those of pgx
--   Db/Kept         what a property of the tables needs for every request to keep it; Db/Otp/Life and
--                   Db/Sessions/Life say what may happen to one row, as step relations
--   Password, Token, Otp, SecretBox, Google, Config   the packages of these names under
--                   backend/internal (Google is googleoauth)
--   Auth            backend/internal/auth/dto.go; Auth/Issue is issue, mintAccess and Me, Auth/Signup,
--                   Auth/Login and Auth/Refresh (with Logout) are the flows of service.go,
--                   Auth/Destination, Auth/OtpRequest and Auth/OtpVerify those of otp.go, and
--                   Auth/Exchange is ExchangeAuthCode of oauth.go; Auth/Oauth is StartGoogleOAuth,
--                   with HandleGoogleCallback in Auth/Oauth/Callback and resolveOAuthUser in
--                   Auth/Oauth/Resolve; Auth/Integrity is about what every flow keeps
--   Http            backend/internal/apierror/apierror.go, and mapAuthErr and writeError;
--                   Http/Middleware and Http/Handlers are the middlewares and handlers of
--                   backend/internal/httpapi, Http/Routes its routers
--   Tests           runs on a small database, and the theorems at these runs
-- The modules below a component hold its proofs. Exec/Laws says what holds of an action that succeeds,
-- Exec/Runs what an action returns when no call fails, Exec/Returns that it returns a value and what
-- that satisfies, Exec/Atomic, Exec/FailSafe and Exec/Unseen what a failure leaves behind, Exec/Keeps
-- what every statement keeps. The Returns module of a flow shows that the flow succeeds.
--
-- The model.
--   A string is the list of its code points, and `len` counts its bytes in UTF-8. unicode.ToLower
--   beyond ASCII is a parameter; the CITEXT columns are compared by it. A UUID is a number. A time is
--   in microseconds, and one request is handled at one time, which is the database's clock too.
--   Each call that leaves the program has a number, and the environment says for each number whether
--   the call fails. A statement that fails changes nothing. A commit that reports an error has not
--   taken effect.
--   A table is a list of rows, the oldest first. LIMIT 1 without ORDER BY takes the oldest row. The
--   primary keys, unique indexes, foreign keys and CHECK constraints of
--   backend/migrations/0001_init.up.sql and 0002_refresh_token_history.up.sql are conditions of the
--   statements, and the trigger on users sets updated_at.
--   bcrypt, JWT signatures, SHA-256, HMAC, AES-GCM, base64, the random sources, uuid.Parse, url.Parse,
--   mail.ParseAddress and the answers of Google are fields of the environment. A theorem that relies on one of them says so as a hypothesis.
--   A handler is an action that returns a response. A route is what chi has matched, with what the
--   JSON decoder found in the body. HandleGoogleCallback returns the redirect URI beside its result,
--   so its action answers with both.
--   Loops are structural recursion. `decimal` alone runs on fuel: a number has fewer digits than its
--   successor counts.
--
-- Not modelled. Requests run one after the other: two verifications, or two refreshes, that read the
-- same row before either writes are not covered. The middlewares of chi, the request log, the 30 and
-- 2 second timeouts, the JSON decoder and the matching of paths are left out, and so are database, the
-- generated interface db/querier.go, the log sender and the commands. The columns that nothing reads
-- (metadata, device_info, ip_address, the token lifetimes of a project) are carried along.
pub mod Prelude
pub mod Text
pub mod Errors
pub mod Env
pub mod Db
pub mod Exec
pub mod Password
pub mod Token
pub mod Otp
pub mod SecretBox
pub mod Google
pub mod Auth
pub mod Config
pub mod Http
pub mod Tests
