-- ===== src/Lib.antt =====
-- The Renku gateway: the reverse proxy in front of Renku's services, with its login and sessions.
--
-- The program is in internal/. A request passes the session middleware (sessions), which finds or
-- loads the session of the user; the reverse proxy (revproxy) adds the user's tokens, which the
-- token store (tokenstore) refreshes before they expire, and sends the request to a service. The
-- login server (login) runs the authorization code flow with each provider in turn (oidc) and saves
-- the tokens for the session. Sessions and tokens are kept in Redis (db). The redirect store
-- (redirects) sends the pages of an old GitLab to their new place, and config reads and validates
-- the configuration that all of this is made from by cmd/gateway/main.go.
--
-- Files and the code they model:
--   Models: internal/models. Token is token.go, TokenSet is token_set.go, Session is session.go.
--   Db: internal/db. Client is limited_redis_client.go, Serialize is redis_adapter.go, TokenRepo is
--     token_repo_redis.go, SessionRepo is session_repo_redis.go, Adapter is the constructor in
--     redis_adapter.go, Mock is redisadapters_mock.go, Encryption is encryption.go; Fields has the
--     decoder's side of redis_adapter.go, and the `UnmarshalText` of models/serializable_*.go.
--   TokenStore: internal/tokenstore/token_store.go; TokenStore/Redis makes Db its repository.
--   Sessions: internal/sessions. Maker is session_maker.go, Store is session_store.go, Tokens is
--     token_handling.go, Setup is the constructor in session_store.go; Context is echo.Context as far
--     as the gateway uses it.
--   Config: internal/config. Keys also has the key checks of session_store.go and oidc/client.go;
--     Loader is config_handler.go, Redacted is redacted_string.go.
--   Oidc: internal/oidc, client.go and, in Oidc/Store, client_store.go; Setup makes the clients.
--   Login: internal/login/login_server_routes.go, with GetLogout in Logout; Setup is login_server.go.
--   Authentication: internal/authentication.
--   Revproxy: internal/revproxy. Auth is auth.go, Middlewares and Rewrite are middlewares.go, Routes
--     is main.go.
--   Redirects: internal/redirects/redirect_store.go; Setup is its constructor, Interleaving its
--     locks under concurrent requests.
--   Gateway: cmd/gateway/main.go. Start is the order of the constructors, Database the adapter that
--     it starts with, Errors the middleware that reports errors, with internal/utils/sentry.go,
--     and Middlewares the two around Sentry's headers, one of them in middlewares.go.
--   Requests: a request from the common middlewares to the handlers, as login_server.go and
--     revproxy/main.go register them, and sequences of requests. Prelude/Keeps is a logic of what an
--     operation keeps of a state, Sessions/Keeps its use for the sessions of a request; each module
--     Kept has the rules of the methods beside it.
--   Prelude: shared names, tests, integers, texts, maps, and the effects of a Go method. Tests:
--     concrete instances.
--
-- Correspondence. A method is a function with the name of the source in snake_case, of the type
-- Exec S A: it takes the state S and gives a result or an error together with the state, so that
-- what was written before an error stays written. A struct is a record. A pointer to a session is an
-- index into the heap of the request's context, since the middlewares and the handlers share it. A
-- map is an association list; an instant is a number of nanoseconds after the zero value of
-- time.Time, on unbounded integers; a TTL in seconds becomes a time.Duration with the wrap-around of
-- int64. Nothing needs fuel: the only loops are over finite lists. Where requests run side by side, a
-- step relation has one constructor for each step that the code does without giving way: the part of
-- the redirect store under the write lock, and each access of the variable that the requests share in
-- the middleware that reports errors, which reads it three times. Requests are also put one after the
-- other, with any change of the backend between them. The result of a route of the login is what it
-- gives to echo: `handled` where a handler of a package, or an error that it met, has written the response
-- already, as `is_committed` says. A panic is `none`, or an error where it ends the request.
--
-- Parameters. Redis, the clock, random numbers, encryption, JSON and the other text forms, the OIDC
-- library, securecookie, and the parsing of URLs are arguments of the definitions that use them.
-- What a theorem needs of them is a named hypothesis: KeepsHashes (Redis keeps a hash under its key,
-- with the fields that are written put first, until it expires or is deleted), Expires (an expiry date
-- that is past deletes the key), IsFaithful (what was encrypted decrypts), Opens and Fills (a cipher
-- opens what it sealed, and the random source fills the nonce), TakesKeys (AES takes keys of 32
-- bytes), DecodesFields (mapstructure sets each field from its text), TimeBack and TextsBack (time.Time,
-- strconv and encoding/json read back the texts of instants, numbers and JSON values), TokenBack and SessionBack (what these come to
-- for one token or session), KeepsPath (where
-- the text of a URL with a path under "/api" parses, it is to that path), IsMonotone (the clock does not go back), IsOutside (the OIDC library reaches a
-- session only through the callback that it is given), IsBackend, IsLoginBackend and IsGateway (the
-- session repository, the token store and the packages hand out bounded sessions if they are given
-- only such, and reach the sessions of a request through its handlers only). The Redis in memory of Tests/Memory meets those
-- of Redis.
--
-- Not modelled: the random IDs and what strconv and encoding/json write, which are parameters; the regular
-- expressions of echo's rewrite middleware, and the proxies behind the routes; generated code, the
-- templates, metrics, the request logger and the tags of Sentry's reports; of the start of the
-- server what sets up echo: the rate limits and CORS; and the end of the process by a signal. Requests that overlap are modelled for the
-- redirect store and the reports of errors only.
pub mod Prelude
pub mod Models
pub mod Db
pub mod TokenStore
pub mod Sessions
pub mod Config
pub mod Revproxy
pub mod Redirects
pub mod Oidc
pub mod Login
pub mod Gateway
pub mod Requests
pub mod Tests
pub mod Authentication
