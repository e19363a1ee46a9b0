-- ===== src/Lib.antt =====
-- go-identity: an OAuth 2.0 identity server as a library of Go packages.
--
-- The parts of the program that are modelled, and the files that model them:
--   pkg/identity        Identity/Client, Identity/Scope, Identity/Token, Identity/User
--   pkg/security        Security, Security/Pkce
--   pkg/store           Store: the interface as a record of operations, list options, filters and
--                       DeleteExpired
--   pkg/store/memory    Memory and its children: Table is the Go map, State the struct, Page the
--                       sorting and slicing of lists, and one file for each kind of entry
--   pkg/account         Account/Service (options, lookups, sign-in rules), Account/Authenticate
--                       (Authenticate with the lockout), Account/Users (creation, update,
--                       deletion), Account/Password, Account/UserTokens (the tokens sent by mail and
--                       the activation), Account/Email (email.go)
--   pkg/oauth           Oauth/Error (error.go), Oauth/Params (params.go), Oauth/Server
--                       (client_auth.go and the options of server.go), Oauth/Tokens and
--                       Oauth/Endpoint (token.go), Oauth/Grants (grants.go), Oauth/AuthorizeRequest
--                       and Oauth/Authorize (authorize.go), Oauth/Revoke (revoke.go), Oauth/Bearer
--                       and Oauth/Challenge (bearer.go), Oauth/Metadata (the metadata document of
--                       server.go)
--   pkg/session         Session: the signed session cookie and the CSRF tokens
--   pkg/api             Api (api.go), Api/ClientRequest and Api/Clients (clients.go), Api/Users
--                       (users.go), Api/Tokens (tokens.go)
--   pkg/ui              Ui (what the pages share), Ui/Interaction (the current user and the pages of
--                       the authorization endpoint), Ui/Login, Ui/Registration, Ui/Password,
--                       Ui/Routes
--   pkg/router          Router
--   pkg/server          Server: New, Cleanup and RunCleanup; Server/Clients: EnsureClient
--   cmd/identity-server Command: the configuration and the start up to the handler
-- Common, Failure and Effect hold what they share: tests, lists, texts, the errors, and the monad
-- of handlers. Tests runs the code on concrete inputs.
--
-- How the parts interact. A handler of pkg/oauth reads the request, calls the store and the account
-- service, and answers; it is an action of `M S A`, a function from a world to a result and the
-- world after it, where an error keeps what was written before it, as in the code, which has no
-- transactions. `S` is the state of a store that implements the record `Store S`; the in-memory
-- store is `memory_store`. The API and the pages call the account service, and the pages the
-- session manager; what they answer is a value (`Response`, `Reply`). The handlers, and what is
-- shown of them, are for any store, unless the in-memory one is named.
--
-- How values correspond. A name in snake case is the Go name in camel case. Strings are valid
-- UTF-8. A time is the number of nanoseconds since Go's zero time, a duration an integer; neither
-- wraps, as the times in use are far from the bounds of 64 bits, except the durations that the API
-- makes of the seconds of a request (`wrap_int64`). A nil pointer to a time is `none`;
-- a nil slice and an empty one are both `[]`. A pair of a value and an error is `Result`. A Go map
-- is an association list, so a walk over it has an order, which Go leaves open.
--
-- What is outside: the clock, the random source, SHA-256, Unicode folding, the parsing of
-- addresses, of Basic credentials and of escapes, and the encoding of queries are the fields of
-- `Env`; bcrypt is a parameter (`Bcrypt`), and so are HMAC, JSON and the decoding of base64 for the
-- session cookie (`Codec`), `strconv.Atoi` for the API and `url.Parse` and `strings.ToUpper` for the
-- pages; the parsing of an HTTP request (its method, its media type, its form, its JSON body) is the
-- record of the request; the pages of the authorization endpoint are its `Reply` and the answers of
-- its `Interaction` are a `Visit`. The delivery of a message is a function that may fail.
--
-- The loops over the pattern of a route (Router) take fuel, one step for each byte of the pattern
-- and one more, which is enough as each step but the last leaves a shorter pattern. Every other loop
-- is structural recursion over a list, or over the number of ticks in RunCleanup.
--
-- Not modelled: the verification of a password against a dummy hash, whose result the code drops;
-- the HTML alternative of messages and the HTML templates; logging; constant response headers; the
-- registration of routes other than those of the pages; pkg/mail, the adapters in router/, the
-- stores in store/sql and store/mongo, which are calls of third-party drivers, the shared tests of
-- the stores, and the rest of cmd/identity-server: flags, databases, signals and the listener.
pub mod Common
pub mod Failure
pub mod Effect
pub mod Security
pub mod Identity
pub mod Store
pub mod Memory
pub mod Account
pub mod Oauth
pub mod Session
pub mod Api
pub mod Ui
pub mod Router
pub mod Server
pub mod Command
pub mod Tests
