-- ===== src/Lib.antt =====
-- shclop runs agents in sandboxes on behalf of users. A server (internal/api) answers HTTP requests: it
-- finds out who asks from a session token (internal/auth), reads and writes its tables through a store
-- (internal/store), and starts and stops runtimes through a sandbox provider (internal/sandbox). An
-- agent is started with an environment that the integration service (internal/integrations) makes from
-- the plugins (internal/plugins) that are switched on for it and the credentials that a user connected.
--
-- A user logs in with a password, or through an identity provider (internal/identity, internal/api/oidc.go).
-- A runtime that was started connects back over a WebSocket and is kept in a registry (internal/gateway),
-- through which the server relays tasks of browsers to it and its events to them; in the runtime an
-- adapter (internal/claw) carries a task out.
--
-- Which file models what:
--   Domain: internal/domain/domain.go, the records.
--   Store: internal/store/store.go. Store.Memory is the struct `Memory` with its error values;
--     Users, Agents, Models, Connections, Bindings, Manifests, Identities and Settings have one
--     definition for each method, in its own words (`CreateUser` is `create_user`), and the helpers that
--     its branches and loops are made of; Commands collects the writing methods into one step `exec`,
--     and `run` is a sequence of steps. Their child modules and Invariant and Errors hold the proofs.
--   Auth: internal/auth/auth.go, login and the map of session tokens; Auth.Cookie is
--     internal/auth/cookiecodec.go.
--   Identity: internal/identity. Provider is oidc.go, Registry is registry.go (`idpRegistry`).
--   Plugins.Manifest: internal/plugins/manifest.go, `Validate` and the templates that it parses.
--     Plugins.Merged: internal/plugins/registry.go, `MergedRegistry`. Evaluator is template.go, Sidecar is
--     sidecar.go and Resolver is mcp_resolver.go there.
--   Integrations: internal/integrations/service.go, `ResolveAgentRuntime`, `Connect`, `Disconnect` and
--     `ToggleAgentIntegration`; Integrations.Summary has `BuildSummary`.
--   Gateway: internal/gateway/registry.go, `RuntimeRegistry`, its connections and waiters; Gateway.Steps has
--     its operations in any order.
--   Sandbox: internal/sandbox. Labels and Network are networkpolicy.go; Pod is podspec.go, provider.go and
--     secrets.go.
--   Claw: internal/claw/adapter.go, the events of a run; Claw.Openai is openai.go.
--   Api: internal/api/server.go. Server has the state that handlers share (the store, the sessions, the
--     tokens of runtimes, the log of activity, the providers, the registry of runtimes) and the small
--     language in which handlers are written, a state monad that may answer early, whose Steps have
--     lemmas; Access finds the user and the agent of a request; Login has the local login; Agents and
--     Start have the handlers of agents, Connect those of connections, Admin and Plugins those of the
--     administration; Relay has the two WebSockets; Activity is about the log; Overview has the
--     administrators' overview and the readiness of the server; Routes has all requests of the
--     administration. Api.Sso is internal/api/oidc.go: Login and Callback are the two halves of a
--     login, Accounts finds or makes the account, Settings and Links are for administrators.
--   Security: internal/security, the scanner of texts and the policy on its result.
--   Prelude: names of the libraries, loops over slices, what holds of every element, keys, association
--     lists, 64-bit integers, texts.
--   Tests: concrete runs.
--
-- How the code is read:
--   - What a call finds outside the program is an argument, a `Call`: whether its context has ended,
--     what `newID` makes of the system's randomness, and the clock. The i-th call of the store in a
--     handler has its own, `at i`. Bcrypt, random texts, the registry of plugins, encryption, the
--     evaluation of plugins, the sandbox, the OIDC library, HTTP requests, JSON, YAML and the shell are
--     functions given to the definitions. Only the round trip of a cookie has hypotheses on them.
--   - A method of the in-memory store locks a mutex until it returns, so it is one step of the state and
--     an interleaving of requests at the store is a sequence of steps.
--   - The order of a handler's statements is the order of its `do` block. A handler is run on its own,
--     without other requests in between.
--   - A Go map is an association list with one entry for each key; nothing is stated about the order of
--     its entries. An `int64` is its 64-bit pattern, with wrap-around. A `time.Time` is a number.
--   - An error that is wrapped in a message is kept as an error of a kind; the messages of the HTTP
--     answers are kept. Metrics and logs are left out, and JSON encoding of an answer does not fail.
--   - Loops are structural recursion over the list that they read. The loop of Claw.Openai recurs on the
--     number of turns that are left, the ten of the code: this is its own bound and no fuel.
--   - An operation of Gateway that would wait for a reader is `none`; where it cannot be, a theorem says so.
--   - A registry's operations are atomic, as its lock makes them; the look at the registry and the delivery
--     in `Dispatch`, which take two locks, are one step here.
--
-- Not modelled: the SQL store and its migrations (statements that a database runs), the calls of
-- Kubernetes and Docker that start a sandbox (an argument of the handlers) and the controllers, the
-- sources of plugins (watchers of files, tables and the cluster), the provider for development
-- (internal/identity/mockyaml.go), the adapters that start processes, encryption, configuration, the
-- commands and the frontend; of internal/api/server.go also the routes and the
-- loops that copy events between connections. Of the cookies that an answer sets, only those of a
-- redirect are kept, and metrics and logs are left out.
pub mod Prelude
pub mod Domain
pub mod Store
pub mod Auth
pub mod Plugins
pub mod Integrations
pub mod Gateway
pub mod Claw
pub mod Sandbox
pub mod Identity
pub mod Security
pub mod Api
pub mod Tests
