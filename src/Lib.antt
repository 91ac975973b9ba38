-- ===== src/Lib.antt =====
-- A model of the gigmcp gateway: the part that decides what a sandboxed MCP server may reach, what
-- it is given, who may ask for it, and what is kept of both; and the control plane that decides this.
--
-- The parts and how they interact. A user's profile names a bundle of servers. The first request to
-- a profile starts the bundle (Gateway/ProfileHost, Gateway/Bundle): the gate of the Spawn function
-- asks whether the manifest is accepted (Gateway/SpawnGate), and each sandbox gets a /30 of its own
-- (Netmgr). A sandbox reaches the network through the egress proxy alone (Proxy): a CONNECT is
-- attributed to a tenant by its source address, takes a slot of the limiter, asks the resolver for a
-- credential (Gateway/Resolver, under Gateway/AuditingResolver), is compared with the allowlist, and
-- becomes a tunnel that puts the secret where the sandbox left a placeholder. Secrets rest in the
-- vault (Vault) and rows in the store (Store). A user logs in at the identity provider (Auth/Oidc),
-- and requests of the control plane pass the session middleware (Auth/Session) to the handlers (Api),
-- which write the store and invalidate runtimes. The broker (Auth/Broker) connects accounts at
-- vendors and keeps their tokens fresh for the resolver. The installer (Registry) writes manifests
-- and consent.
--
-- Files and what they model, by paths of the repository:
--   Base         helpers: tests, lists, maps, texts, integers, tables as lists of rows, counts
--   Proxy        internal/proxy/proxy.go, registry.go: Registry, Limiter (connLimiter), Allow
--                (HostAllowed), Inject (the loop of pump), Tunnel (handle)
--   Netguard     internal/netguard/netguard.go: IsBlockedIP
--   Netmgr       internal/netmgr/netmgr.go: Allocator
--   Vault        internal/vault/vault.go: Encrypt, Decrypt
--   Store        internal/store: Types (the rows), Installs (userinstalls.go, usertools.go),
--                Profiles, Sessions (sessions.go, users.go), Manifests (manifests.go,
--                credentials.go), Audit, Accounts (connaccounts.go; the servers of sqlite.go),
--                AuthConfigs (authconfigs.go), AppTools (disabledtools.go)
--   Gateway      internal/gateway: Resolver (resolver.go), AuditingResolver (audit_resolver.go),
--                ProfileHost, Bundle and Serve (profilehost.go); SpawnGate (cmd/gateway/main.go)
--   Registry     internal/registry/installer.go: Installer (Install, maybeConsent,
--                buildInjections), Uninstaller (Uninstall)
--   Auth         internal/auth: Session (session.go: SessionMiddleware, RequireAdmin), Scopes, Flow
--                and Broker (oauthbroker.go), Oidc (oidc.go)
--   Api          internal/api: Types (api.go, respond.go), Names (the patterns for names), Profiles,
--                Apps, Credentials, AuthConfigs (and urlvalidate.go), Connections, Users (users.go,
--                me.go), AuditLog (audit.go), Servers, Envelope, Catalog (registry.go); Requests joins
--                the handlers that touch profiles, installs and servers
--   Examples     instances of the theorems at concrete inputs, and tests
-- Modules below these hold the proofs and are named for what they prove.
--
-- How code becomes definitions. An operation is a function of the name the code has, in snake case,
-- from the state before to the result and the state after. An operation of the store is the
-- statement it runs, on tables that are lists of rows (`Db`); that the database fails is not part of
-- these functions, except where several statements run without a transaction (UninstallForUser,
-- CascadeRemoveServer): there any of them may fail, and what ran before stays. The parts that call
-- the store take its answers as functions that may fail. A
-- pair of a value and an error is a `Result`. A text is the list of its code points, for strings
-- that are valid UTF-8, and bytes are numbers below 256. Ids are ℤ (int64, as long as it does not
-- overflow), times are nanoseconds since the epoch, and a column keeps whole seconds. Goroutines are
-- steps: a section under a mutex is one step, and a property speaks of every list of steps.
--
-- A handler of the control plane is a function from the request, as decoded, and the state `Control`
-- (the tables, and the ids whose runtimes were invalidated) to a status with a body and the state
-- after. `Env` holds what else it meets: the clock, the random source, the vault, and which of its
-- reads, of its writes and of its audit rows fail; a handler that reads or writes several times
-- meets the same failure each time, except for the first read.
-- `cut` says which statement fails of those without a transaction. The handlers of profiles answer a
-- refusal with status, code and message, the other handlers keep the status alone.
--
-- Bounds and fuel. The search for a free subnet runs on fuel, one more than the number of subnets in
-- use, which is shown to be enough. The decimal form of an id runs on its value plus one. Lengths in
-- a ciphertext are 32 bits wide, the addresses of the allocator wrap at 2 ^ 32, and a duration at
-- 2 ^ 64.
--
-- Parameters, for code that is not in the repository: the AEAD of golang.org/x/crypto (opening what
-- was sealed gives it back, and sealing adds 16 bytes), the case tables of package unicode (only the
-- full stop has the full stop as lower case), the token hash, the peers of a connection, the codec
-- of the flow cookies (JSON, base64 and HMAC), the requests to vendors and to the identity provider,
-- the verifier of ID tokens, the registry index, net/url, net.ParseIP and the JSON decoder. The answer of a
-- flight that singleflight shares among concurrent refreshes is an argument, and nothing is said of it. The resolver takes the source of fresh OAuth
-- tokens, and the broker the vault, as functions.
--
-- Not modelled: TLS and the certificates of internal/proxy/ca.go, netlink, namespaces, seccomp
-- filters and processes (internal/sandbox, internal/seccomp, cmd/bootstrap, internal/gateway/spawn.go),
-- the aggregator (internal/gateway/gateway.go), the registry's index and artifacts
-- (internal/registry/client.go, internal/oci), the construction of the broker and of the
-- authenticator, the routes and the overview of internal/api, configuration, and the
-- web front end. These are system calls, network traffic and wiring, or are left for an extension.
pub mod Base
pub mod Proxy
pub mod Netguard
pub mod Netmgr
pub mod Vault
pub mod Store
pub mod Gateway
pub mod Auth
pub mod Registry
pub mod Api
mod Examples
