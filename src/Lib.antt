-- ===== src/Lib.antt =====
-- A model of nginxpm-operator, a Kubernetes operator that keeps the hosts, streams, access lists,
-- certificates and tokens of an Nginx Proxy Manager instance in step with custom resources, and what
-- it does.
--
-- The program has three layers. A reconciler (internal/controller/*) is called with the name of a
-- custom resource (api/v1): it fetches the resource, opens a client of the instance with the token
-- of a Token resource, and makes the instance look like the resource, or cleans up if the resource
-- is being deleted. The client (pkg/nginxpm) sends one HTTP request for each call and decodes the
-- answer. The shared helpers (internal/controller/*.go) find the token, take finalizers on and off,
-- write the status through client-go's retry, and build the upstream blocks of nginx.
--
-- An operation is an action (Effect): a function of an environment and of the history of all calls so
-- far, which returns a result - a value, an error or a nil dereference - and the longer history.
-- The environment answers every HTTP request and every call of the API server from the history, so
-- a theorem about all environments covers whatever others do to the instance and to the resources in
-- between. Functions of third-party packages (finalizers, conditions, retries, label selectors, the hash, the
-- parsing of URLs and times, the order in which Go ranges over a map) are fields of the environment.
--
-- Files, with what they model:
--   Base, Json            Go's strings, integers and slices; encoding/json on the API's structs
--   Errors, Effect        errors; requests, calls of the API server, actions, and rules about them
--   Api                   api/v1/*_types.go, and the parts of Kubernetes' own objects that are read
--   Util                  pkg/util/util.go (ExtractRootDomain)
--   Npm                   pkg/nginxpm: Requests (client.go), ProxyHosts, Streams, AccessLists,
--                         Certificates, LetsEncrypt and CustomCertificates, one module for each file
--   Controller            internal/controller/helpers.go (Helpers, Reflection), proxy_helpers.go
--                         (Upstream), certificate.go (Certificates), what the watches share
--                         (Watches); Resources is client.Object
--   ProxyHosts            internal/controller/proxyhost: InitialConfig (initial_config.go), Ports and
--                         Forward (proxy_forward.go); Domains, References, Apply
--                         (createOrUpdateProxyHost), Reconcile and Watches (proxyhost_controller.go)
--   Streams               internal/controller/stream: Ports and Forward (proxy_forward.go), Reconcile
--                         and Watches (stream_controller.go)
--   AccessLists, Tokens   internal/controller/accesslist and internal/controller/token
--   Certificates          internal/controller/letsencryptcertificate and customcertificate: Reconcile
--                         (the function Reconcile, which has the same statements in both), LetsEncrypt
--                         and Custom (createCertificate of each), Watches
--   Lifecycle             how the reconciliations end, over all of them
--   NoDeletion            what the reconciliations leave in place, over hosts, streams, access lists
--   Tests                 a small world, and the theorems applied in it
-- A module below one of these is named for what it proves: NoDeletion, Settling, Lifecycle, ...
--
-- A Go function has its name in snake case (InitNginxPMClient is init_nginxpm_client). A long function
-- is cut where its comments cut it: Reconcile of the hosts is reconcile, reconcile_fetched,
-- reconcile_from, delete_resource, apply_resource and so on, called in the order of the source. A
-- pointer is an Option, `x, err := f()` is a step of a do block, and an error that the code only logs
-- is ignore_error.
--
-- Bounds: client-go's RetryOnConflict is a parameter, `retry_on_conflict` of the environment: a tree of
-- type Retry, which calls the update of a status or returns, by the error of each call, and so ends
-- after finitely many. IsRetry is what its documentation promises: it calls, and it returns the error
-- of the last call. Every other loop goes down a list. The decimal print has fuel n + 1 for the
-- number n, and uses one unit for each digit. Ids and ports are only compared and
-- printed; a JSON number that does not fit 64 bits does not decode.
--
-- Not modelled: log lines, the texts of events and of wrapped errors, timeouts, the registration
-- with the manager, generated code, main.go and the deployment files. Nil and empty slices are
-- one. Strings are lists of bytes, and ToLower is that of ASCII.
pub mod AccessLists
pub mod Api
pub mod Base
pub mod Certificates
pub mod Controller
pub mod Effect
pub mod Errors
pub mod Json
pub mod Lifecycle
pub mod NoDeletion
pub mod Npm
pub mod ProxyHosts
pub mod Streams
pub mod Tests
pub mod Tokens
pub mod Util
