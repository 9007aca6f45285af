-- ===== src/Effect.antt =====
-- The effects of the program: requests to the Nginx Proxy Manager instance, calls of the Kubernetes
-- API, and errors. An action is run in an environment that answers each call from the history of
-- all calls so far, so a theorem about every environment covers what other clients do in between.
-- A nil dereference is `panic`, which no caller recovers from.
pub mod Calls
pub mod Monad
pub mod Emits
pub mod Returns
pub mod Ends
pub mod Traffic
pub mod Sending
pub mod Inversion
unfoldable pub use Calls.*
unfoldable pub use Monad.*
