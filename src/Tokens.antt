-- ===== src/Tokens.antt =====
-- internal/controller/token/token_controller.go: the reconciler of the Token resource, which turns
-- the credentials of a secret into a token of the instance.
pub mod Lifecycle
pub mod Watches
pub mod Credentials
pub mod Source
use nginxpm_operator.Base.{
  Bool, true, false, not, ◌&&◌, Option, none, some, List, [], ◌∷◌, if◌then◌else◌, is_empty, ℤ, pos,
  ◌-ℤ◌, int_ltb, ◌==◌, text-Eq, Text, txt,
}
use nginxpm_operator.Errors.{Error, not_found, kube, missing_secret_field}
use nginxpm_operator.Api.{NamespacedName, Token, SecretData}
use nginxpm_operator.Npm.{
  Client, new_client, new_client_from_token, check_connection, create_client_token,
}
use nginxpm_operator.Effect.{Env, kind_secret, fetch, handle, Action, ◌>>=◌, ◌>>◌, pure, or_fail}
use nginxpm_operator.Controller.{
  set_condition, update_status, starting, failed_with, succeeded, Attempt, secret_value,
}
use nginxpm_operator.Controller.Resources.{get_object, token-Resource}

-- `ctrl.Result` with the delay in seconds, which is negative for a token that has expired.
pub record TokenResult : Type 0 where
  pub requeue_after : ℤ
  pub error : Option Error

abbrev done : TokenResult
done = record { requeue_after = pos 0; error = none }

abbrev retry : Error → TokenResult
retry e = record { requeue_after = pos 60; error = some e }

-- `time.Now()`
unfoldable pub clock : Action ℤ
clock env t = pure (env.now t) env t

valid_until : ℤ → Option Text → Option ℤ → Bool
valid_until now none expires = false
valid_until now (some token) none = false
valid_until now (some token) (some expires) = int_ltb now expires

unfoldable pub has_valid_token : Token → ℤ → Bool
unfolding valid_until
has_valid_token token now = valid_until now token.status.token token.status.expires

-- The client of a token that is still valid, or one with a new token for the credentials.
unfoldable pub connect : Token → Text → Text → Bool → Action Client
connect token identity secret true = do
  let client = new_client_from_token token
  check_connection client
  pure client
connect token identity secret false = do
  let client = new_client token.spec.endpoint
  check_connection client
  create_client_token client identity secret

unfoldable pub init_client : NamespacedName → Token → Action Client
unfolding connect
init_client req token = do
  values ←
      fetch kind_secret (λ env. env.secrets)
        (record { namespace = req.namespace; name = token.spec.secret.secret_name })
  identity ← or_fail (secret_value (txt "identity") values) missing_secret_field
  secret ← or_fail (secret_value (txt "secret") values) missing_secret_field
  now ← clock
  connect token identity secret (has_valid_token token now)

abbrev has_token : Text → Option Text → Bool
has_token t none = false
has_token t (some t') = t' == t

-- The token is created: the condition says so, and the reconciliation is repeated when it expires.
announce : NamespacedName → Client → Token → Action TokenResult
announce req client token = do
  now ← clock
  token' ← set_condition req (succeeded (txt "TokenCreated") (txt "Token created")) token
  pure (record { requeue_after = client.expires -ℤ now; error = none })

saved : NamespacedName → Client → Attempt Token → Action TokenResult
unfolding announce
saved req client (token, some e) = pure done
saved req client (token, none) = announce req client token

-- The status is written only when the token is new.
unfoldable pub save_token : NamespacedName → Token → Client → Action TokenResult
unfolding saved
save_token req token client =
    if has_token client.token token.status.token
    then announce req client token
    else (update_status req
          (λ env o. record o {
            status = record o.status { token = some client.token; expires = some client.expires };
          })
          token
        >>= saved req client)

report : NamespacedName → Token → Error → Action TokenResult
report req token e = do
  token' ← set_condition req (failed_with (txt "InitNginxPMClient") e) token
  pure (retry e)

reconcile_fetched : NamespacedName → Token → Action TokenResult
unfolding report
reconcile_fetched req token =
    if is_empty token.status.conditions
    then (set_condition req starting token >>= λ token'. pure done)
    else handle (init_client req token) (save_token req token) (report req token)

get_failed : Error → TokenResult
get_failed (kube not_found) = done
get_failed e = retry e

unfoldable pub reconcile : NamespacedName → Action TokenResult
unfolding reconcile_fetched get_failed
reconcile req =
    handle (get_object {O = Token} req) (reconcile_fetched req) (λ e. pure (get_failed e))
