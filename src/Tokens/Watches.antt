-- ===== src/Tokens/Watches.antt =====
-- The index and the watch of token_controller.go: which tokens are reconciled when a secret changes.
use nginxpm_operator.Base.{List, Text}
use nginxpm_operator.Api.{NamespacedName, Token}
use nginxpm_operator.Effect.{Action}
use nginxpm_operator.Controller.Resources.{token-Resource}
use nginxpm_operator.Controller.Watches.{name_index, find_objects_in_namespace}

unfoldable pub secret_index : Token → List Text
secret_index token = name_index token.spec.secret.secret_name

unfoldable pub find_objects_for_secret : NamespacedName → Action (List NamespacedName)
find_objects_for_secret secret =
    find_objects_in_namespace {O = Token} secret.namespace secret_index secret.name
