-- ===== src/Controller/Secrets.antt =====
-- `secret.Data[key]`, as the reconcilers look up the fields of a secret.
use nginxpm_operator.Base.{Option, none, some, [], ◌∷◌, if◌then◌else◌, ◌==◌, text-Eq, Text}
use nginxpm_operator.Api.{SecretData}

unfoldable pub secret_value : Text → SecretData → Option Text
secret_value key [] = none
secret_value key ((k, v) ∷ entries) = if k == key then some v else secret_value key entries
