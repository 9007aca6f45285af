-- ===== src/Errors.antt =====
-- The errors that the program makes or passes on. Each `fmt.Errorf` or `errors.New` of the source
-- is a constructor; the texts that wrap an error on its way up are left out.
use nginxpm_operator.Base.{ℕ, Text}

-- What a call of the API server's client fails with, as far as `apierrors` tells it apart.
pub data KubeError : Type 0 where
  not_found conflict other : KubeError

pub data Error : Type 0 where
  kube : KubeError → Error
  request_failed : Error
  bad_status : ℕ → Error
  bad_body : Error
  no_domains : Error
  token_not_found : Error
  no_forward : Error
  not_node_port : Error
  invalid_service_port : Error
  invalid_service_ip : Error
  no_certificate_id : Error
  no_access_list_id : Error
  missing_secret_field : Error
  domain_taken : Text → Text → Text → Error
