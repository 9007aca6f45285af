-- ===== src/Npm/Certificates.antt =====
-- pkg/nginxpm/certificate.go, and `DeleteCertificate` of letsencrypt_certificate.go
pub mod Settling
use nginxpm_operator.Base.{
  Bool, false, Option, none, some, List, [], ◌∷◌, ◌++◌, ◌||◌, any, find, ℤ, ◌==◌, text-Eq, Text,
  txt,
}
use nginxpm_operator.Base.Strings.{decimal}
use nginxpm_operator.Errors.{no_domains}
use nginxpm_operator.Effect.{Action, ◌>>=◌, pure, fail, no_body, delete_method}
use nginxpm_operator.Util.{extract_root_domain}
use nginxpm_operator.Npm.Types.{Certificate, decode_certificate, any_meta}
use nginxpm_operator.Npm.Requests.{Client, get_list, find_by_id, do_request, check_status}

abbrev pub letsencrypt_provider : Text
letsencrypt_provider = txt "letsencrypt"

abbrev pub custom_provider : Text
custom_provider = txt "other"

-- `cert.Bound = false` on the copy that is returned
abbrev pub unbound : Option Certificate → Option Certificate
unbound none = none
unbound (some cert) = some (record cert { bound = false })

unfoldable pub get_certificates : Client → Action (List Certificate)
get_certificates c = get_list c (txt "/api/nginx/certificates") (decode_certificate any_meta)

unfoldable pub find_certificate_by_id : Client → ℤ → Action (Option Certificate)
unfolding get_certificates
find_certificate_by_id c id = do
  certificates ← get_certificates c
  pure (unbound (find_by_id (λ cert. cert.id) id certificates))

-- `domainName == domain || domainName == fmt.Sprintf("*.%s", rootDomain)`
unfoldable pub domain_covers : Text → Text → Bool
domain_covers domain domain_name =
    domain_name == domain || domain_name == txt "*." ++ extract_root_domain domain

unfoldable pub find_certificate_by_domain : Client → List Text → Action (Option Certificate)
unfolding get_certificates domain_covers
find_certificate_by_domain c [] = fail no_domains
find_certificate_by_domain c (domain ∷ domains) = do
  certificates ← get_certificates c
  pure (find (λ cert. any (domain_covers domain) cert.domain_names) certificates)

abbrev pub certificate_path : ℤ → Text
certificate_path id = txt "/api/nginx/certificates/" ++ decimal id

unfoldable pub delete_certificate : Client → ℤ → Action (Unit {0})
delete_certificate c id = do
  resp ← do_request c delete_method (certificate_path id) no_body
  check_status resp
