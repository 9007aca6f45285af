-- ===== src/Npm/LetsEncrypt.antt =====
-- pkg/nginxpm/letsencrypt_certificate.go
pub mod Reuse
use nginxpm_operator.Base.{
  Bool, true, false, Option, none, some, List, [], ◌∷◌, ◌++◌, ◌&&◌, not, if◌then◌else◌, any, find,
  ℤ, is_some, ◌==◌, text-Eq, int-Eq, Text, txt,
}
use nginxpm_operator.Base.Strings.{query_escape}
use nginxpm_operator.Json.{Json, bool, str, arr, obj}
use nginxpm_operator.Effect.{Action, ◌>>=◌, pure, json, post_method}
use nginxpm_operator.Util.{extract_root_domain}
use nginxpm_operator.Npm.Types.{Certificate, decode_certificate, lets_encrypt_meta}
use nginxpm_operator.Npm.Requests.{
  Client, get_list, find_by_id, do_request, read_response, is_accepted, object, items,
}
use nginxpm_operator.Npm.Certificates.{letsencrypt_provider, unbound, domain_covers}

pub record CreateLetEncryptCertificateRequestMeta : Type 0 where
  pub dns_challenge : Bool
  pub dns_provider : Text
  pub dns_provider_credentials : Text
  pub lets_encrypt_agree : Bool
  pub lets_encrypt_email : Text

pub record CreateLetEncryptCertificateRequest : Type 0 where
  pub domain_names : List Text
  pub meta : CreateLetEncryptCertificateRequestMeta

-- The first certificate of the provider with a matching domain name.
unfoldable pub match_let_encrypt : Text → List Certificate → Option Certificate
match_let_encrypt domain = find λ cert.
    any (λ name. domain_covers domain name && cert.provider == letsencrypt_provider)
      cert.domain_names

unfoldable pub find_let_encrypt_certificate : Client → Text → Action (Option Certificate)
unfolding match_let_encrypt
find_let_encrypt_certificate c domain = do
  let query = query_escape (extract_root_domain domain)
  certificates ←
      get_list c (txt "/api/nginx/certificates?query=" ++ query)
        (decode_certificate lets_encrypt_meta)
  pure (unbound (match_let_encrypt domain certificates))

unfoldable pub find_let_encrypt_certificate_by_id : Client → ℤ → Action (Option Certificate)
find_let_encrypt_certificate_by_id c id = do
  certificates ← get_list c (txt "/api/nginx/certificates") (decode_certificate lets_encrypt_meta)
  pure
      (unbound (find (λ cert. cert.id == id && cert.provider == letsencrypt_provider) certificates))

-- `existingCertificate.ID != cert.ID`, where both are there; `i > 0` then holds.
unfoldable pub differs : Option Certificate → Option Certificate → Bool
differs (some existing) (some cert) = not (existing.id == cert.id)
differs (some existing) none = false
differs none cert = false

-- The loop over the domains; `later` is `i > 0`.
unfoldable pub existing_certificate :
    Client → Bool → Option Certificate → List Text → Action (Option Certificate)
unfolding differs
existing_certificate c later existing [] = pure existing
existing_certificate c later existing (domain ∷ domains) = do
  cert ← find_let_encrypt_certificate c domain
  let rest = existing_certificate c true cert domains
  if differs existing cert && later then pure none else rest

unfoldable pub let_encrypt_body : CreateLetEncryptCertificateRequest → Json
let_encrypt_body r = obj (
    object (
      (txt "domain_names", arr (items str r.domain_names))
      ∷ (
        txt "meta",
        obj (
            object (
              (txt "letsencrypt_agree", bool true)
              ∷ (txt "letsencrypt_email", str r.meta.lets_encrypt_email)
              ∷ (txt "dns_challenge", bool r.meta.dns_challenge)
              ∷ (txt "dns_provider", str r.meta.dns_provider)
              ∷ (txt "dns_provider_credentials", str r.meta.dns_provider_credentials)
              ∷ [])),
      )
      ∷ (txt "provider", str letsencrypt_provider)
      ∷ []))

unfoldable pub request_let_encrypt :
    Client → CreateLetEncryptCertificateRequest → Action Certificate
unfolding let_encrypt_body
request_let_encrypt c r = do
  resp ← do_request c post_method (txt "/api/nginx/certificates") (json (let_encrypt_body r))
  cert ← read_response is_accepted (decode_certificate lets_encrypt_meta) resp
  pure (record cert { bound = false })

unfoldable pub reuse_or_request :
    Client → CreateLetEncryptCertificateRequest → Option Certificate → Action Certificate
unfolding request_let_encrypt
reuse_or_request c r none = request_let_encrypt c r
reuse_or_request c r (some cert) = pure (record cert { bound = true })

unfoldable pub create_let_encrypt_certificate :
    Client → CreateLetEncryptCertificateRequest → Action Certificate
unfolding reuse_or_request
create_let_encrypt_certificate c r = do
  existing ← existing_certificate c false none r.domain_names
  reuse_or_request c r existing
