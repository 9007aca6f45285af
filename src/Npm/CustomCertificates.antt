-- ===== src/Npm/CustomCertificates.antt =====
-- pkg/nginxpm/custom_certificate.go. The writes into the multipart form, which is a buffer in
-- memory, cannot fail.
use nginxpm_operator.Base.{
  Option, some, List, [], ◌∷◌, ◌++◌, ◌&&◌, if◌then◌else◌, find, ℤ, ◌==◌, int-Eq, text-Eq, Text, txt,
}
use nginxpm_operator.Base.Strings.{decimal}
use nginxpm_operator.Json.{str, obj}
use nginxpm_operator.Errors.{request_failed}
use nginxpm_operator.Effect.{Action, ◌>>=◌, pure, fail, read, send, Body, json, form, post_method}
use nginxpm_operator.Npm.Types.{Certificate, decode_certificate, custom_meta}
use nginxpm_operator.Npm.Answers.{
  CertificateValidationResponse, CertificateUploadResponse, decode_validation, decode_upload,
}
use nginxpm_operator.Npm.Requests.{
  Client, Response, get_list, do_request, receive, read_response, is_ok, is_accepted, object,
}
use nginxpm_operator.Npm.Certificates.{custom_provider, unbound}

pub record CreateCustomCertificateRequest : Type 0 where
  pub nice_name : Text
  pub provider : Text
  pub certificate : Text
  pub certificate_key : Text

unfoldable pub create_empty_custom_certificate : Client → Text → Action Certificate
create_empty_custom_certificate c name = do
  let body = object ((txt "nice_name", str name) ∷ (txt "provider", str custom_provider) ∷ [])
  resp ← do_request c post_method (txt "/api/nginx/certificates") (json (obj body))
  read_response is_accepted (decode_certificate custom_meta) resp

unfoldable pub certificate_files_from_bytes : Text → Text → Body
certificate_files_from_bytes certificate key = form (
    record {
      field_name = txt "certificate";
      file_name = txt "certificate.pem";
      content = certificate;
    }
    ∷ record {
      field_name = txt "certificate_key";
      file_name = txt "certificate_key.key";
      content = key;
    }
    ∷ [])

-- The request of a form: the token's header is set also when the token is empty.
unfoldable pub post_form : Client → Text → Body → Action Response
post_form c path body = do
  let url = c.endpoint ++ path
  valid ← read (λ env. env.valid_url url)
  if valid
      then (send
            (record { method = post_method; url = url; authorization = some c.token; body = body })
          >>= receive)
      else fail request_failed

unfoldable pub validate_custom_certificate :
    Client → Text → Text → Action CertificateValidationResponse
unfolding certificate_files_from_bytes post_form
validate_custom_certificate c certificate key = do
  let body = certificate_files_from_bytes certificate key
  resp ← post_form c (txt "/api/nginx/certificates/validate") body
  read_response is_ok decode_validation resp

unfoldable pub upload_custom_certificate :
    Client → ℤ → Text → Text → Action CertificateUploadResponse
unfolding certificate_files_from_bytes post_form
upload_custom_certificate c id certificate key = do
  let body = certificate_files_from_bytes certificate key
  resp ← post_form c (txt "/api/nginx/certificates/" ++ (decimal id ++ txt "/upload")) body
  read_response is_ok decode_upload resp

unfoldable pub get_custom_certificates : Client → Action (List Certificate)
get_custom_certificates c =
    get_list c (txt "/api/nginx/certificates") (decode_certificate custom_meta)

unfoldable pub find_custom_certificate_by_id : Client → ℤ → Action (Option Certificate)
unfolding get_custom_certificates
find_custom_certificate_by_id c id = do
  certificates ← get_custom_certificates c
  pure (unbound (find (λ cert. cert.id == id && cert.provider == custom_provider) certificates))

unfoldable pub find_custom_certificate_by_name : Client → Text → Action (Option Certificate)
unfolding get_custom_certificates
find_custom_certificate_by_name c name = do
  certificates ← get_custom_certificates c
  pure (
      unbound
        (find (λ cert. cert.nice_name == name && cert.provider == custom_provider) certificates))

unfoldable pub create_custom_certificate :
    Client → CreateCustomCertificateRequest → Action (Option Certificate)
create_custom_certificate c r = do
  validated ← validate_custom_certificate c r.certificate r.certificate_key
  empty ← create_empty_custom_certificate c r.nice_name
  uploaded ← upload_custom_certificate c empty.id r.certificate r.certificate_key
  find_custom_certificate_by_id c empty.id
