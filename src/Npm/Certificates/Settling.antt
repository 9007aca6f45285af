-- ===== src/Npm/Certificates/Settling.antt =====
-- Nil dereferences in the calls that find, create and delete certificates.
use nginxpm_operator.Base.{Bool, true, Option, none, some, List, [], ◌∷◌, ℤ, Text}
use nginxpm_operator.Effect.{Body}
use nginxpm_operator.Effect.Returns.{Settles}
use nginxpm_operator.Npm.Types.{Certificate}
use nginxpm_operator.Npm.Requests.{Client}
use nginxpm_operator.Npm.Certificates.{delete_certificate}
use nginxpm_operator.Npm.LetsEncrypt.{
  CreateLetEncryptCertificateRequest, find_let_encrypt_certificate,
  find_let_encrypt_certificate_by_id, existing_certificate, request_let_encrypt, reuse_or_request,
  create_let_encrypt_certificate,
}
use nginxpm_operator.Npm.CustomCertificates.{
  CreateCustomCertificateRequest, create_empty_custom_certificate, post_form,
  validate_custom_certificate, upload_custom_certificate, get_custom_certificates,
  find_custom_certificate_by_id, create_custom_certificate,
}
use nginxpm_operator.Npm.Settling.{call_rules, receive-Settles, get_list-Settles}

module _ (c : Client) where
  pub delete_certificate-Settles : (id : ℤ) → Settles (delete_certificate c id)
  unfolding delete_certificate
  delete_certificate-Settles id = search call_rules

  find_let_encrypt_certificate-Settles :
      (domain : Text) → Settles (find_let_encrypt_certificate c domain)
  unfolding find_let_encrypt_certificate
  find_let_encrypt_certificate-Settles domain = search (call_rules, get_list-Settles)

  pub find_let_encrypt_certificate_by_id-Settles :
      (id : ℤ) → Settles (find_let_encrypt_certificate_by_id c id)
  unfolding find_let_encrypt_certificate_by_id
  find_let_encrypt_certificate_by_id-Settles id = search (call_rules, get_list-Settles)

  existing_certificate-Settles :
      (later : Bool) (existing : Option Certificate) (domains : List Text)
      → Settles (existing_certificate c later existing domains)
  unfolding existing_certificate
  existing_certificate-Settles later existing [] = search call_rules
  existing_certificate-Settles later existing (d ∷ ds) =
      let rest = λ (found : Option Certificate). existing_certificate-Settles true found ds in
      search (call_rules, find_let_encrypt_certificate-Settles, rest)

  request_let_encrypt-Settles :
      (r : CreateLetEncryptCertificateRequest) → Settles (request_let_encrypt c r)
  unfolding request_let_encrypt
  request_let_encrypt-Settles r = search call_rules

  reuse_or_request-Settles :
      (r : CreateLetEncryptCertificateRequest) (o : Option Certificate)
      → Settles (reuse_or_request c r o)
  unfolding reuse_or_request
  reuse_or_request-Settles r none = request_let_encrypt-Settles r
  reuse_or_request-Settles r (some cert) = search call_rules

  pub create_let_encrypt_certificate-Settles :
      (r : CreateLetEncryptCertificateRequest) → Settles (create_let_encrypt_certificate c r)
  unfolding create_let_encrypt_certificate
  create_let_encrypt_certificate-Settles r =
      search (call_rules, existing_certificate-Settles, reuse_or_request-Settles)

  post_form-Settles : (path : Text) (body : Body) → Settles (post_form c path body)
  unfolding post_form
  post_form-Settles path body = search (call_rules, receive-Settles)

  validate-Settles :
      (certificate key : Text) → Settles (validate_custom_certificate c certificate key)
  unfolding validate_custom_certificate
  validate-Settles certificate key = search (call_rules, post_form-Settles)

  upload-Settles :
      (id : ℤ) (certificate key : Text) → Settles (upload_custom_certificate c id certificate key)
  unfolding upload_custom_certificate
  upload-Settles id certificate key = search (call_rules, post_form-Settles)

  empty-Settles : (name : Text) → Settles (create_empty_custom_certificate c name)
  unfolding create_empty_custom_certificate
  empty-Settles name = search call_rules

  pub find_custom_certificate_by_id-Settles :
      (id : ℤ) → Settles (find_custom_certificate_by_id c id)
  unfolding find_custom_certificate_by_id get_custom_certificates
  find_custom_certificate_by_id-Settles id = search (call_rules, get_list-Settles)

  pub create_custom_certificate-Settles :
      (r : CreateCustomCertificateRequest) → Settles (create_custom_certificate c r)
  unfolding create_custom_certificate
  create_custom_certificate-Settles r = search (
    call_rules, validate-Settles, upload-Settles, empty-Settles,
    find_custom_certificate_by_id-Settles,
  )
