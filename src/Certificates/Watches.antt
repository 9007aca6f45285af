-- ===== src/Certificates/Watches.antt =====
-- The indexes and the watches of letsencryptcertificate_controller.go and of
-- customcertificate_controller.go: which certificates are reconciled when a token or a secret
-- changes. Only the secrets of DNS challenges are looked for in the namespace of the secret.
use nginxpm_operator.Base.{Option, none, some, List, [], Text}
use nginxpm_operator.Api.{NamespacedName, LetsEncryptCertificate, CustomCertificate, DnsChallenge}
use nginxpm_operator.Effect.{Action}
use nginxpm_operator.Controller.Resources.{
  lets_encrypt_certificate-Resource, custom_certificate-Resource,
}
use nginxpm_operator.Controller.Watches.{
  name_index, token_index, find_objects_for_map, find_objects_in_namespace,
}

unfoldable pub custom_token_index : CustomCertificate → List Text
custom_token_index cc = token_index cc.spec.token

unfoldable pub lets_encrypt_token_index : LetsEncryptCertificate → List Text
lets_encrypt_token_index lec = token_index lec.spec.token

unfoldable pub dns_secret_index : Option DnsChallenge → List Text
dns_secret_index none = []
dns_secret_index (some challenge) = name_index challenge.provider_credentials.secret.name

unfoldable pub certificate_secret_index : CustomCertificate → List Text
certificate_secret_index cc = name_index cc.spec.certificate.secret.name

unfoldable pub find_lets_encrypt_certificates_for_token : Text → Action (List NamespacedName)
find_lets_encrypt_certificates_for_token =
    find_objects_for_map {O = LetsEncryptCertificate} lets_encrypt_token_index

unfoldable pub find_lets_encrypt_certificates_for_secret :
    NamespacedName → Action (List NamespacedName)
find_lets_encrypt_certificates_for_secret secret =
    find_objects_in_namespace {O = LetsEncryptCertificate} secret.namespace
      (λ lec. dns_secret_index lec.spec.dns_challenge) secret.name

unfoldable pub find_custom_certificates_for_token : Text → Action (List NamespacedName)
find_custom_certificates_for_token = find_objects_for_map {O = CustomCertificate} custom_token_index

unfoldable pub find_custom_certificates_for_secret : NamespacedName → Action (List NamespacedName)
find_custom_certificates_for_secret secret =
    find_objects_for_map {O = CustomCertificate} certificate_secret_index secret.name
