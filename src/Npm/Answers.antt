-- ===== src/Npm/Answers.antt =====
-- The answers about custom certificates (pkg/nginxpm/custom_certificate.go) and how they decode.
use nginxpm_operator.Base.{Bool, some, Text, txt, ℤ}
use nginxpm_operator.Json.{get, Decoder, decode_int, decode_text, decode_bool, decode_fields, ◌>>=◌}

pub record CertificateValidationDate : Type 0 where
  pub from : ℤ
  pub to : ℤ

pub record CertificateValidationDateCert : Type 0 where
  pub cn : Text
  pub issuer : Text
  pub dates : CertificateValidationDate

pub record CertificateValidationResponse : Type 0 where
  pub certificate : CertificateValidationDateCert
  pub certificate_key : Bool

pub record CertificateUploadResponse : Type 0 where
  pub certificate : Text
  pub certificate_key : Text

decode_dates : Decoder CertificateValidationDate
decode_dates j = do
  fs ← decode_fields j
  from ← decode_int (get (txt "from") fs)
  to ← decode_int (get (txt "to") fs)
  some (record { from = from; to = to })

decode_validated : Decoder CertificateValidationDateCert
unfolding decode_dates
decode_validated j = do
  fs ← decode_fields j
  cn ← decode_text (get (txt "cn") fs)
  issuer ← decode_text (get (txt "issuer") fs)
  dates ← decode_dates (get (txt "dates") fs)
  some (record { cn = cn; issuer = issuer; dates = dates })

unfoldable pub decode_validation : Decoder CertificateValidationResponse
unfolding decode_validated
decode_validation j = do
  fs ← decode_fields j
  certificate ← decode_validated (get (txt "certificate") fs)
  certificate_key ← decode_bool (get (txt "certificate_key") fs)
  some (record { certificate = certificate; certificate_key = certificate_key })

unfoldable pub decode_upload : Decoder CertificateUploadResponse
decode_upload j = do
  fs ← decode_fields j
  certificate ← decode_text (get (txt "certificate") fs)
  certificate_key ← decode_text (get (txt "certificate_key") fs)
  some (record { certificate = certificate; certificate_key = certificate_key })
