-- ===== src/Npm/ReadOnly.antt =====
-- The calls of the client that only read.
use nginxpm_operator.Base.{ℕ, Bool, true, ◌≡◌, refl, ℤ, Text}
use nginxpm_operator.Json.{Decoder}
use nginxpm_operator.Effect.{Method, Body, Reply, no_reply, reply}
use nginxpm_operator.Effect.Emits.{Emits, emits_rules}
use nginxpm_operator.Effect.Traffic.{IsRead, is_get}
use nginxpm_operator.Npm.Requests.{
  Client, Response, do_request, receive, read_response, check_status, check_connection,
  check_token_access, get_list,
}
use nginxpm_operator.Npm.LetsEncrypt.{find_let_encrypt_certificate_by_id}
use nginxpm_operator.Npm.CustomCertificates.{get_custom_certificates, find_custom_certificate_by_id}

receive-IsRead : (r : Reply) → Emits IsRead (receive r)
unfolding receive
receive-IsRead no_reply = search emits_rules
receive-IsRead (reply status body) = search emits_rules

do_request-IsRead :
    (c : Client) (m : Method) (path : Text) (body : Body)
    → is_get m ≡ true
    → Emits IsRead (do_request c m path body)
unfolding do_request
do_request-IsRead c m path body h = search (emits_rules, receive-IsRead, h)

read_response-IsRead :
    {A : Type 0} (accepts : ℕ → Bool) (d : Decoder A) (r : Response)
    → Emits IsRead (read_response accepts d r)
unfolding read_response
read_response-IsRead accepts d r = search emits_rules

check_status-IsRead : (r : Response) → Emits IsRead (check_status r)
unfolding check_status
check_status-IsRead r = search emits_rules

ruleset read_rules =
    (emits_rules, do_request-IsRead, read_response-IsRead, check_status-IsRead, refl)

get_list-IsRead :
    {A : Type 0} (c : Client) (path : Text) (d : Decoder A) → Emits IsRead (get_list c path d)
unfolding get_list
get_list-IsRead c path d = search read_rules

module _ (c : Client) where
  pub check_connection-IsRead : Emits IsRead (check_connection c)
  unfolding check_connection
  check_connection-IsRead = search read_rules

  pub check_token_access-IsRead : Emits IsRead (check_token_access c)
  unfolding check_token_access
  check_token_access-IsRead = search read_rules

  pub find_let_encrypt_certificate_by_id-IsRead :
      (id : ℤ) → Emits IsRead (find_let_encrypt_certificate_by_id c id)
  unfolding find_let_encrypt_certificate_by_id
  find_let_encrypt_certificate_by_id-IsRead id = search (read_rules, get_list-IsRead)

  pub find_custom_certificate_by_id-IsRead :
      (id : ℤ) → Emits IsRead (find_custom_certificate_by_id c id)
  unfolding find_custom_certificate_by_id get_custom_certificates
  find_custom_certificate_by_id-IsRead id = search (read_rules, get_list-IsRead)
