-- ===== src/Npm/NoDeletion.antt =====
-- DELETE requests in the calls of the client that are not named for it.
use nginxpm_operator.Base.{
  ℕ, Bool, true, false, ◌≡◌, refl, Option, none, some, List, [], ◌∷◌, ℤ, Text,
}
use nginxpm_operator.Json.{Decoder}
use nginxpm_operator.Effect.{Method, Body, Reply, no_reply, reply}
use nginxpm_operator.Effect.Emits.{Emits, emits_rules}
use nginxpm_operator.Effect.Traffic.{IsNotDelete, is_delete}
use nginxpm_operator.Npm.Types.{Certificate}
use nginxpm_operator.Npm.Requests.{
  Client, Response, do_request, receive, read_response, check_status, check_token_access, get_list,
}
use nginxpm_operator.Npm.Certificates.{
  get_certificates, find_certificate_by_id, find_certificate_by_domain,
}
use nginxpm_operator.Npm.LetsEncrypt.{
  CreateLetEncryptCertificateRequest, find_let_encrypt_certificate, existing_certificate,
  request_let_encrypt, reuse_or_request, create_let_encrypt_certificate,
}
use nginxpm_operator.Npm.ProxyHosts.{
  ProxyHostRequestInput, get_proxy_hosts, find_proxy_host_by_id, find_proxy_host_by_domain, switch,
  enable_proxy_host, disable_proxy_host, create_proxy_host, update_proxy_host,
}
use nginxpm_operator.Npm.Streams.{
  StreamRequestInput, find_stream_by_id, create_stream, update_stream,
}
use nginxpm_operator.Npm.AccessLists.{
  AccessListRequestInput, find_access_list_by_id, create_access_list, update_access_list,
}

receive-IsNotDelete : (r : Reply) → Emits IsNotDelete (receive r)
unfolding receive
receive-IsNotDelete no_reply = search emits_rules
receive-IsNotDelete (reply status body) = search emits_rules

pub do_request-IsNotDelete :
    (c : Client) (m : Method) (path : Text) (body : Body)
    → is_delete m ≡ false
    → Emits IsNotDelete (do_request c m path body)
unfolding do_request
do_request-IsNotDelete c m path body h = search (emits_rules, receive-IsNotDelete, h)

read_response-IsNotDelete :
    {A : Type 0} (accepts : ℕ → Bool) (d : Decoder A) (r : Response)
    → Emits IsNotDelete (read_response accepts d r)
unfolding read_response
read_response-IsNotDelete accepts d r = search emits_rules

pub check_status-IsNotDelete : (r : Response) → Emits IsNotDelete (check_status r)
unfolding check_status
check_status-IsNotDelete r = search emits_rules

ruleset request_rules =
    (emits_rules, do_request-IsNotDelete, read_response-IsNotDelete, check_status-IsNotDelete, refl)

get_list-IsNotDelete :
    {A : Type 0} (c : Client) (path : Text) (d : Decoder A) → Emits IsNotDelete (get_list c path d)
unfolding get_list
get_list-IsNotDelete c path d = search request_rules

ruleset list_rules = (request_rules, get_list-IsNotDelete)

module _ (c : Client) where
  get_certificates-IsNotDelete : Emits IsNotDelete (get_certificates c)
  unfolding get_certificates
  get_certificates-IsNotDelete = search list_rules

  pub find_certificate_by_id-IsNotDelete :
      (id : ℤ) → Emits IsNotDelete (find_certificate_by_id c id)
  unfolding find_certificate_by_id
  find_certificate_by_id-IsNotDelete id = search list_rules

  pub find_certificate_by_domain-IsNotDelete :
      (domains : List Text) → Emits IsNotDelete (find_certificate_by_domain c domains)
  unfolding find_certificate_by_domain
  find_certificate_by_domain-IsNotDelete [] = search list_rules
  find_certificate_by_domain-IsNotDelete (d ∷ ds) = search list_rules

  find_let_encrypt_certificate-IsNotDelete :
      (domain : Text) → Emits IsNotDelete (find_let_encrypt_certificate c domain)
  unfolding find_let_encrypt_certificate
  find_let_encrypt_certificate-IsNotDelete domain = search list_rules

  existing_certificate-IsNotDelete :
      (later : Bool) (existing : Option Certificate) (domains : List Text)
      → Emits IsNotDelete (existing_certificate c later existing domains)
  unfolding existing_certificate
  existing_certificate-IsNotDelete later existing [] = search list_rules
  existing_certificate-IsNotDelete later existing (d ∷ ds) =
      let rest = λ (found : Option Certificate). existing_certificate-IsNotDelete true found ds in
      search (list_rules, find_let_encrypt_certificate-IsNotDelete, rest)

  request_let_encrypt-IsNotDelete :
      (r : CreateLetEncryptCertificateRequest) → Emits IsNotDelete (request_let_encrypt c r)
  unfolding request_let_encrypt
  request_let_encrypt-IsNotDelete r = search list_rules

  reuse_or_request-IsNotDelete :
      (r : CreateLetEncryptCertificateRequest) (o : Option Certificate)
      → Emits IsNotDelete (reuse_or_request c r o)
  unfolding reuse_or_request
  reuse_or_request-IsNotDelete r none = request_let_encrypt-IsNotDelete r
  reuse_or_request-IsNotDelete r (some cert) = search list_rules

  pub create_let_encrypt_certificate-IsNotDelete :
      (r : CreateLetEncryptCertificateRequest)
      → Emits IsNotDelete (create_let_encrypt_certificate c r)
  unfolding create_let_encrypt_certificate
  create_let_encrypt_certificate-IsNotDelete r =
      search (emits_rules, existing_certificate-IsNotDelete, reuse_or_request-IsNotDelete)

  get_proxy_hosts-IsNotDelete : (path : Text) → Emits IsNotDelete (get_proxy_hosts c path)
  unfolding get_proxy_hosts
  get_proxy_hosts-IsNotDelete path = search list_rules

  pub find_proxy_host_by_id-IsNotDelete : (id : ℤ) → Emits IsNotDelete (find_proxy_host_by_id c id)
  unfolding find_proxy_host_by_id
  find_proxy_host_by_id-IsNotDelete id = search (emits_rules, get_proxy_hosts-IsNotDelete)

  pub find_proxy_host_by_domain-IsNotDelete :
      (domains : List Text) → Emits IsNotDelete (find_proxy_host_by_domain c domains)
  unfolding find_proxy_host_by_domain
  find_proxy_host_by_domain-IsNotDelete [] = search list_rules
  find_proxy_host_by_domain-IsNotDelete (d ∷ ds) = search (emits_rules, get_proxy_hosts-IsNotDelete)

  switch-IsNotDelete : (id : ℤ) (verb : Text) → Emits IsNotDelete (switch c id verb)
  unfolding switch
  switch-IsNotDelete id verb = search list_rules

  pub enable_proxy_host-IsNotDelete : (id : ℤ) → Emits IsNotDelete (enable_proxy_host c id)
  unfolding enable_proxy_host
  enable_proxy_host-IsNotDelete id =
      search (emits_rules, find_proxy_host_by_id-IsNotDelete, switch-IsNotDelete)

  pub disable_proxy_host-IsNotDelete : (id : ℤ) → Emits IsNotDelete (disable_proxy_host c id)
  unfolding disable_proxy_host
  disable_proxy_host-IsNotDelete id =
      search (emits_rules, find_proxy_host_by_id-IsNotDelete, switch-IsNotDelete)

  pub create_proxy_host-IsNotDelete :
      (input : ProxyHostRequestInput) → Emits IsNotDelete (create_proxy_host c input)
  unfolding create_proxy_host
  create_proxy_host-IsNotDelete input = search list_rules

  pub update_proxy_host-IsNotDelete :
      (id : ℤ) (input : ProxyHostRequestInput) → Emits IsNotDelete (update_proxy_host c id input)
  unfolding update_proxy_host
  update_proxy_host-IsNotDelete id input = search list_rules

  pub find_access_list_by_id-IsNotDelete :
      (id : ℤ) → Emits IsNotDelete (find_access_list_by_id c id)
  unfolding find_access_list_by_id
  find_access_list_by_id-IsNotDelete id = search list_rules

  pub check_token_access-IsNotDelete : Emits IsNotDelete (check_token_access c)
  unfolding check_token_access
  check_token_access-IsNotDelete = search list_rules

module _ (c : Client) where
  pub create_access_list-IsNotDelete :
      (input : AccessListRequestInput) → Emits IsNotDelete (create_access_list c input)
  unfolding create_access_list
  create_access_list-IsNotDelete input = search list_rules

  pub update_access_list-IsNotDelete :
      (id : ℤ) (input : AccessListRequestInput) → Emits IsNotDelete (update_access_list c id input)
  unfolding update_access_list
  update_access_list-IsNotDelete id input = search list_rules

  pub find_stream_by_id-IsNotDelete : (id : ℤ) → Emits IsNotDelete (find_stream_by_id c id)
  unfolding find_stream_by_id
  find_stream_by_id-IsNotDelete id = search list_rules

  pub create_stream-IsNotDelete :
      (input : StreamRequestInput) → Emits IsNotDelete (create_stream c input)
  unfolding create_stream
  create_stream-IsNotDelete input = search list_rules

  pub update_stream-IsNotDelete :
      (id : ℤ) (input : StreamRequestInput) → Emits IsNotDelete (update_stream c id input)
  unfolding update_stream
  update_stream-IsNotDelete id input = search list_rules
