-- ===== src/Npm/Settling.antt =====
-- Nil dereferences in the calls of the client. Those that enable or disable a host are left out:
-- they read a pointer that may be nil.
use nginxpm_operator.Base.{Bool, Option, none, some, ℤ, ℕ, Text}
use nginxpm_operator.Json.{Decoder}
use nginxpm_operator.Effect.{Method, Body, Reply, no_reply, reply}
use nginxpm_operator.Effect.Returns.{Settles, settles_rules}
use nginxpm_operator.Npm.Types.{ProxyHost}
use nginxpm_operator.Npm.Requests.{
  Client, Response, receive, do_request, read_response, check_status, get_list, check_token_access,
  check_connection, create_client_token,
}
use nginxpm_operator.Npm.Certificates.{find_certificate_by_id, get_certificates}
use nginxpm_operator.Npm.ProxyHosts.{
  get_proxy_hosts, find_proxy_host_by_id, delete_existing, delete_proxy_host, update_proxy_host,
  ProxyHostRequestInput,
}
use nginxpm_operator.Npm.Streams.{
  StreamRequestInput, delete_stream, find_stream_by_id, create_stream, update_stream,
}
use nginxpm_operator.Npm.AccessLists.{
  AccessListRequestInput, delete_access_list, find_access_list_by_id, create_access_list,
  update_access_list,
}

pub receive-Settles : (r : Reply) → Settles (receive r)
unfolding receive
receive-Settles no_reply = search settles_rules
receive-Settles (reply status body) = search settles_rules

pub do_request-Settles :
    (c : Client) (m : Method) (path : Text) (b : Body) → Settles (do_request c m path b)
unfolding do_request
do_request-Settles c m path b = search (settles_rules, receive-Settles)

pub read_response-Settles :
    {A : Type 0} (accepts : ℕ → Bool) (d : Decoder A) (r : Response)
    → Settles (read_response accepts d r)
unfolding read_response
read_response-Settles accepts d r = search settles_rules

pub check_status-Settles : (r : Response) → Settles (check_status r)
unfolding check_status
check_status-Settles r = search settles_rules

pub ruleset call_rules =
    (settles_rules, do_request-Settles, read_response-Settles, check_status-Settles)

pub get_list-Settles :
    {A : Type 0} (c : Client) (path : Text) (d : Decoder A) → Settles (get_list c path d)
unfolding get_list
get_list-Settles c path d = search call_rules

module _ (c : Client) where
  pub check_token_access-Settles : Settles (check_token_access c)
  unfolding check_token_access
  check_token_access-Settles = search call_rules

  pub check_connection-Settles : Settles (check_connection c)
  unfolding check_connection
  check_connection-Settles = search call_rules

  pub create_client_token-Settles :
      (identity secret : Text) → Settles (create_client_token c identity secret)
  unfolding create_client_token
  create_client_token-Settles identity secret = search call_rules depth 8

  get_certificates-Settles : Settles (get_certificates c)
  unfolding get_certificates
  get_certificates-Settles = search (call_rules, get_list-Settles)

  pub find_certificate_by_id-Settles : (id : ℤ) → Settles (find_certificate_by_id c id)
  unfolding find_certificate_by_id
  find_certificate_by_id-Settles id = search (call_rules, get_certificates-Settles)

  get_proxy_hosts-Settles : (path : Text) → Settles (get_proxy_hosts c path)
  unfolding get_proxy_hosts
  get_proxy_hosts-Settles path = search (call_rules, get_list-Settles)

  pub find_proxy_host_by_id-Settles : (id : ℤ) → Settles (find_proxy_host_by_id c id)
  unfolding find_proxy_host_by_id
  find_proxy_host_by_id-Settles id = search (call_rules, get_proxy_hosts-Settles)

  delete_existing-Settles : (id : ℤ) (o : Option ProxyHost) → Settles (delete_existing c id o)
  unfolding delete_existing
  delete_existing-Settles id none = search call_rules
  delete_existing-Settles id (some h) = search call_rules

  pub delete_proxy_host-Settles : (id : ℤ) → Settles (delete_proxy_host c id)
  unfolding delete_proxy_host
  delete_proxy_host-Settles id =
      search (call_rules, find_proxy_host_by_id-Settles, delete_existing-Settles)

  pub update_proxy_host-Settles :
      (id : ℤ) (input : ProxyHostRequestInput) → Settles (update_proxy_host c id input)
  unfolding update_proxy_host
  update_proxy_host-Settles id input = search call_rules

  pub delete_stream-Settles : (id : ℤ) → Settles (delete_stream c id)
  unfolding delete_stream
  delete_stream-Settles id = search call_rules

  pub find_stream_by_id-Settles : (id : ℤ) → Settles (find_stream_by_id c id)
  unfolding find_stream_by_id
  find_stream_by_id-Settles id = search (call_rules, get_list-Settles)

  pub create_stream-Settles : (input : StreamRequestInput) → Settles (create_stream c input)
  unfolding create_stream
  create_stream-Settles input = search call_rules

  pub update_stream-Settles :
      (id : ℤ) (input : StreamRequestInput) → Settles (update_stream c id input)
  unfolding update_stream
  update_stream-Settles id input = search call_rules

  pub delete_access_list-Settles : (id : ℤ) → Settles (delete_access_list c id)
  unfolding delete_access_list
  delete_access_list-Settles id = search call_rules

  pub find_access_list_by_id-Settles : (id : ℤ) → Settles (find_access_list_by_id c id)
  unfolding find_access_list_by_id
  find_access_list_by_id-Settles id = search (call_rules, get_list-Settles)

  pub create_access_list-Settles :
      (input : AccessListRequestInput) → Settles (create_access_list c input)
  unfolding create_access_list
  create_access_list-Settles input = search call_rules

  pub update_access_list-Settles :
      (id : ℤ) (input : AccessListRequestInput) → Settles (update_access_list c id input)
  unfolding update_access_list
  update_access_list-Settles id input = search call_rules
