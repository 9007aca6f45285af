-- ===== src/Tests/Watches.antt =====
-- The theorems about the watches, the ends of the reconciliations and the requests that they send.
use nginxpm_operator.Base.{
  false, contains, ◌≡◌, ◌↔◌, arith, pos, true, List, [], ◌∷◌, map, filter, find, none, any, All, In,
  text-Eq, text_eq, list_eq, refl, txt, some, ◌⊎◌,
}
use nginxpm_operator.Api.{NamespacedName, ProxyHost, Service, Token, AccessList}
use nginxpm_operator.Effect.{Env, Kube, found, ok, reply, monad}
use nginxpm_operator.Effect.Traffic.{IsRead}
use nginxpm_operator.Controller.{
  ReconcileResult, secret_value, starting, init_nginxpm_client, token_keys, token_namespaces,
  token_names, first_token, usable, open_client,
}
use nginxpm_operator.Controller.Resources.{
  proxy_host-Resource, stream-Resource, token-Resource, access_list-Resource,
  lets_encrypt_certificate-Resource,
}
use nginxpm_operator.Controller.Watches.{request_of}
use nginxpm_operator.Controller.Sending.{token_request}
use nginxpm_operator.ProxyHosts.Watches.{
  find_services_for_proxy_host, find_proxy_hosts_for_pod, same_request,
}
use nginxpm_operator.ProxyHosts.Watches.Requests.{AreDistinct}
use nginxpm_operator.ProxyHosts.Watches.Services.{uses_service, find_services_for_proxy_host_iff}
use nginxpm_operator.ProxyHosts.Watches.Pods.{host_concerned, find_proxy_hosts_for_pod-filter}
use nginxpm_operator.Streams.Watches.{find_streams_for_pod}
use nginxpm_operator.Streams.Watches.Pods.{stream_concerned, find_streams_for_pod-filter}
use nginxpm_operator.Streams.Reconcile as StreamReconcile
use nginxpm_operator.AccessLists
use nginxpm_operator.AccessLists.Requests.{write_request, list_request, reconcile-requests}
use nginxpm_operator.Effect.Sending.{requests}
use nginxpm_operator.Npm.{
  find_access_list_by_id, get_list, do_request, receive, read_response, decode_body, find_by_id,
  Client, object, check_connection, check_status, check_token_access, new_client_from_token,
  create_client_token, new_client, decode_token_response,
}
use nginxpm_operator.Json.{decode_list, obj, str, get, decode_fields, decode_text}
use nginxpm_operator.Tokens
use nginxpm_operator.Tokens.{TokenResult, has_valid_token, init_client, connect, clock}
use nginxpm_operator.Tokens.Credentials.{reconcile-IsRead}
use nginxpm_operator.Tokens.Source.{IsKept, IsNew, init_client-IsNew}
use nginxpm_operator.Certificates.Reconcile
use nginxpm_operator.Certificates.LetsEncrypt.{lets_encrypt_certificates}
use nginxpm_operator.Lifecycle.{reconcile-Answers_all}
use nginxpm_operator.Tests.World.{
  store, world, empty_world, client, list_of_users, request, new_host, to_service, stream_host, pod,
  service, login,
}

-- A host with a service, and one without.
abbrev service_host : ProxyHost
service_host = record new_host {
  metadata = record new_host.metadata { name = txt "api" };
  spec = record new_host.spec { forward = to_service };
}

abbrev hosts : List ProxyHost
hosts = service_host ∷ new_host ∷ []

abbrev listing : Env
listing = record world { proxy_hosts = record world.proxy_hosts { list = λ t. found hosts } }

find_services_for_proxy_host_iff_example :
    (requests : List NamespacedName) × ((find_services_for_proxy_host (txt "app") listing []).0
      ≡ ok requests)
    × AreDistinct requests
    × ((q : NamespacedName)
        → In q requests ↔ (
            (ph : ProxyHost) × In ph hosts
            × (request_of ph ≡ q)
            × (uses_service (txt "app") ph ≡ true)))
unfolding any same_request text_eq list_eq
find_services_for_proxy_host_iff_example =
    find_services_for_proxy_host_iff (txt "app") hosts listing [] (ground arith) (λ h. refl)
      (refl, (refl, tt))

abbrev services : NamespacedName → Kube Service
services key = found service

find_proxy_hosts_for_pod-filter_example :
    (find_proxy_hosts_for_pod pod listing []).0
    ≡ ok (map request_of (filter (host_concerned listing services pod) hosts))
find_proxy_hosts_for_pod-filter_example =
    find_proxy_hosts_for_pod-filter pod hosts listing services [] (λ h. refl) (λ h key. refl)

find_streams_for_pod-filter_example :
    (find_streams_for_pod pod world []).0
    ≡ ok (map request_of (filter (stream_concerned world services pod) (stream_host ∷ [])))
find_streams_for_pod-filter_example =
    find_streams_for_pod-filter pod (stream_host ∷ []) world services [] (λ h. refl) (λ h key. refl)

reconcile-Answers_all_example :
    ((result : ReconcileResult) × ((StreamReconcile.reconcile request world []).0 ≡ ok result))
    × ((result : ReconcileResult) × ((AccessLists.reconcile request world []).0 ≡ ok result))
    × ((result : TokenResult) × ((Tokens.reconcile request world []).0 ≡ ok result))
    × ((result : ReconcileResult) × ((Reconcile.reconcile lets_encrypt_certificates request world
            []).0
          ≡ ok result))
reconcile-Answers_all_example = reconcile-Answers_all request world []

-- The token of the world expires at 9, and the clock stands at 1.
reconcile-IsRead_example : All IsRead (Tokens.reconcile request world []).1
reconcile-IsRead_example =
    reconcile-IsRead request login (txt "secret") (pos 9) world [] refl refl refl (λ h. refl) tt

-- An access list that stays; the instance lists nothing, so it is created anew.
abbrev staying : AccessList
staying = record list_of_users {
  metadata = record list_of_users.metadata { deleting = false };
  status = record list_of_users.status { conditions = starting ∷ [] };
}

abbrev forgetful : Env
forgetful = record empty_world { access_lists = store staying }

reconcile-requests_example :
    requests (AccessLists.reconcile request forgetful []).1
    ≡ write_request client staying none ∷ list_request client ∷ token_request client ∷ []
unfolding find_access_list_by_id get_list do_request receive read_response decode_body decode_list
    find_by_id find contains text_eq list_eq init_nginxpm_client token_keys token_namespaces
    token_names first_token usable open_client check_token_access check_status new_client_from_token
    monad
reconcile-requests_example =
    reconcile-requests request staying client (pos 7) none forgetful [] (λ p. refl) refl refl refl
      refl refl refl refl

-- A token resource with nothing in its status, and an instance that issues a token.
abbrev issuing : Env
issuing = record world {
  http = λ t r. reply 200 (
      some (
        obj (object ((txt "token", str (txt "fresh")) ∷ (txt "expires", str (txt "later")) ∷ []))));
  parse_time = λ s. some (pos 99);
  secrets = λ t key. found ((txt "identity", txt "me") ∷ (txt "secret", txt "pass") ∷ []);
}

abbrev new_login : Token
new_login = record login { status = record login.status { token = none } }

abbrev issued : Client
issued = record { endpoint = txt "http://npm:81"; token = txt "fresh"; expires = pos 99 }

init_client-IsNew_example : IsKept issuing new_login issued ⊎ IsNew issuing request new_login issued
unfolding init_client connect has_valid_token clock secret_value check_connection
    create_client_token new_client do_request receive read_response check_status decode_body
    decode_token_response decode_fields decode_text get text_eq list_eq find monad
init_client-IsNew_example = init_client-IsNew request new_login issuing [] issued refl
