-- ===== src/Tests/Others.antt =====
-- The theorems about the client, the shared helpers and the other resources, in the small world.
use nginxpm_operator.Base.{
  ◌==◌, some, ◌&&◌, if◌then◌else◌, true, false, ◌≡◌, ◌↔◌, inl, inr, refl, none, List, [], ◌∷◌, ◌++◌,
  length, nat-Eq, text-Eq, text_eq, list_eq, find, any, contains, pos, Text, txt,
}
use nginxpm_operator.Base.Strings.{
  split, join, trim_suffix, query_escape, to_lower, contains_text, has_prefix,
}
use nginxpm_operator.Json.{
  Fields, obj, str, get, decode_int, decode_bool, decode_text, decode_pointer, decode_list,
  decode_fields,
}
use nginxpm_operator.Npm.{
  domains_match, access_list_path, stream_path, CreateLetEncryptCertificateRequest,
  create_let_encrypt_certificate, find_let_encrypt_certificate, match_let_encrypt, domain_covers,
  get_list, do_request, receive, read_response, decode_body, decode_certificate, lets_encrypt_meta,
  check_token_access, check_status, new_client_from_token, custom_field_unscoped_config,
  build_stream_request_body, delete_proxy_host, find_proxy_host_by_id, get_proxy_hosts, find_by_id,
  decode_proxy_host, decode_nginx_meta, decode_location, proxy_host_path,
}
use nginxpm_operator.Npm.Deletion.{deletion, delete_proxy_host-History}
use nginxpm_operator.Npm.ProxyHosts.Matching.{SameDomains, domains_match_iff}
use nginxpm_operator.Npm.LetsEncrypt.Reuse.{create_let_encrypt_certificate-last}
use nginxpm_operator.Util.{extract_root_domain}
use nginxpm_operator.Api
use nginxpm_operator.Api.{ServicePort}
use nginxpm_operator.Effect.{sent, ok, monad}
use nginxpm_operator.Controller.{
  generate_nginx_upstream_name, update_status, run_attempts, status_attempt, init_nginxpm_client,
  token_keys, token_namespaces, token_names, first_token, usable, open_client, get_pods_host_ips,
  collect_ips, add_ip, node_ip,
}
use nginxpm_operator.Controller.Resources.{proxy_host-Resource, token-Resource}
use nginxpm_operator.Controller.StatusUpdate.{Stored, update_status-Stored}
use nginxpm_operator.Controller.TokenSearch.{Opened, init_nginxpm_client-Opened}
use nginxpm_operator.Controller.PodAddresses.{AreAddresses, get_pods_host_ips-AreAddresses}
use nginxpm_operator.Controller.UpstreamNames.{generate_nginx_upstream_name-collision}
use nginxpm_operator.AccessLists
use nginxpm_operator.Streams.Reconcile.Body.{has_unscoped_config, with_custom_fields-body_stream}
use nginxpm_operator.AccessLists.Lifecycle.{delete_resource-let_go}
use nginxpm_operator.Streams.Reconcile
use nginxpm_operator.Streams.Reconcile.Lifecycle.{delete_resource-let_go_stream}
use nginxpm_operator.Streams.Forward.{StreamForward, make_forward, forward_when_not_node_port_type}
use nginxpm_operator.Streams.Forward.Outcome.{IsTarget, make_forward-IsTarget_stream}
use nginxpm_operator.Streams.Ports.{select_port, match_port, port_matched, service_destination_port}
use nginxpm_operator.Streams.Ports.Choice.{IsChosen, select_port-IsChosen_stream}
use nginxpm_operator.Tests.World.{
  once_more-IsRetry, listed, request, new_host, stream_host, list_of_users, client, reference,
  world, port, pod, certificate, login,
}

delete_resource-let_go_example :
    AccessLists.delete_resource list_of_users client world []
    ≡ AccessLists.let_go list_of_users world
        (sent (deletion client (access_list_path (pos 7))) ∷ [])
unfolding contains text_eq list_eq
delete_resource-let_go_example =
    delete_resource-let_go list_of_users client (pos 7) world [] refl refl refl

delete_resource-let_go_stream_example :
    Reconcile.delete_resource stream_host client world []
    ≡ Reconcile.let_go stream_host world (sent (deletion client (stream_path (pos 7))) ∷ [])
unfolding contains text_eq list_eq
delete_resource-let_go_stream_example =
    delete_resource-let_go_stream stream_host client (pos 7) world [] refl refl refl

abbrev go_online : Api.ProxyHost → Api.ProxyHost
go_online o = record o { status = record o.status { online = true } }

update_status-Stored_example :
    Stored request
      (λ env o. go_online o)
      world
      (go_online new_host)
      (update_status request (λ env o. go_online o) new_host world []).1
unfolding update_status run_attempts status_attempt
update_status-Stored_example =
    update_status-Stored request (λ env o. go_online o) new_host world [] (go_online new_host)
      once_more-IsRetry refl

init_nginxpm_client-Opened_example :
    Opened world
      (token_keys (token_namespaces (txt "default") none) (token_names none))
      (new_client_from_token login)
unfolding init_nginxpm_client token_keys token_namespaces token_names first_token usable open_client
    check_token_access check_status do_request receive text_eq list_eq monad
init_nginxpm_client-Opened_example =
    init_nginxpm_client-Opened world (txt "default") none (new_client_from_token login) [] refl

get_pods_host_ips-AreAddresses_example :
    AreAddresses world (pod ∷ pod ∷ []) (txt "192.168.0.2" ∷ [])
unfolding get_pods_host_ips collect_ips add_ip node_ip contains find text_eq list_eq monad
get_pods_host_ips-AreAddresses_example =
    get_pods_host_ips-AreAddresses world (pod ∷ pod ∷ []) (txt "192.168.0.2" ∷ []) [] refl

generate_nginx_upstream_name-collision_example :
    generate_nginx_upstream_name
      (λ s. s)
      (txt "web" ++ txt "-" ++ txt "api")
      (txt "prod")
      (record { hostname = txt "10.0.0.1"; port = pos 80 } ∷ [])
    ≡ generate_nginx_upstream_name
        (λ s. s)
        (txt "web")
        (txt "api" ++ txt "-" ++ txt "prod")
        (record { hostname = txt "10.0.0.1"; port = pos 80 } ∷ [])
generate_nginx_upstream_name-collision_example =
    generate_nginx_upstream_name-collision (λ s. s) (txt "web") (txt "api") (txt "prod")
      (record { hostname = txt "10.0.0.1"; port = pos 80 } ∷ [])

abbrev two_domains : List Text
two_domains = txt "a.org" ∷ txt "b.org" ∷ []

domains_match_iff_example : (domains_match (txt "b.org" ∷ txt "a.org" ∷ []) two_domains ≡ true) ↔ (
    (length (txt "b.org" ∷ txt "a.org" ∷ []) ≡ length two_domains)
    × SameDomains (txt "b.org" ∷ txt "a.org" ∷ []) two_domains)
unfolding contains text_eq list_eq
domains_match_iff_example =
    domains_match_iff (txt "b.org" ∷ txt "a.org" ∷ []) two_domains (refl, (refl, tt))

select_port-IsChosen_stream_example :
    IsChosen
      (λ p. p.node_port)
      (port ∷ [])
      reference
      (select_port (λ p. p.node_port) (port ∷ []) reference false true)
select_port-IsChosen_stream_example =
    select_port-IsChosen_stream (λ p. p.node_port) port [] reference false true

abbrev forwarded : StreamForward
forwarded = record { host = txt "10.96.0.5"; port = pos 8080; nginx_upstream_configs = [] }

forwarded_by_service : (make_forward false stream_host request world []).0 ≡ ok forwarded
unfolding make_forward forward_when_not_node_port_type select_port service_destination_port
    match_port port_matched to_lower contains_text has_prefix find text_eq list_eq monad
forwarded_by_service = refl

make_forward-IsTarget_stream_example : IsTarget false forwarded
make_forward-IsTarget_stream_example =
    make_forward-IsTarget_stream false stream_host request reference world [] forwarded refl refl
      forwarded_by_service

abbrev for_both : CreateLetEncryptCertificateRequest
for_both = record {
  domain_names = txt "a.example.com" ∷ txt "b.example.org" ∷ [];
  meta = record {
    dns_challenge = false;
    dns_provider = [];
    dns_provider_credentials = [];
    lets_encrypt_agree = true;
    lets_encrypt_email = txt "x@example.org";
  };
}

-- The certificate of the world covers the second domain only.
create_let_encrypt_certificate-last_example :
    (create_let_encrypt_certificate client for_both world []).0
    ≡ ok (record certificate { bound = true })
unfolding find_let_encrypt_certificate match_let_encrypt domain_covers get_list do_request receive
    read_response decode_body decode_certificate lets_encrypt_meta decode_pointer decode_list
    decode_fields decode_int decode_bool decode_text get text_eq list_eq find any
    extract_root_domain split join trim_suffix query_escape monad
create_let_encrypt_certificate-last_example =
    create_let_encrypt_certificate-last client world certificate for_both (txt "a.example.com" ∷ [])
      (txt "b.example.org") [] refl (λ d i. elim i [ inl e ↦ rw e (λ t. refl) | inr b ↦ absurd b ])
      (λ t. refl)

with_custom_fields-body_stream_example :
    (body : Fields) × (plain : Fields) × (build_stream_request_body
        (Reconcile.with_custom_fields forwarded none
          (Reconcile.request_input stream_host forwarded (pos 3))).0
      ≡ obj body)
    × (build_stream_request_body (Reconcile.request_input stream_host forwarded (pos 3))
        ≡ obj plain)
    × ((k : Text)
        → get k body ≡ (
            if has_unscoped_config none && custom_field_unscoped_config == k
            then str forwarded.nginx_upstream_configs
            else get k plain))
with_custom_fields-body_stream_example =
    with_custom_fields-body_stream stream_host forwarded (pos 3) none

delete_proxy_host-History_example :
    (delete_proxy_host client (pos 7) world []).1
    ≡ sent (deletion client (proxy_host_path (pos 7)))
      ∷ (find_proxy_host_by_id client (pos 7) world []).1
unfolding find_proxy_host_by_id get_proxy_hosts get_list do_request receive read_response
    decode_body decode_list decode_proxy_host decode_nginx_meta decode_location decode_pointer
    decode_fields decode_int decode_bool decode_text get text_eq list_eq find_by_id find monad
delete_proxy_host-History_example =
    delete_proxy_host-History client (pos 7) (some listed) world [] refl refl
