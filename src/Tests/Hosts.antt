-- ===== src/Tests/Hosts.antt =====
-- The theorems about hosts on the resources of the small world.
use nginxpm_operator.Base.{
  Bool, true, false, ◌≡◌, ◌↔◌, refl, Option, none, some, List, [], ◌∷◌, All, ◌&&◌, map, not,
  if◌then◌else◌, ◌==◌, int-Eq, text-Eq, text_eq, list_eq, find, pos, Text, txt, contains,
}
use nginxpm_operator.Base.Strings.{join, split, query_escape}
use nginxpm_operator.Errors.{conflict, kube}
use nginxpm_operator.Json.{
  Fields, obj, str, int, get, decode_int, decode_bool, decode_text, decode_pointer, decode_list,
  decode_fields,
}
use nginxpm_operator.Api
use nginxpm_operator.Api.{NamespacedName, InitialConfiguration, ServicePort}
use nginxpm_operator.Npm
use nginxpm_operator.Npm.Deletion.{deletion}
use nginxpm_operator.Npm.{
  proxy_host_path, ProxyHostRequestInput, find_proxy_host_by_id, delete_proxy_host, get_proxy_hosts,
  get_list, find_by_id, do_request, receive, read_response, decode_body, decode_proxy_host,
  base_body, build_proxy_host_request_body, custom_field_unscoped_config, authorization,
  find_proxy_host_by_domain, domains_match, decode_nginx_meta, decode_location,
}
use nginxpm_operator.Effect.{
  Env, sent, ok, panic, failed, fetched, updated, proxy_host, kind_proxy_host, monad,
}
use nginxpm_operator.Effect.Traffic.{IsNotDelete}
use nginxpm_operator.Controller.{
  retry_after, json_field_exists, proxy_host_fields, json_name, first_part, is_set, with_event,
  or_event,
}
use nginxpm_operator.ProxyHosts.InitialConfig.{
  capture_initial_configuration, build_restoration_input,
}
use nginxpm_operator.ProxyHosts.InitialConfig.RoundTrip.{Restores, restoration-capture}
use nginxpm_operator.ProxyHosts.Domains.{domains_should_be_unique, extract_domains}
use nginxpm_operator.ProxyHosts.Domains.Unique.{IsCompatible, domains_should_be_unique_iff}
use nginxpm_operator.ProxyHosts.Forward.{merge_nginx_upstream_configs}
use nginxpm_operator.ProxyHosts.Apply.{
  Located, locate, locate_by, applied_status, with_custom_fields, unscoped_config_supported,
}
use nginxpm_operator.ProxyHosts.Apply.Binding.{IsBound, locate-IsBound, locate-Keeps}
use nginxpm_operator.ProxyHosts.Apply.Body.{has_unscoped_config, with_custom_fields-body}
use nginxpm_operator.ProxyHosts.Reconcile.{delete_resource, let_go, reconcile}
use nginxpm_operator.ProxyHosts.Reconcile.Ownership.{delete_resource-bound}
use nginxpm_operator.ProxyHosts.Reconcile.Deletion.{
  delete_resource-created, delete_resource-host_gone,
}
use nginxpm_operator.ProxyHosts.Reconcile.Finalizer.{with_finalizer, reconcile-no_finalizer}
use nginxpm_operator.Streams.Reconcile as StreamReconcile
use nginxpm_operator.AccessLists
use nginxpm_operator.NoDeletion.{reconcile-IsNotDelete_each}
use nginxpm_operator.ProxyHosts.Reconcile.Restoration.{enabling, delete_resource-requests_bound}
use nginxpm_operator.Npm.Sending.Hosts.{update_request}
use nginxpm_operator.Effect.Sending.{requests}
use nginxpm_operator.Tests.World.{
  store, request, new_host, stream_host, list_of_users, bound_host, created_host, client, world,
  empty_world, listed,
}

delete_resource-bound_example :
    All IsNotDelete (delete_resource request bound_host client world []).1
delete_resource-bound_example = delete_resource-bound request bound_host client world [] refl tt

restoration-capture_example :
    (input : ProxyHostRequestInput) × (build_restoration_input
        (capture_initial_configuration (some listed))
      ≡ some input)
    × Restores listed input
restoration-capture_example = restoration-capture listed

-- A world in which the resources stay.
abbrev staying_stream : Api.Stream
staying_stream = record stream_host { metadata = record stream_host.metadata { deleting = false } }

abbrev staying_list : Api.AccessList
staying_list = record list_of_users {
  metadata = record list_of_users.metadata { deleting = false };
}

abbrev staying : Env
staying = record world { streams = store staying_stream; access_lists = store staying_list }

reconcile-IsNotDelete_each_example :
    All IsNotDelete (reconcile request staying []).1
    × All IsNotDelete (StreamReconcile.reconcile request staying []).1
    × All IsNotDelete (AccessLists.reconcile request staying []).1
reconcile-IsNotDelete_each_example =
    reconcile-IsNotDelete_each request new_host staying_stream staying_list staying [] refl refl
      refl refl refl refl tt

delete_resource-created_example :
    delete_resource request created_host client world []
    ≡ let_go request world (
        sent (deletion client (proxy_host_path (pos 7)))
        ∷ (find_proxy_host_by_id client (pos 7) world []).1)
unfolding contains text_eq list_eq find_proxy_host_by_id get_proxy_hosts get_list do_request receive
    read_response decode_body decode_list decode_proxy_host decode_nginx_meta decode_location
    decode_pointer decode_fields decode_int decode_bool decode_text get find_by_id find monad
delete_resource-created_example =
    delete_resource-created request created_host client (pos 7) (some listed) world [] refl refl
      refl refl refl

-- The empty instance has no host with the id.
delete_resource-host_gone_example :
    (delete_resource request bound_host client empty_world []).0 ≡ panic
unfolding contains text_eq list_eq find_proxy_host_by_id get_proxy_hosts get_list do_request receive
    read_response decode_body decode_list find_by_id find monad
delete_resource-host_gone_example =
    delete_resource-host_gone empty_world client (pos 7) (λ t. refl) request bound_host refl refl
      refl (λ config e. cc) []

-- The configuration of the listed host was captured before.
abbrev captured_host : Api.ProxyHost
captured_host = record bound_host {
  status = record bound_host.status {
    initial_configuration = capture_initial_configuration (some listed);
  };
}

delete_resource-requests_bound_example :
    (input : ProxyHostRequestInput) × Restores listed input
    × (requests (delete_resource request captured_host client world []).1
        ≡ enabling client (pos 7) true listed (update_request client (pos 7) input ∷ []))
unfolding contains text_eq list_eq find_proxy_host_by_id get_proxy_hosts get_list do_request receive
    read_response decode_body decode_list decode_proxy_host decode_nginx_meta decode_location
    decode_pointer decode_fields decode_int decode_bool decode_text get find_by_id find monad
delete_resource-requests_bound_example =
    delete_resource-requests_bound request captured_host client (pos 7) listed listed world []
      (λ path. refl) (λ t. refl) refl refl refl refl

domains_should_be_unique_iff_example :
    ((domains_should_be_unique bound_host world []).0 ≡ ok tt)
    ↔ All (IsCompatible bound_host) (new_host ∷ [])
domains_should_be_unique_iff_example =
    domains_should_be_unique_iff bound_host world [] (new_host ∷ []) refl

locate-IsBound_example :
    (located : Located) × ((locate new_host client world []).0 ≡ ok located)
    × (located.host
        ≡ find (λ h. domains_match h.domain_names (txt "b.example.org" ∷ [])) (listed ∷ []))
    × IsBound new_host located
unfolding extract_domains get_proxy_hosts get_list do_request receive read_response decode_body
    decode_list decode_proxy_host decode_nginx_meta decode_location decode_pointer decode_fields
    decode_int decode_bool decode_text get text_eq list_eq query_escape monad
locate-IsBound_example =
    locate-IsBound new_host client (txt "b.example.org") [] (listed ∷ []) world [] refl refl refl
      refl refl

abbrev kept : InitialConfiguration
kept = record {
  domain_names = txt "b.example.org" ∷ [];
  forward_host = txt "10.0.0.9";
  forward_port = pos 80;
  forward_scheme = txt "http";
  access_list_id = pos 0;
  certificate_id = none;
  ssl_forced = false;
  caching_enabled = false;
  block_exploits = false;
  allow_websocket_upgrade = false;
  http2_support = false;
  hsts_enabled = false;
  hsts_subdomains = false;
  advanced_config = [];
  locations = [];
  enabled = true;
}

abbrev host_with_kept : Api.ProxyHost
host_with_kept = record bound_host {
  status = record bound_host.status { initial_configuration = some kept };
}

abbrev located_by_id : Located
located_by_id = record { host = some listed; bound = true; captured = some kept }

locate-Keeps_example :
    (applied_status located_by_id none listed host_with_kept).status.initial_configuration
    ≡ some kept
unfolding locate locate_by find_proxy_host_by_id get_proxy_hosts get_list do_request receive
    read_response decode_body decode_list decode_proxy_host decode_nginx_meta decode_location
    decode_pointer decode_fields decode_int decode_bool decode_text get text_eq list_eq find_by_id
    find with_event or_event monad
locate-Keeps_example =
    locate-Keeps host_with_kept host_with_kept client kept world [] located_by_id none listed refl
      refl refl

abbrev input : ProxyHostRequestInput
input = record {
  domain_names = txt "b.example.org" ∷ [];
  forward_host = txt "10.0.0.9";
  forward_scheme = txt "http";
  forward_port = pos 80;
  block_exploits = false;
  allow_websocket_upgrade = false;
  certificate_id = none;
  ssl_forced = false;
  http2_support = false;
  hsts_enabled = false;
  advanced_config = [];
  locations = [];
  caching_enabled = false;
  hsts_subdomains = false;
  access_list_id = pos 5;
  custom_fields = [];
}

abbrev supporting : Option Npm.ProxyHost
supporting = some (record listed { unscoped_config = some [] })

abbrev ready : ProxyHostRequestInput × Bool
ready = (
  record input {
    custom_fields =
        (
          custom_field_unscoped_config,
          record {
            field_name = custom_field_unscoped_config;
            value = txt "upstream u {}";
            allowed = true;
          },
        )
        ∷ [];
  },
  true,
)

abbrev configs : List (Text × Text)
configs = (txt "u", txt "upstream u {}") ∷ []

with_custom_fields-body_example :
    (body : Fields) × (build_proxy_host_request_body ready.0 ≡ obj body)
    × ((k : Text)
        → get k body ≡ (
            if has_unscoped_config supporting && custom_field_unscoped_config == k
            then str (join (10 ∷ []) (map (λ entry. entry.1) (world.range_order [] configs)))
            else if not (input.access_list_id == pos 0) && txt "access_list_id" == k
            then int input.access_list_id
            else get k (base_body input)))
unfolding with_custom_fields merge_nginx_upstream_configs unscoped_config_supported
    json_field_exists json_name first_part is_set proxy_host_fields split join text_eq list_eq monad
with_custom_fields-body_example =
    with_custom_fields-body configs supporting input ready world [] refl

abbrev refusing_world : Env
refusing_world = record world {
  proxy_hosts = record world.proxy_hosts { update = λ t o. failed conflict };
}

reconcile-no_finalizer_example : reconcile request refusing_world [] ≡ (
  ok (retry_after 60 (kube conflict)),
  updated (proxy_host (with_finalizer refusing_world new_host))
      ∷ fetched kind_proxy_host request
      ∷ [],
)
unfolding contains
reconcile-no_finalizer_example =
    reconcile-no_finalizer request new_host conflict refusing_world [] refl refl refl refl
