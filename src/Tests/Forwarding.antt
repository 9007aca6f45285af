-- ===== src/Tests/Forwarding.antt =====
-- The theorems about forwards, ports and requests in the small world.
use nginxpm_operator.Base.{
  true, false, ◌≡◌, ◌⊎◌, refl, none, [], ◌∷◌, int-Eq, text-Eq, text_eq, list_eq, find, pos, txt,
}
use nginxpm_operator.Base.Strings.{to_lower, contains_text, has_prefix}
use nginxpm_operator.Effect.{ok, monad}
use nginxpm_operator.ProxyHosts.Forward.{
  make_forward, forward_to, resolve, make, forward_to_service, service_target,
  assign_value_to_nginx_variable, Made,
}
use nginxpm_operator.ProxyHosts.Forward.Outcome.{
  IsTarget, make_forward-IsTarget, make_forward-hosts,
}
use nginxpm_operator.ProxyHosts.Ports.{
  select_port, forward_when_not_node_port_type, match_port, name_matches,
}
use nginxpm_operator.ProxyHosts.Ports.Choice.{IsChosen, select_port-IsChosen}
use nginxpm_operator.Tests.World.{request, new_host, reference, to_hosts, to_service, world, port}

abbrev forwarded : Made
forwarded = (
  record {
    scheme = txt "http";
    host = txt "10.96.0.5";
    port = pos 8080;
    advanced_config = [];
    nginx_upstream_configs = [];
  },
  none,
)

make_forward-IsTarget_example : IsTarget false forwarded
unfolding make_forward forward_to forward_to_service service_target resolve make
    assign_value_to_nginx_variable forward_when_not_node_port_type select_port match_port
    name_matches text_eq list_eq find to_lower contains_text has_prefix monad
make_forward-IsTarget_example =
    make_forward-IsTarget false new_host request to_service none reference world [] forwarded refl
      refl refl

make_forward-hosts_example :
    (made : Made) × (make_forward true new_host request to_hosts none world [] ≡ (ok made, []))
    × (made.0.port ≡ pos 80)
    × ((true ≡ true) ⊎ (made.0.host ≡ txt "10.0.0.1"))
make_forward-hosts_example =
    make_forward-hosts true new_host request to_hosts none
      (record { host_name = txt "10.0.0.1"; host_port = pos 80 }) [] world [] refl

select_port-IsChosen_example :
    IsChosen
      (λ p. p.port)
      (port ∷ [])
      reference
      (select_port (λ p. p.port) (port ∷ []) reference (txt "https"))
select_port-IsChosen_example = select_port-IsChosen (λ p. p.port) port [] reference (txt "https")
