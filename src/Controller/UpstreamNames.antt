-- ===== src/Controller/UpstreamNames.antt =====
-- Names of upstream blocks, which are made of the name and the namespace of a resource.
use nginxpm_operator.Base.{◌≡◌, refl, List, [], ◌∷◌, ◌++◌, Text, txt}
use nginxpm_operator.Base.Strings.{join}
use nginxpm_operator.Controller.Upstream.{NginxUpstreamHost, generate_nginx_upstream_name}
use mathlib.Core.List.{append_assoc}

base_name :
    (a b c : Text)
    → join (txt "-") ((a ++ txt "-" ++ b) ∷ c ∷ []) ≡ join (txt "-") (a ∷ (b ++ txt "-" ++ c) ∷ [])
unfolding join
base_name a b c = simp append_assoc refl

-- Whatever the hash, the resource `a-b` in the namespace `c` and the resource `a` in the namespace
-- `b-c` give the same name to the upstream block of the same hosts.
pub generate_nginx_upstream_name-collision :
    (hash : Text → Text) (a b c : Text) (hosts : List NginxUpstreamHost)
    → generate_nginx_upstream_name hash (a ++ txt "-" ++ b) c hosts
      ≡ generate_nginx_upstream_name hash a (b ++ txt "-" ++ c) hosts
unfolding generate_nginx_upstream_name
generate_nginx_upstream_name-collision hash a b c hosts = rw (base_name a b c) refl
