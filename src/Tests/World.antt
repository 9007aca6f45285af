-- ===== src/Tests/World.antt =====
-- An instance that lists one entry whatever it is asked, and an API server that stores what it is
-- sent.
use nginxpm_operator.Base.{
  refl, Bool, true, false, Option, none, some, List, [], ◌∷◌, contains, text-Eq, ℤ, pos, Text, txt,
}
use nginxpm_operator.Json.{Json, int, bool, str, arr, obj, cons, nil}
use nginxpm_operator.Api.{
  ObjectMeta, NamespacedName, ProxyHost, ProxyHostForward, ProxyHostStatus, Stream, AccessList,
  Token, LetsEncryptCertificate, CustomCertificate, Service, ServicePort, Pod, Node, cluster_ip,
  internal_ip, ForwardService,
}
use nginxpm_operator.Npm
use nginxpm_operator.Npm.{Client, object}
use nginxpm_operator.Effect.{Env, Store, Retry, IsRetry, returns, calls, found, reply}
use nginxpm_operator.Errors.{KubeError}

abbrev pub entry : Json
entry = obj (
    object (
      (txt "id", int (pos 7))
      ∷ (txt "domain_names", arr (cons (str (txt "b.example.org")) nil))
      ∷ (txt "provider", str (txt "letsencrypt"))
      ∷ (txt "enabled", bool true)
      ∷ []))

abbrev pub request : NamespacedName
request = record { namespace = txt "default"; name = txt "web" }

abbrev meta : Bool → List Text → ObjectMeta
meta deleting finalizers = record {
  name = txt "web";
  namespace = txt "default";
  deleting = deleting;
  finalizers = finalizers;
}

abbrev pub reference : ForwardService
reference = record { name = txt "app"; namespace = none; port = none; port_name = none }

abbrev pub to_hosts : ProxyHostForward
to_hosts = record {
  scheme = txt "http";
  service = some reference;
  nginx_keepalive = false;
  nginx_variable = [];
  hosts = record { host_name = txt "10.0.0.1"; host_port = pos 80 } ∷ [];
  path = [];
  advanced_config = [];
}

abbrev pub to_service : ProxyHostForward
to_service = record to_hosts { hosts = [] }

abbrev status : Option ℤ → Bool → ProxyHostStatus
status id bound = record {
  id = id;
  certificate_id = none;
  bound = bound;
  online = false;
  initial_configuration = none;
  conditions = [];
}

abbrev host : Bool → List Text → ProxyHostStatus → ProxyHost
host deleting finalizers status = record {
  metadata = meta deleting finalizers;
  spec = record {
    token = none;
    domain_names = txt "b.example.org" ∷ [];
    bind_existing = true;
    caching_enabled = false;
    block_exploits = false;
    websocket_support = false;
    access_list = none;
    ssl = none;
    forward = to_hosts;
    custom_locations = [];
  };
  status = status;
}

abbrev pub new_host : ProxyHost
new_host = host false [] (status none false)

abbrev pub bound_host : ProxyHost
bound_host =
    host true (txt "proxyhost.nginxpm-operator.io/finalizers" ∷ []) (status (some (pos 7)) true)

abbrev pub created_host : ProxyHost
created_host =
    host true (txt "proxyhost.nginxpm-operator.io/finalizers" ∷ []) (status (some (pos 7)) false)

abbrev pub stream_host : Stream
stream_host = record {
  metadata = meta true (txt "stream.nginxpm-operator.io/finalizers" ∷ []);
  spec = record {
    token = none;
    incoming_port = pos 53;
    overwrite_incoming_port_with_forward_port = false;
    forward = record {
      tcp_forwarding = true;
      udp_forwarding = false;
      service = some reference;
      hosts = [];
    };
    ssl = none;
  };
  status = record {
    id = some (pos 7);
    incoming_port = none;
    forwarding_port = none;
    online = false;
    conditions = [];
  };
}

abbrev pub list_of_users : AccessList
list_of_users = record {
  metadata = meta true (txt "accesslist.nginxpm-operator.io/finalizers" ∷ []);
  spec = record {
    token = none;
    satisfy_any = true;
    pass_auth = false;
    authorizations = [];
    clients = [];
  };
  status = record { id = some (pos 7); proxy_host_count = pos 0; conditions = [] };
}

abbrev pub wildcard : LetsEncryptCertificate
wildcard = record {
  metadata = meta true (txt "letsencryptcertificate.nginxpm-operator.io/finalizers" ∷ []);
  spec = record {
    token = none;
    domain_names = txt "b.example.org" ∷ [];
    lets_encrypt_email = txt "x@example.org";
    dns_challenge = none;
  };
  status = record {
    id = none;
    bound = false;
    domain_names = [];
    expires_on = none;
    conditions = [];
  };
}

abbrev pub own_certificate : CustomCertificate
own_certificate = record {
  metadata = meta true (txt "customcertificate.nginxpm-operator.io/finalizers" ∷ []);
  spec = record {
    token = none;
    nice_name = none;
    certificate = record { secret = record { name = txt "keys" } };
  };
  status = record { id = none; expires_on = none; status = none; conditions = [] };
}

abbrev pub login : Token
login = record {
  metadata = meta false [];
  spec = record { endpoint = txt "http://npm:81"; secret = record { secret_name = txt "login" } };
  status = record { token = some (txt "secret"); expires = some (pos 9); conditions = [] };
}

abbrev pub client : Client
client = record { endpoint = txt "http://npm:81"; token = txt "secret"; expires = pos 9 }

abbrev pub port : ServicePort
port = record { name = txt "web"; protocol = txt "TCP"; port = pos 8080; node_port = pos 30080 }

abbrev pub service : Service
service = record {
  name = txt "app";
  namespace = txt "default";
  type = cluster_ip;
  cluster_ip = txt "10.96.0.5";
  ingress_ips = [];
  ports = port ∷ [];
  selector = [];
}

abbrev pub pod : Pod
pod = record { labels = []; node_name = txt "node"; running = true; deleting = false }

abbrev pub node : Node
node = record { addresses = record { type = internal_ip; address = txt "192.168.0.2" } ∷ [] }

abbrev pub store : {O : Type 0} → O → Store O
store o = record {
  get = λ t key. found o;
  list = λ t. found (o ∷ []);
  update = λ t o'. found o';
  update_status = λ t o'. found o';
}

-- One more call after a conflict.
abbrev after_call : Option KubeError → Retry
after_call none = returns none
after_call (some KubeError.not_found) = returns (some KubeError.not_found)
after_call (some KubeError.other) = returns (some KubeError.other)
after_call (some KubeError.conflict) = calls (λ e. returns e)

abbrev pub once_more : Retry
once_more = calls after_call

abbrev pub world : Env
world = record {
  http = λ t r. reply 200 (some (arr (cons entry nil)));
  valid_url = λ url. true;
  proxy_hosts = store new_host;
  streams = store stream_host;
  access_lists = store list_of_users;
  tokens = store login;
  lets_encrypt_certificates = store wildcard;
  custom_certificates = store own_certificate;
  services = λ t key. found service;
  list_pods = λ t namespace selector. found (pod ∷ []);
  nodes = λ t name. found node;
  secrets = λ t key. found [];
  now = λ t. pos 1;
  parse_time = λ s. none;
  range_order = λ t m. m;
  retry_on_conflict = λ t. once_more;
  set_condition = λ cs c. c ∷ cs;
  contains_finalizer = λ fs f. contains fs f;
  add_finalizer = λ fs f. f ∷ fs;
  remove_finalizer = λ fs f. [];
  selector_matches = λ a b. true;
  xxhash_hex = λ s. txt "00";
}

-- The same with an instance that lists nothing.
abbrev pub empty_world : Env
empty_world = record world { http = λ t r. reply 200 (some (arr nil)) }

-- What `entry` decodes to as a host.
abbrev pub listed : Npm.ProxyHost
listed = record {
  id = pos 7;
  created_on = [];
  modified_on = [];
  owner_user_id = pos 0;
  domain_names = txt "b.example.org" ∷ [];
  forward_host = [];
  forward_port = pos 0;
  access_list_id = pos 0;
  certificate_id = pos 0;
  ssl_forced = false;
  caching_enabled = false;
  block_exploits = false;
  advanced_config = [];
  meta = record { nginx_err = none; nginx_online = false };
  allow_websocket_upgrade = false;
  http2_support = false;
  forward_scheme = [];
  enabled = true;
  locations = [];
  hsts_enabled = false;
  hsts_subdomains = false;
  unscoped_config = none;
}

-- And as a certificate.
abbrev pub certificate : Npm.Certificate
certificate = record {
  id = pos 7;
  created_on = [];
  modified_on = [];
  provider = txt "letsencrypt";
  nice_name = [];
  domain_names = txt "b.example.org" ∷ [];
  expires_on = [];
  bound = false;
}

pub once_more-IsRetry : IsRetry once_more
once_more-IsRetry none = refl
once_more-IsRetry (some KubeError.not_found) = refl
once_more-IsRetry (some KubeError.other) = refl
once_more-IsRetry (some KubeError.conflict) = λ e. refl
