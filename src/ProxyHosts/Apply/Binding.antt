-- ===== src/ProxyHosts/Apply/Binding.antt =====
-- Which host on the instance a resource stands for, and what is kept of its configuration.
use nginxpm_operator.Base.{
  Bool, ap, ◌∙◌, if◌then◌else◌, ◌||◌, true, ◌≡◌, refl, arith, Option, none, some, is_some, ℤ,
  int-Eq, List, ◌∷◌, ◌++◌, Text, txt, find,
}
use nginxpm_operator.Base.Strings.{query_escape}
use nginxpm_operator.Api.{ProxyHost, InitialConfiguration}
use nginxpm_operator.Npm
use nginxpm_operator.Npm.{
  Client, find_proxy_host_by_id, find_proxy_host_by_domain, get_proxy_hosts, find_by_id,
  domains_match,
}
use nginxpm_operator.Effect.{Env, History, Action, attempt, pure, ◌>>=◌, ok, monad}
use nginxpm_operator.Effect.Returns.{Returns, Returns-bind, Returns-pure, Returns-any, Returns-if}
use nginxpm_operator.ProxyHosts.InitialConfig.{
  should_capture_initial_config, capture_initial_configuration,
}
use nginxpm_operator.ProxyHosts.Domains.{extract_domains}
use nginxpm_operator.ProxyHosts.Apply.{
  Located, found_or_nil, bind_host, locate_new, locate_by, locate, applied_status,
}

-- A configuration that was captured stays in the status.
abbrev pub Keeps : InitialConfiguration → Located → Type 0
Keeps config located =
    (o : ProxyHost) (certificate_id : Option ℤ) (h : Npm.ProxyHost)
    → o.status.initial_configuration ≡ some config
    → (applied_status located certificate_id h o).status.initial_configuration ≡ some config

Keeps-none :
    (config : InitialConfiguration) (located : Located)
    → located.captured ≡ none
    → Keeps config located
unfolding applied_status
Keeps-none config located e o certificate_id h kept = rw e kept

Keeps-same :
    (config : InitialConfiguration) (located : Located)
    → located.captured ≡ some config
    → Keeps config located
unfolding applied_status
Keeps-same config located e o certificate_id h kept = rw e refl

bind_host-Keeps :
    (ph : ProxyHost) (config : InitialConfiguration) (o : Option Npm.ProxyHost)
    → ph.status.initial_configuration ≡ some config
    → Keeps config (bind_host ph o)
unfolding bind_host should_capture_initial_config
bind_host-Keeps ph config none e = Keeps-none config _ refl
bind_host-Keeps ph config (some h) e = Keeps-none config _ (rw e (ground arith))

locate_new-Keeps :
    (ph : ProxyHost) (c : Client) (config : InitialConfiguration)
    → ph.status.initial_configuration ≡ some config
    → Returns (Keeps config) (locate_new ph c)
unfolding locate_new
locate_new-Keeps ph c config e =
    Returns-if ph.spec.bind_existing _ _
      (λ b.
        Returns-bind _ _ (Returns-any _)
          (λ answer any. Returns-pure _ (bind_host-Keeps ph config _ e)))
      (λ b. Returns-pure _ (bind_host-Keeps ph config none e))

locate_by-Keeps :
    (ph : ProxyHost) (c : Client) (config : InitialConfiguration) (o : Option ℤ)
    → ph.status.initial_configuration ≡ some config
    → Returns (Keeps config) (locate_by ph c o)
unfolding locate_by
locate_by-Keeps ph c config none e = locate_new-Keeps ph c config e
locate_by-Keeps ph c config (some id) e =
    Returns-bind _ _ (Returns-any _) (λ host any. Returns-pure _ (Keeps-same config _ e))

-- If the status of a resource has a captured configuration, both when the host is located and
-- when the status is written, then the status that is written has the same one, whatever host is
-- found and written.
pub locate-Keeps :
    (ph o : ProxyHost) (c : Client) (config : InitialConfiguration) (env : Env) (t : History)
    (located : Located) (certificate_id : Option ℤ) (h : Npm.ProxyHost)
    → ph.status.initial_configuration ≡ some config
    → o.status.initial_configuration ≡ some config
    → (locate ph c env t).0 ≡ ok located
    → (applied_status located certificate_id h o).status.initial_configuration ≡ some config
unfolding locate
locate-Keeps ph o c config env t located certificate_id h captured kept e =
    (locate_by-Keeps ph c config ph.status.id captured).at env t located e o certificate_id h kept

-- Bound if a host is found, and it is its configuration that is captured.
abbrev pub IsBound : ProxyHost → Located → Type 0
IsBound ph located =
    (located.bound ≡ (ph.status.bound || is_some located.host))
    × (located.captured ≡ capture_initial_configuration located.host)

bind_host-IsBound :
    (ph : ProxyHost) (o : Option Npm.ProxyHost)
    → ph.spec.bind_existing ≡ true
    → ph.status.initial_configuration ≡ none
    → IsBound ph (bind_host ph o)
unfolding bind_host should_capture_initial_config capture_initial_configuration
bind_host-IsBound ph none b e = (ground arith, refl)
bind_host-IsBound ph (some h) b e = (ground arith, rw b (rw e refl))

-- The search by domains, after its GET is answered with a list.
abbrev query_path : Text → Text
query_path domain = txt "/api/nginx/proxy-hosts?query=" ++ query_escape domain

search-ok :
    (c : Client) (d : Text) (ds : List Text) (hosts : List Npm.ProxyHost) (env : Env) (t : History)
    → (get_proxy_hosts c (query_path d) env t).0 ≡ ok hosts
    → (find_proxy_host_by_domain c (d ∷ ds) env t).0
      ≡ ok (find (λ h. domains_match h.domain_names (d ∷ ds)) hosts)
unfolding find_proxy_host_by_domain monad
search-ok c d ds hosts env t e = rw e refl

bind_found :
    (ph : ProxyHost) (search : Action (Option Npm.ProxyHost)) (o : Option Npm.ProxyHost) (env : Env)
    (t : History)
    → (search env t).0 ≡ ok o
    → ((attempt search >>= λ answer. pure (bind_host ph (found_or_nil answer))) env t).0
      ≡ ok (bind_host ph o)
unfolding monad
bind_found ph search o env t e = rw e refl

if_true : {A : Type 0} (b : Bool) (x y : A) → b ≡ true → (if b then x else y) ≡ x
if_true b x y e = rw e refl

locate_new-ok :
    (ph : ProxyHost) (c : Client) (o : Option Npm.ProxyHost) (env : Env) (t : History)
    → ph.spec.bind_existing ≡ true
    → (find_proxy_host_by_domain c (extract_domains ph) env t).0 ≡ ok o
    → (locate_new ph c env t).0 ≡ ok (bind_host ph o)
unfolding locate_new
locate_new-ok ph c o env t b e =
    ap (λ (m : Action Located). (m env t).0) (if_true ph.spec.bind_existing _ _ b)
    ∙ bind_found ph (find_proxy_host_by_domain c (extract_domains ph)) o env t e

locate_by-ok :
    (ph : ProxyHost) (c : Client) (id : Option ℤ) (o : Option Npm.ProxyHost) (env : Env)
    (t : History)
    → id ≡ none
    → (locate_new ph c env t).0 ≡ ok (bind_host ph o)
    → (locate_by ph c id env t).0 ≡ ok (bind_host ph o)
unfolding locate_by
locate_by-ok ph c id o env t new e = rw new e

bind_host-host : (ph : ProxyHost) (o : Option Npm.ProxyHost) → (bind_host ph o).host ≡ o
unfolding bind_host
bind_host-host ph none = refl
bind_host-host ph (some h) = refl

-- When the instance answers the query for the first domain of a new resource, which asks to bind an
-- existing host, with a list, the resource stands for the first host in it whose domains match its
-- own; it becomes bound if there is one, and the configuration that is captured is that host's; if
-- there is none, none is captured.
pub locate-IsBound :
    (ph : ProxyHost) (c : Client) (d : Text) (ds : List Text) (hosts : List Npm.ProxyHost)
    (env : Env) (t : History)
    → ph.status.id ≡ none
    → ph.spec.bind_existing ≡ true
    → ph.status.initial_configuration ≡ none
    → extract_domains ph ≡ d ∷ ds
    → (get_proxy_hosts c (txt "/api/nginx/proxy-hosts?query=" ++ query_escape d) env t).0 ≡ ok hosts
    → (located : Located) × ((locate ph c env t).0 ≡ ok located)
      × (located.host ≡ find (λ h. domains_match h.domain_names (d ∷ ds)) hosts)
      × IsBound ph located
unfolding locate
locate-IsBound ph c d ds hosts env t new b no_configuration domains answered =
    let o = find (λ h. domains_match h.domain_names (d ∷ ds)) hosts in
    let searched : (find_proxy_host_by_domain c (extract_domains ph) env t).0 ≡ ok o =
      rw domains (search-ok c d ds hosts env t answered) in
    (
      bind_host ph o,
      locate_by-ok ph c ph.status.id o env t new (locate_new-ok ph c o env t b searched),
      bind_host-host ph o,
      bind_host-IsBound ph o b no_configuration,
    )
