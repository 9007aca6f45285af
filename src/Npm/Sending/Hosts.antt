-- ===== src/Npm/Sending/Hosts.antt =====
-- The requests that the calls about proxy hosts send.
use nginxpm_operator.Base.{
  Bool, true, false, ◌≡◌, ◌∙◌, ap, some, List, ◌∷◌, ◌++◌, if◌then◌else◌, ℤ, Text, txt,
}
use nginxpm_operator.Effect.{
  Env, History, ok, Request, json, no_body, get_method, post_method, put_method, pure, monad,
}
use nginxpm_operator.Effect.Sending.{requests, requests-bind, silent_rules}
use nginxpm_operator.Npm.Types.{ProxyHost}
use nginxpm_operator.Npm.Requests.{Client, get_list}
use nginxpm_operator.Npm.ProxyHosts.{
  ProxyHostRequestInput, proxy_host_path, build_proxy_host_request_body, get_proxy_hosts,
  find_proxy_host_by_id, update_proxy_host, switch, enable_proxy_host,
}
use nginxpm_operator.Npm.Sending.{
  request_to, check_status-IsSilent, read_response-IsSilent, requests-do_request,
}

-- The PUT of a host.
abbrev pub update_request : Client → ℤ → ProxyHostRequestInput → Request
update_request c id input =
    request_to c put_method (proxy_host_path id) (json (build_proxy_host_request_body input))

abbrev pub hosts_request : Client → Request
hosts_request c = request_to c get_method (txt "/api/nginx/proxy-hosts") no_body

abbrev pub enable_request : Client → ℤ → Request
enable_request c id = request_to c post_method (proxy_host_path id ++ txt "/enable") no_body

module _ (c : Client) (id : ℤ) (env : Env)
    (valid : (path : Text) → env.valid_url (c.endpoint ++ path) ≡ true) where
  pub requests-update_proxy_host :
      (input : ProxyHostRequestInput) (t : History)
      → requests (update_proxy_host c id input env t).1 ≡ update_request c id input ∷ requests t
  unfolding update_proxy_host
  requests-update_proxy_host input t =
      requests-bind _ _ env t (λ r. search (silent_rules, read_response-IsSilent))
      ∙ requests-do_request c put_method (proxy_host_path id)
          (json (build_proxy_host_request_body input)) env t (valid _)

  requests-find_proxy_host_by_id :
      (t : History) → requests (find_proxy_host_by_id c id env t).1 ≡ hosts_request c ∷ requests t
  unfolding find_proxy_host_by_id get_proxy_hosts get_list
  requests-find_proxy_host_by_id t =
      requests-bind _ _ env t (λ l. search silent_rules)
      ∙ (requests-bind _ _ env t (λ r. search (silent_rules, read_response-IsSilent))
          ∙ requests-do_request c get_method (txt "/api/nginx/proxy-hosts") no_body env t (valid _))

  requests-switch :
      (verb : Text) (t : History)
      → requests (switch c id verb env t).1
        ≡ request_to c post_method (proxy_host_path id ++ verb) no_body ∷ requests t
  unfolding switch
  requests-switch verb t =
      requests-bind _ _ env t check_status-IsSilent
      ∙ requests-do_request c post_method (proxy_host_path id ++ verb) no_body env t (valid _)

  -- Enabling a host that is listed asks for the list, and posts only if the host is disabled.
  pub requests-enable_proxy_host :
      (existing : ProxyHost) (t : History)
      → (find_proxy_host_by_id c id env t).0 ≡ ok (some existing)
      → requests (enable_proxy_host c id env t).1 ≡ (
          if existing.enabled
          then hosts_request c ∷ requests t
          else enable_request c id ∷ hosts_request c ∷ requests t)
  unfolding enable_proxy_host monad
  requests-enable_proxy_host existing t e = rw e (go existing.enabled)
    where
      go :
          (b : Bool)
          → requests
              ((if b then pure tt else switch c id (txt "/enable")) env
                (find_proxy_host_by_id c id env t).1).1
            ≡ (if b
                then hosts_request c ∷ requests t
                else enable_request c id ∷ hosts_request c ∷ requests t)
      go true = requests-find_proxy_host_by_id t
      go false =
          requests-switch (txt "/enable") (find_proxy_host_by_id c id env t).1
          ∙ ap (λ (rs : List Request). enable_request c id ∷ rs) (requests-find_proxy_host_by_id t)
