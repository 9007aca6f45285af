-- ===== src/ProxyHosts/Apply/Body.antt =====
-- The body of the request that creates or updates a host.
use nginxpm_operator.Base.{
  Bool, false, ◌&&◌, ◌≡◌, refl, not, ◌∙◌, Option, none, some, [], ◌∷◌, is_some, if◌then◌else◌, map,
  inl, inr, Bool-cases, ℤ, pos, ◌==◌, int-Eq, text-Eq, Text, txt,
}
use nginxpm_operator.Base.Strings.{join}
use nginxpm_operator.Json.{Fields, obj, str, int, get, put}
use nginxpm_operator.Json.Laws.{get-put}
use nginxpm_operator.Npm
use nginxpm_operator.Npm.{
  ProxyHostRequestInput, base_body, build_proxy_host_request_body, put_custom_fields,
  custom_field_unscoped_config,
}
use nginxpm_operator.Npm.CustomFields.{get-put_custom_field}
use nginxpm_operator.Effect.{Env, History, ok, monad}
use nginxpm_operator.Controller.{json_field_exists}
use nginxpm_operator.Controller.Reflection.Fields.{unscoped_config-proxy_host}
use nginxpm_operator.ProxyHosts.Forward.{Configs, merge_nginx_upstream_configs}
use nginxpm_operator.ProxyHosts.Apply.{with_custom_fields, unscoped_config_supported}

-- The host has the field, be it empty.
abbrev pub has_unscoped_config : Option Npm.ProxyHost → Bool
has_unscoped_config none = false
has_unscoped_config (some h) = is_some h.unscoped_config

supported-has : (o : Option Npm.ProxyHost) → unscoped_config_supported o ≡ has_unscoped_config o
unfolding unscoped_config_supported json_field_exists
supported-has none = refl
supported-has (some h) = unscoped_config-proxy_host h

get-access_list_id :
    (id : ℤ) (k : Text) (body : Fields)
    → get k (if id == pos 0 then body else put (txt "access_list_id") (int id) body)
      ≡ (if not (id == pos 0) && txt "access_list_id" == k then int id else get k body)
get-access_list_id id k body = elim (Bool-cases (id == pos 0)) [
  | inl e ↦ rw e refl
  | inr e ↦ rw e (get-put (txt "access_list_id") k (int id) body)
]

-- The body that is sent has the key `unscoped_config`, with the merged upstream blocks, exactly if
-- the host on the instance has that field; `access_list_id` is the id if it is not 0; and every
-- other key is that of the settings.
pub with_custom_fields-body :
    (configs : Configs) (host : Option Npm.ProxyHost) (input : ProxyHostRequestInput)
    (ready : ProxyHostRequestInput × Bool) (env : Env) (t : History)
    → (with_custom_fields configs host input env t).0 ≡ ok ready
    → (body : Fields) × (build_proxy_host_request_body ready.0 ≡ obj body)
      × ((k : Text)
          → get k body ≡ (
              if has_unscoped_config host && custom_field_unscoped_config == k
              then str (join (10 ∷ []) (map (λ entry. entry.1) (env.range_order t configs)))
              else if not (input.access_list_id == pos 0) && txt "access_list_id" == k
              then int input.access_list_id
              else get k (base_body input)))
unfolding with_custom_fields merge_nginx_upstream_configs build_proxy_host_request_body base_body
    monad
with_custom_fields-body configs host input ready env t e =
    let merged =
      join (10 ∷ []) (map (λ (entry : Text × Text). entry.1) (env.range_order t configs)) in
    let field = custom_field_unscoped_config in
    let q : ready ≡ (
      record input {
        custom_fields =
            (
              field,
              record {
                field_name = field;
                value = merged;
                allowed = unscoped_config_supported host;
              },
            )
            ∷ [];
      },
      unscoped_config_supported host,
    ) =
      cc in
    rw q (
      _,
      refl,
      λ k.
          get-put_custom_field field merged k (unscoped_config_supported host) _
          ∙ rw (supported-has host) (rw (get-access_list_id input.access_list_id k _) refl),
    )
