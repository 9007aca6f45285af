-- ===== src/Controller/Resources.antt =====
-- The interface of `client.Object` and `client.Client` that the shared helpers use, with its law, and the kinds
-- of the custom resources that fill it.
use nginxpm_operator.Base.{◌≡◌, refl, List, Text}
use nginxpm_operator.Api.{
  ObjectMeta, Condition, NamespacedName, ProxyHost, Stream, AccessList, Token,
  LetsEncryptCertificate, CustomCertificate,
}
use nginxpm_operator.Effect.{
  Env, Store, Object, proxy_host, stream, access_list, token, lets_encrypt_certificate,
  custom_certificate, Kind, kind_proxy_host, kind_stream, kind_access_list, kind_token,
  kind_lets_encrypt, kind_custom_certificate, fetched, listed, updated, status_updated, Action,
  call_kube,
}

pub record Resource (O : Type 0) : Type 0 where
  pub kind : Kind
  pub store : Env → Store O
  pub embed : O → Object
  pub metadata : O → ObjectMeta
  pub with_finalizers : O → List Text → O
  pub with_finalizers_lem :
      (o : O) (fs : List Text) → (metadata (with_finalizers o fs)).finalizers ≡ fs
  pub conditions : O → List Condition
  pub with_conditions : O → List Condition → O

module _ {O : Type 0} ⦃r : Resource O⦄ where
  -- `r.Get`
  abbrev pub get_object : NamespacedName → Action O
  get_object key = call_kube (fetched r.kind key) (λ env t. (r.store env).get t key)

  -- `r.List`
  abbrev pub list_objects : Action (List O)
  list_objects = call_kube (listed r.kind) (λ env t. (r.store env).list t)

  -- `r.Update`
  abbrev pub update_object : O → Action O
  update_object o = call_kube (updated (r.embed o)) (λ env t. (r.store env).update t o)

  -- `r.Status().Update`
  abbrev pub update_object_status : O → Action O
  update_object_status o =
      call_kube (status_updated (r.embed o)) (λ env t. (r.store env).update_status t o)

instance abbrev pub proxy_host-Resource : Resource ProxyHost
proxy_host-Resource = record {
  kind = kind_proxy_host;
  store = λ env. env.proxy_hosts;
  embed = proxy_host;
  metadata = λ o. o.metadata;
  with_finalizers = λ o fs. record o { metadata = record o.metadata { finalizers = fs } };
  with_finalizers_lem = λ o fs. refl;
  conditions = λ o. o.status.conditions;
  with_conditions = λ o cs. record o { status = record o.status { conditions = cs } };
}

instance abbrev pub stream-Resource : Resource Stream
stream-Resource = record {
  kind = kind_stream;
  store = λ env. env.streams;
  embed = stream;
  metadata = λ o. o.metadata;
  with_finalizers = λ o fs. record o { metadata = record o.metadata { finalizers = fs } };
  with_finalizers_lem = λ o fs. refl;
  conditions = λ o. o.status.conditions;
  with_conditions = λ o cs. record o { status = record o.status { conditions = cs } };
}

instance abbrev pub access_list-Resource : Resource AccessList
access_list-Resource = record {
  kind = kind_access_list;
  store = λ env. env.access_lists;
  embed = access_list;
  metadata = λ o. o.metadata;
  with_finalizers = λ o fs. record o { metadata = record o.metadata { finalizers = fs } };
  with_finalizers_lem = λ o fs. refl;
  conditions = λ o. o.status.conditions;
  with_conditions = λ o cs. record o { status = record o.status { conditions = cs } };
}

instance abbrev pub token-Resource : Resource Token
token-Resource = record {
  kind = kind_token;
  store = λ env. env.tokens;
  embed = token;
  metadata = λ o. o.metadata;
  with_finalizers = λ o fs. record o { metadata = record o.metadata { finalizers = fs } };
  with_finalizers_lem = λ o fs. refl;
  conditions = λ o. o.status.conditions;
  with_conditions = λ o cs. record o { status = record o.status { conditions = cs } };
}

instance abbrev pub lets_encrypt_certificate-Resource : Resource LetsEncryptCertificate
lets_encrypt_certificate-Resource = record {
  kind = kind_lets_encrypt;
  store = λ env. env.lets_encrypt_certificates;
  embed = lets_encrypt_certificate;
  metadata = λ o. o.metadata;
  with_finalizers = λ o fs. record o { metadata = record o.metadata { finalizers = fs } };
  with_finalizers_lem = λ o fs. refl;
  conditions = λ o. o.status.conditions;
  with_conditions = λ o cs. record o { status = record o.status { conditions = cs } };
}

instance abbrev pub custom_certificate-Resource : Resource CustomCertificate
custom_certificate-Resource = record {
  kind = kind_custom_certificate;
  store = λ env. env.custom_certificates;
  embed = custom_certificate;
  metadata = λ o. o.metadata;
  with_finalizers = λ o fs. record o { metadata = record o.metadata { finalizers = fs } };
  with_finalizers_lem = λ o fs. refl;
  conditions = λ o. o.status.conditions;
  with_conditions = λ o cs. record o { status = record o.status { conditions = cs } };
}
