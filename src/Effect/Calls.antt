-- ===== src/Effect/Calls.antt =====
-- What the program calls: HTTP requests, the Kubernetes API, and third-party functions.
use nginxpm_operator.Base.{◌≡◌, ◌⊎◌, inl, inr, refl, ℕ, Bool, Option, List, Text, ℤ}
use nginxpm_operator.Json.{Json}
use nginxpm_operator.Errors.{KubeError}
use nginxpm_operator.Api.{
  NamespacedName, Condition, ProxyHost, Stream, AccessList, Token, LetsEncryptCertificate,
  CustomCertificate, Service, Pod, Node, SecretData, Labels,
}

pub data Method : Type 0 where
  get_method post_method put_method delete_method : Method

-- One file of a multipart form: the field, the file's name and its content.
pub record FormFile : Type 0 where
  pub field_name : Text
  pub file_name : Text
  pub content : Text

pub data Body : Type 0 where
  no_body : Body
  json : Json → Body
  form : List FormFile → Body

-- `authorization` is the token behind "Bearer ".
pub record Request : Type 0 where
  pub method : Method
  pub url : Text
  pub authorization : Option Text
  pub body : Body

-- A response has a status code and a body, which is JSON or is not.
pub data Reply : Type 0 where
  no_reply : Reply
  reply : ℕ → Option Json → Reply

pub data Kube (A : Type 0) : Type 0 where
  found : A → Kube A
  failed : KubeError → Kube A

pub Kube-cases :
    {A : Type 0} (k : Kube A) → ((a : A) × (k ≡ found a)) ⊎ ((e : KubeError) × (k ≡ failed e))
Kube-cases (found a) = inl (a, refl)
Kube-cases (failed e) = inr (e, refl)

pub data Object : Type 0 where
  proxy_host : ProxyHost → Object
  stream : Stream → Object
  access_list : AccessList → Object
  token : Token → Object
  lets_encrypt_certificate : LetsEncryptCertificate → Object
  custom_certificate : CustomCertificate → Object

pub data Kind : Type 0 where
  kind_proxy_host kind_stream kind_access_list kind_token kind_lets_encrypt : Kind
  kind_custom_certificate kind_service kind_pod kind_node kind_secret : Kind

-- `event` is `Recorder.Event` with its reason.
pub data Event : Type 0 where
  sent : Request → Event
  fetched : Kind → NamespacedName → Event
  listed : Kind → Event
  updated : Object → Event
  status_updated : Object → Event
  recorded : Text → Event

-- All calls so far, the newest first.
abbrev pub History : Type 0
History = List Event

-- How the API server answers on one kind. An update answers with the object as it is stored.
pub record Store (O : Type 0) : Type 0 where
  pub get : History → NamespacedName → Kube O
  pub list : History → Kube (List O)
  pub update : History → O → Kube O
  pub update_status : History → O → Kube O

-- A function that is given an action to call, as client-go's `retry.RetryOnConflict` is: it returns,
-- or it calls the action and goes on by the error that the call returned, `none` for nil.
pub data Retry : Type 0 where
  returns : Option KubeError → Retry
  calls : (Option KubeError → Retry) → Retry

-- After a call with this error, it returns the error of its last call.
abbrev pub ReportsLast : Option KubeError → Retry → Type 0
ReportsLast last (returns e) = e ≡ last
ReportsLast last (calls next) = (e : Option KubeError) → ReportsLast e (next e)

-- The documented behaviour: the action is called, and the error of the last call is returned.
abbrev pub IsRetry : Retry → Type 0
IsRetry (returns e) = ⊥
IsRetry (calls next) = (e : Option KubeError) → ReportsLast e (next e)

-- `valid_url` says whether `http.NewRequest` parses the URL.
-- `list_pods` takes a namespace and a selector, `range_order` is the order in which Go ranges over
-- a map, and `retry_on_conflict` is client-go's function of that name. The functions from `set_condition` on are those of apimachinery,
-- controller-runtime and xxhash that the source only calls.
pub record Env : Type 0 where
  pub http : History → Request → Reply
  pub valid_url : Text → Bool
  pub proxy_hosts : Store ProxyHost
  pub streams : Store Stream
  pub access_lists : Store AccessList
  pub tokens : Store Token
  pub lets_encrypt_certificates : Store LetsEncryptCertificate
  pub custom_certificates : Store CustomCertificate
  pub services : History → NamespacedName → Kube Service
  pub list_pods : History → Text → Labels → Kube (List Pod)
  pub nodes : History → Text → Kube Node
  pub secrets : History → NamespacedName → Kube SecretData
  pub now : History → ℤ
  pub parse_time : Text → Option ℤ
  pub range_order : History → List (Text × Text) → List (Text × Text)
  pub retry_on_conflict : History → Retry
  pub set_condition : List Condition → Condition → List Condition
  pub contains_finalizer : List Text → Text → Bool
  pub add_finalizer : List Text → Text → List Text
  pub remove_finalizer : List Text → Text → List Text
  pub selector_matches : Labels → Labels → Bool
  pub xxhash_hex : Text → Text
