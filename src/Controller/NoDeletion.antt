-- ===== src/Controller/NoDeletion.antt =====
-- DELETE requests in the shared helpers.
use nginxpm_operator.Base.{arith, Option, none, some, List, [], ◌∷◌, Text, All}
use nginxpm_operator.Api.{
  NamespacedName, Condition, Token, TokenName, Pod, SslLetsEncryptCertificate, SslCustomCertificate,
}
use nginxpm_operator.Npm.{Client, Certificate}
use nginxpm_operator.Npm.NoDeletion.{
  check_token_access-IsNotDelete, find_certificate_by_id-IsNotDelete,
}
use nginxpm_operator.Effect.{Env, History, Retry, returns, calls, Action, Result, ok, err, panic}
use nginxpm_operator.Effect.Emits.{Emits, Emits-handle, Emits-call_kube, Emits-pure, emits_rules}
use nginxpm_operator.Effect.Traffic.{IsNotDelete}
use nginxpm_operator.Controller.Resources.{Resource, token-Resource}
use nginxpm_operator.Controller.Helpers.{
  first_token, open_client, init_nginxpm_client, add_finalizer, remove_finalizer, status_attempt,
  run_attempts, update_status, set_condition, with_event, or_event,
}
use nginxpm_operator.Controller.Upstream.{collect_ips, get_pods_host_ips}
use nginxpm_operator.Controller.Certificates.{
  get_lets_encrypt_certificate_by_reference, get_custom_certificate_by_reference, override,
  RetrieveCertificateOption, retrieve_certificate,
}

first_token-IsNotDelete : (keys : List NamespacedName) → Emits IsNotDelete (first_token keys)
unfolding first_token
first_token-IsNotDelete [] = search emits_rules
first_token-IsNotDelete (key ∷ keys) =
    Emits-handle _ _ _ (Emits-call_kube _ _ tt) (λ token. Emits-pure (some token))
      (λ _. first_token-IsNotDelete keys)

open_client-IsNotDelete : (o : Option Token) → Emits IsNotDelete (open_client o)
unfolding open_client
open_client-IsNotDelete none = search emits_rules
open_client-IsNotDelete (some token) = search (emits_rules, check_token_access-IsNotDelete)

pub init_nginxpm_client-IsNotDelete :
    (namespace : Text) (name : Option TokenName)
    → Emits IsNotDelete (init_nginxpm_client namespace name)
unfolding init_nginxpm_client
init_nginxpm_client-IsNotDelete namespace name =
    search (emits_rules, first_token-IsNotDelete, open_client-IsNotDelete)

or_event-IsNotDelete :
    {A : Type 0} (reason : Text) (r : Result A) → Emits IsNotDelete (or_event reason r)
unfolding or_event
or_event-IsNotDelete reason (ok a) = search emits_rules
or_event-IsNotDelete reason (err e) = search emits_rules
or_event-IsNotDelete reason panic = search emits_rules

pub with_event-IsNotDelete :
    {A : Type 0} (reason : Text) (m : Action A)
    → Emits IsNotDelete m
    → Emits IsNotDelete (with_event reason m)
unfolding with_event
with_event-IsNotDelete reason m h = search (emits_rules, or_event-IsNotDelete)

module _ {O : Type 0} ⦃r : Resource O⦄ where
  pub remove_finalizer-IsNotDelete : (f : Text) (o : O) → Emits IsNotDelete (remove_finalizer f o)
  unfolding remove_finalizer
  remove_finalizer-IsNotDelete f o = search emits_rules

  pub add_finalizer-IsNotDelete : (f : Text) (o : O) → Emits IsNotDelete (add_finalizer f o)
  unfolding add_finalizer
  add_finalizer-IsNotDelete f o = search emits_rules

  status_attempt-IsNotDelete :
      (key : NamespacedName) (mutate : Env → O → O) (o : O) (env : Env) (t : History)
      → All IsNotDelete t
      → All IsNotDelete (status_attempt key mutate o env t).1
  unfolding status_attempt
  status_attempt-IsNotDelete key mutate o env t h = ground arith

  run_attempts-IsNotDelete :
      (retry : Retry) (key : NamespacedName) (mutate : Env → O → O) (o : O) (env : Env)
      (t : History)
      → All IsNotDelete t
      → All IsNotDelete (run_attempts retry key mutate o env t).1
  unfolding run_attempts
  run_attempts-IsNotDelete (returns e) key mutate o env t h = h
  run_attempts-IsNotDelete (calls next) key mutate o env t h =
      let (done, t') = status_attempt key mutate o env t in
      run_attempts-IsNotDelete (next done.1) key mutate done.0 env t'
        (status_attempt-IsNotDelete key mutate o env t h)

  pub update_status-IsNotDelete :
      (key : NamespacedName) (mutate : Env → O → O) (o : O)
      → Emits IsNotDelete (update_status key mutate o)
  unfolding update_status
  update_status-IsNotDelete key mutate o = record {
    at = λ env t h. run_attempts-IsNotDelete (env.retry_on_conflict t) key mutate o env t h;
  }

  pub set_condition-IsNotDelete :
      (key : NamespacedName) (condition : Condition) (o : O)
      → Emits IsNotDelete (set_condition key condition o)
  unfolding set_condition
  set_condition-IsNotDelete key condition o = search (emits_rules, update_status-IsNotDelete)

collect_ips-IsNotDelete :
    (ips : List Text) (pods : List Pod) → Emits IsNotDelete (collect_ips ips pods)
unfolding collect_ips
collect_ips-IsNotDelete ips [] = search emits_rules
collect_ips-IsNotDelete ips (pod ∷ pods) =
    let rest = λ (found : List Text). collect_ips-IsNotDelete found pods in
    search (emits_rules, rest)

pub get_pods_host_ips-IsNotDelete : (pods : List Pod) → Emits IsNotDelete (get_pods_host_ips pods)
unfolding get_pods_host_ips
get_pods_host_ips-IsNotDelete pods = collect_ips-IsNotDelete [] pods

lets_encrypt-IsNotDelete :
    (req : NamespacedName) (r : SslLetsEncryptCertificate) (c : Client)
    → Emits IsNotDelete (get_lets_encrypt_certificate_by_reference req r c)
unfolding get_lets_encrypt_certificate_by_reference
lets_encrypt-IsNotDelete req r c = search (emits_rules, find_certificate_by_id-IsNotDelete)

custom-IsNotDelete :
    (req : NamespacedName) (r : SslCustomCertificate) (c : Client)
    → Emits IsNotDelete (get_custom_certificate_by_reference req r c)
unfolding get_custom_certificate_by_reference
custom-IsNotDelete req r c = search (emits_rules, find_certificate_by_id-IsNotDelete)

override-IsNotDelete :
    {R : Type 0} (o : Option R) (get : R → Action (Option Certificate)) (c : Option Certificate)
    → ((r : R) → Emits IsNotDelete (get r))
    → Emits IsNotDelete (override o get c)
unfolding override
override-IsNotDelete none get c h = search emits_rules
override-IsNotDelete (some r) get c h = h r

pub retrieve_certificate-IsNotDelete :
    (o : RetrieveCertificateOption) → Emits IsNotDelete (retrieve_certificate o)
unfolding retrieve_certificate
retrieve_certificate-IsNotDelete o = search (
  emits_rules, override-IsNotDelete, lets_encrypt-IsNotDelete, custom-IsNotDelete,
  find_certificate_by_id-IsNotDelete,
)
