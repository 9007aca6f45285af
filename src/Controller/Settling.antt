-- ===== src/Controller/Settling.antt =====
-- Nil dereferences and errors in the shared helpers.
use nginxpm_operator.Base.{◌≢◌, refl, Option, none, some, List, [], ◌∷◌, Text}
use nginxpm_operator.Api.{
  NamespacedName, Condition, Token, TokenName, Pod, SslLetsEncryptCertificate, SslCustomCertificate,
}
use nginxpm_operator.Npm.{Client, Certificate}
use nginxpm_operator.Npm.Settling.{check_token_access-Settles, find_certificate_by_id-Settles}
use nginxpm_operator.Effect.{Env, Action, Result, ok, err, panic, continue, settle, monad}
use nginxpm_operator.Effect.Returns.{
  Settles, Answers, Settles-handle, Settles-call_kube, Settles-pure, answers_rules, settles_rules,
}
use nginxpm_operator.Controller.Resources.{Resource, token-Resource}
use nginxpm_operator.Controller.Helpers.{
  first_token, open_client, init_nginxpm_client, add_finalizer, remove_finalizer, update_status,
  set_condition, with_event, or_event,
}
use nginxpm_operator.Controller.Upstream.{collect_ips, get_pods_host_ips}
use nginxpm_operator.Controller.Certificates.{
  get_lets_encrypt_certificate_by_reference, get_custom_certificate_by_reference, override,
  RetrieveCertificateOption, retrieve_certificate,
}

first_token-Settles : (keys : List NamespacedName) → Settles (first_token keys)
unfolding first_token
first_token-Settles [] = search settles_rules
first_token-Settles (key ∷ keys) =
    Settles-handle _ _ _ (Settles-call_kube _ _) (λ token. Settles-pure (some token))
      (λ _. first_token-Settles keys)

open_client-Settles : (o : Option Token) → Settles (open_client o)
unfolding open_client
open_client-Settles none = search settles_rules
open_client-Settles (some token) = search (settles_rules, check_token_access-Settles)

pub init_nginxpm_client-Settles :
    (namespace : Text) (name : Option TokenName) → Settles (init_nginxpm_client namespace name)
unfolding init_nginxpm_client
init_nginxpm_client-Settles namespace name =
    search (settles_rules, first_token-Settles, open_client-Settles)

or_event-Settles :
    {A : Type 0} (reason : Text) (r : Result A) → r ≢ panic → Settles (or_event reason r)
unfolding or_event
or_event-Settles reason (ok a) h = search settles_rules
or_event-Settles reason (err e) h = search settles_rules
or_event-Settles reason panic h = absurd (h refl)

module _ {O : Type 0} ⦃r : Resource O⦄ where
  pub remove_finalizer-Settles : (f : Text) (o : O) → Settles (remove_finalizer f o)
  unfolding remove_finalizer
  remove_finalizer-Settles f o = search settles_rules

  pub add_finalizer-Settles : (f : Text) (o : O) → Settles (add_finalizer f o)
  unfolding add_finalizer
  add_finalizer-Settles f o = search settles_rules

  pub update_status-Answers :
      (key : NamespacedName) (mutate : Env → O → O) (o : O) → Answers (update_status key mutate o)
  unfolding update_status
  update_status-Answers key mutate o = record { at = λ env t. (_, refl) }

  pub set_condition-Answers :
      (key : NamespacedName) (condition : Condition) (o : O)
      → Answers (set_condition key condition o)
  unfolding set_condition
  set_condition-Answers key condition o = search (answers_rules, update_status-Answers)

collect_ips-Answers : (ips : List Text) (pods : List Pod) → Answers (collect_ips ips pods)
unfolding collect_ips
collect_ips-Answers ips [] = search answers_rules
collect_ips-Answers ips (pod ∷ pods) =
    let rest = λ (found : List Text). collect_ips-Answers found pods in search (answers_rules, rest)

pub get_pods_host_ips-Answers : (pods : List Pod) → Answers (get_pods_host_ips pods)
unfolding get_pods_host_ips
get_pods_host_ips-Answers pods = collect_ips-Answers [] pods

lets_encrypt-Settles :
    (req : NamespacedName) (r : SslLetsEncryptCertificate) (c : Client)
    → Settles (get_lets_encrypt_certificate_by_reference req r c)
unfolding get_lets_encrypt_certificate_by_reference
lets_encrypt-Settles req r c = search (settles_rules, find_certificate_by_id-Settles)

custom-Settles :
    (req : NamespacedName) (r : SslCustomCertificate) (c : Client)
    → Settles (get_custom_certificate_by_reference req r c)
unfolding get_custom_certificate_by_reference
custom-Settles req r c = search (settles_rules, find_certificate_by_id-Settles)

override-Settles :
    {R : Type 0} (o : Option R) (get : R → Action (Option Certificate)) (c : Option Certificate)
    → ((r : R) → Settles (get r))
    → Settles (override o get c)
unfolding override
override-Settles none get c h = search settles_rules
override-Settles (some r) get c h = h r

pub retrieve_certificate-Settles :
    (o : RetrieveCertificateOption) → Settles (retrieve_certificate o)
unfolding retrieve_certificate
retrieve_certificate-Settles o = search (
  settles_rules, override-Settles, lets_encrypt-Settles, custom-Settles,
  find_certificate_by_id-Settles,
)

event-Settles :
    {A : Type 0} (reason : Text) (r : Result A)
    → r ≢ panic
    → Settles (continue (settle r) (or_event reason))
unfolding monad or_event
event-Settles reason (ok a) h = or_event-Settles reason (ok a) h
event-Settles reason (err e) h = or_event-Settles reason (err e) h
event-Settles reason panic h = absurd (h refl)

pub with_event-Settles :
    {A : Type 0} (reason : Text) (m : Action A) → Settles m → Settles (with_event reason m)
unfolding with_event monad
with_event-Settles reason m h = record {
  at = λ env t. let (r, t') = m env t in (event-Settles reason r (h.at env t)).at env t';
}
