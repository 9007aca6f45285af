-- ===== src/Controller/ReadOnly.antt =====
-- The shared helpers that write nothing to the instance.
use nginxpm_operator.Base.{arith, Text, All, Option, none, some, List, [], ◌∷◌}
use nginxpm_operator.Api.{NamespacedName, Condition, Token, TokenName}
use nginxpm_operator.Effect.{Env, History, Retry, returns, calls, Action, Result, ok, err, panic}
use nginxpm_operator.Effect.Emits.{Emits, Emits-handle, Emits-call_kube, Emits-pure, emits_rules}
use nginxpm_operator.Npm.ReadOnly.{check_token_access-IsRead}
use nginxpm_operator.Effect.Traffic.{IsRead}
use nginxpm_operator.Controller.Resources.{Resource, token-Resource}
use nginxpm_operator.Controller.Helpers.{
  first_token, open_client, init_nginxpm_client, status_attempt, run_attempts, update_status,
  set_condition, with_event, or_event,
}

or_event-IsRead : {A : Type 0} (reason : Text) (r : Result A) → Emits IsRead (or_event reason r)
unfolding or_event
or_event-IsRead reason (ok a) = search emits_rules
or_event-IsRead reason (err e) = search emits_rules
or_event-IsRead reason panic = search emits_rules

pub with_event-IsRead :
    {A : Type 0} (reason : Text) (m : Action A)
    → Emits IsRead m
    → Emits IsRead (with_event reason m)
unfolding with_event
with_event-IsRead reason m h = search (emits_rules, or_event-IsRead)

module _ {O : Type 0} ⦃r : Resource O⦄ where
  status_attempt-IsRead :
      (key : NamespacedName) (mutate : Env → O → O) (o : O) (env : Env) (t : History)
      → All IsRead t
      → All IsRead (status_attempt key mutate o env t).1
  unfolding status_attempt
  status_attempt-IsRead key mutate o env t h = ground arith

  run_attempts-IsRead :
      (retry : Retry) (key : NamespacedName) (mutate : Env → O → O) (o : O) (env : Env)
      (t : History)
      → All IsRead t
      → All IsRead (run_attempts retry key mutate o env t).1
  unfolding run_attempts
  run_attempts-IsRead (returns e) key mutate o env t h = h
  run_attempts-IsRead (calls next) key mutate o env t h =
      let (done, t') = status_attempt key mutate o env t in
      run_attempts-IsRead (next done.1) key mutate done.0 env t'
        (status_attempt-IsRead key mutate o env t h)

  pub update_status-IsRead :
      (key : NamespacedName) (mutate : Env → O → O) (o : O)
      → Emits IsRead (update_status key mutate o)
  unfolding update_status
  update_status-IsRead key mutate o = record {
    at = λ env t h. run_attempts-IsRead (env.retry_on_conflict t) key mutate o env t h;
  }

  pub set_condition-IsRead :
      (key : NamespacedName) (condition : Condition) (o : O)
      → Emits IsRead (set_condition key condition o)
  unfolding set_condition
  set_condition-IsRead key condition o = search (emits_rules, update_status-IsRead)

first_token-IsRead : (keys : List NamespacedName) → Emits IsRead (first_token keys)
unfolding first_token
first_token-IsRead [] = search emits_rules
first_token-IsRead (key ∷ keys) =
    Emits-handle _ _ _ (Emits-call_kube _ _ tt) (λ token. Emits-pure (some token))
      (λ _. first_token-IsRead keys)

open_client-IsRead : (o : Option Token) → Emits IsRead (open_client o)
unfolding open_client
open_client-IsRead none = search emits_rules
open_client-IsRead (some token) = search (emits_rules, check_token_access-IsRead)

pub init_nginxpm_client-IsRead :
    (namespace : Text) (name : Option TokenName) → Emits IsRead (init_nginxpm_client namespace name)
unfolding init_nginxpm_client
init_nginxpm_client-IsRead namespace name =
    search (emits_rules, first_token-IsRead, open_client-IsRead)
