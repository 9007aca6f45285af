-- ===== src/Controller/Helpers.antt =====
-- internal/controller/helpers.go: the client from a token resource, finalizers, and the update of
-- a status. The timeout of each call is part of how the environment answers.
use nginxpm_operator.Base.{
  ℕ, ◌||◌, Option, none, some, List, [], ◌∷◌, ◌++◌, map, if◌then◌else◌, is_none, ◌==◌, text-Eq,
  Text, txt,
}
use nginxpm_operator.Errors.{Error, KubeError, token_not_found}
use nginxpm_operator.Api.{
  Condition, NamespacedName, Token, TokenName, ConditionType, reconciling, ready, condition_unknown,
  condition_false, condition_true, Message, failure,
}
use nginxpm_operator.Npm.{Client, new_client_from_token, check_token_access}
use nginxpm_operator.Effect.{
  Env, History, Kube, found, failed, Retry, returns, calls, Action, Result, ok, err, panic, ◌>>=◌,
  ◌>>◌, pure, fail, attempt, handle, read, fetched, status_updated, record_event, nil_dereference,
}
use nginxpm_operator.Controller.Resources.{Resource, get_object, update_object, token-Resource}

abbrev pub token_default_name : Text
token_default_name = txt "token-nginxpm"

abbrev pub token_system_namespace : Text
token_system_namespace = txt "nginxpm-operator-system"

abbrev pub token_default_namespace : Text
token_default_namespace = txt "default"

abbrev prepend : Text → List Text → List Text
prepend [] names = names
prepend (b ∷ s) names = (b ∷ s) ∷ names

-- A name or namespace that is given and not empty goes in front.
unfoldable pub token_names : Option TokenName → List Text
token_names none = token_default_name ∷ []
token_names (some n) = prepend n.name (token_default_name ∷ [])

abbrev prepend_option : Option Text → List Text → List Text
prepend_option none names = names
prepend_option (some name) names = prepend name names

unfoldable pub token_namespaces : Text → Option TokenName → List Text
token_namespaces namespace none = namespace ∷ token_system_namespace ∷ token_default_namespace ∷ []
token_namespaces namespace (some n) =
    prepend_option n.namespace (namespace ∷ token_system_namespace ∷ token_default_namespace ∷ [])

-- The two loops, one after the other: for each namespace each name.
unfoldable pub token_keys : List Text → List Text → List NamespacedName
token_keys [] names = []
token_keys (namespace ∷ namespaces) names =
    map (λ name. record { namespace = namespace; name = name }) names ++ token_keys namespaces names

-- The loop ends at the first `Get` with no error.
unfoldable pub first_token : List NamespacedName → Action (Option Token)
first_token [] = pure none
first_token (key ∷ keys) =
    let rest = first_token keys in handle (get_object key) (λ token. pure (some token)) (λ _. rest)

unfoldable pub usable : Option Token → Option Token
usable none = none
usable (some token) =
    if token.metadata.name == [] || is_none token.status.token then none else some token

unfoldable pub open_client : Option Token → Action Client
open_client none = fail token_not_found
open_client (some token) = do
  let client = new_client_from_token token
  check_token_access client
  pure client

unfoldable pub init_nginxpm_client : Text → Option TokenName → Action Client
unfolding usable open_client
init_nginxpm_client namespace token_name = do
  token ← first_token (token_keys (token_namespaces namespace token_name) (token_names token_name))
  open_client (usable token)

-- The object that the caller holds after an attempt, and the error of the attempt.
abbrev pub Attempt : Type 0 → Type 0
Attempt O = O × Option KubeError

module _ {O : Type 0} ⦃r : Resource O⦄ where
  -- The object comes back as the API server stored it.
  unfoldable pub remove_finalizer : Text → O → Action O
  remove_finalizer finalizer o = do
    let finalizers = (r.metadata o).finalizers
    present ← read (λ env. env.contains_finalizer finalizers finalizer)
    rest ← read (λ env. env.remove_finalizer finalizers finalizer)
    if present then update_object (r.with_finalizers o rest) else pure o

  unfoldable pub add_finalizer : Text → O → Action O
  add_finalizer finalizer o = do
    let finalizers = (r.metadata o).finalizers
    present ← read (λ env. env.contains_finalizer finalizers finalizer)
    more ← read (λ env. env.add_finalizer finalizers finalizer)
    if present then pure o else update_object (r.with_finalizers o more)

  abbrev stored : O → Kube O → Attempt O
  stored o (found o') = (o', none)
  stored o (failed e) = (o, some e)

  -- One attempt: the object is fetched, changed, and its status is sent.
  unfoldable pub status_attempt :
      NamespacedName → (Env → O → O) → O → Env → History → Attempt O × History
  status_attempt key mutate o env t =
      let t' = fetched r.kind key ∷ t in
      elim ((r.store env).get t key) [
        | failed e ↦ ((o, some e), t')
        | found o' ↦
            let changed = mutate env o' in
            (
              stored changed ((r.store env).update_status t' changed),
              status_updated (r.embed changed) ∷ t',
            )
      ]

  -- The calls that `retry.RetryOnConflict` makes of the closure, which shares the object.
  unfoldable pub run_attempts :
      Retry → NamespacedName → (Env → O → O) → O → Env → History → Attempt O × History
  unfolding status_attempt
  run_attempts (returns e) key mutate o env t = ((o, e), t)
  run_attempts (calls next) key mutate o env t =
      let (done, t') = status_attempt key mutate o env t in
      run_attempts (next done.1) key mutate done.0 env t'

  -- The caller goes on with the object, and most callers drop the error.
  unfoldable pub update_status : NamespacedName → (Env → O → O) → O → Action (Attempt O)
  update_status key mutate o env t =
      let (done, t') = run_attempts (env.retry_on_conflict t) key mutate o env t in (ok done, t')

  -- `UpdateStatus` with `meta.SetStatusCondition`
  unfoldable pub set_condition : NamespacedName → Condition → O → Action O
  set_condition key condition o = do
    done ←
        update_status key
          (λ env o. r.with_conditions o (env.set_condition (r.conditions o) condition)) o
    pure done.0

-- `if err != nil { r.Recorder.Event(...); return err }`
unfoldable pub or_event : {A : Type 0} → Text → Result A → Action A
or_event reason (ok a) = pure a
or_event reason (err e) = do record_event reason; fail e
or_event reason panic = nil_dereference

unfoldable pub with_event : {A : Type 0} → Text → Action A → Action A
unfolding or_event
with_event reason m = attempt m >>= or_event reason

-- `ctrl.Result` with the delay in seconds, and the error beside it.
pub record ReconcileResult : Type 0 where
  pub requeue_after : ℕ
  pub error : Option Error

abbrev pub done : ReconcileResult
done = record { requeue_after = 0; error = none }

abbrev pub retry_after : ℕ → Error → ReconcileResult
retry_after seconds e = record { requeue_after = seconds; error = some e }

-- `metav1.Condition` literals of the reconcilers
abbrev pub starting : Condition
starting = record {
  type = reconciling;
  status = condition_unknown;
  reason = txt "Reconciling";
  message = Message.text (txt "Starting reconciliation");
}

abbrev pub failed_with : Text → Error → Condition
failed_with reason e = record {
  type = ConditionType.error;
  status = condition_false;
  reason = reason;
  message = failure e;
}

abbrev pub succeeded : Text → Text → Condition
succeeded reason message = record {
  type = ready;
  status = condition_true;
  reason = reason;
  message = Message.text message;
}
