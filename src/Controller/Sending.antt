-- ===== src/Controller/Sending.antt =====
-- The requests of the shared helpers.
use nginxpm_operator.Base.{
  ◌≡◌, ◌∙◌, refl, ap, arith, true, Option, none, some, List, [], ◌∷◌, ◌++◌, Text, txt,
}
use nginxpm_operator.Api.{NamespacedName, Condition, Token, TokenName}
use nginxpm_operator.Effect.{
  Request, get_method, no_body, pure, ◌>>=◌, Env, History, Retry, returns, calls, Action, Result,
  ok, err, panic, attempt, monad,
}
use nginxpm_operator.Effect.Sending.{
  requests, IsSilent, requests-bind, bind-runs, IsSilent-handle, IsSilent-pure, silent_rules,
}
use nginxpm_operator.Effect.Inversion.{bind-eq-ok, pure-eq-ok, fail-eq-ok}
use nginxpm_operator.Npm.{Client, new_client_from_token, check_token_access}
use nginxpm_operator.Npm.Sending.{request_to, requests-check_token_access}
use nginxpm_operator.Controller.Resources.{Resource, token-Resource, get_object, update_object}
use nginxpm_operator.Controller.Helpers.{
  status_attempt, run_attempts, update_status, set_condition, with_event, or_event,
  remove_finalizer, first_token, open_client, usable, init_nginxpm_client, token_keys, token_names,
  token_namespaces,
}

or_event-IsSilent : {A : Type 0} (reason : Text) (r : Result A) → IsSilent (or_event reason r)
unfolding or_event monad
or_event-IsSilent reason (ok a) = search silent_rules
or_event-IsSilent reason (err e) = search silent_rules
or_event-IsSilent reason panic = record { at = λ env t. refl }

pub requests-with_event :
    {A : Type 0} (reason : Text) (m : Action A) (env : Env) (t : History)
    → requests (with_event reason m env t).1 ≡ requests (m env t).1
unfolding with_event monad
requests-with_event reason m env t =
    requests-bind (attempt m) (or_event reason) env t (or_event-IsSilent reason)

-- A call that answers is not touched by its event.
pub with_event-ok :
    {A : Type 0} (reason : Text) (m : Action A) (a : A) (env : Env) (t : History)
    → (m env t).0 ≡ ok a
    → (with_event reason m env t).0 ≡ ok a
unfolding with_event or_event monad
with_event-ok reason m a env t e = rw e refl

module _ {O : Type 0} ⦃r : Resource O⦄ where
  attempt-silent :
      (key : NamespacedName) (mutate : Env → O → O) (o : O) (env : Env) (t : History)
      → requests (status_attempt key mutate o env t).1 ≡ requests t
  unfolding status_attempt
  attempt-silent key mutate o env t = ground arith

  attempts-silent :
      (retry : Retry) (key : NamespacedName) (mutate : Env → O → O) (o : O) (env : Env)
      (t : History)
      → requests (run_attempts retry key mutate o env t).1 ≡ requests t
  unfolding run_attempts
  attempts-silent (returns e) key mutate o env t = refl
  attempts-silent (calls next) key mutate o env t =
      let (done, t') = status_attempt key mutate o env t in
      attempts-silent (next done.1) key mutate done.0 env t' ∙ attempt-silent key mutate o env t

  pub update_status-IsSilent :
      (key : NamespacedName) (mutate : Env → O → O) (o : O) → IsSilent (update_status key mutate o)
  unfolding update_status
  update_status-IsSilent key mutate o = record {
    at = λ env t. attempts-silent (env.retry_on_conflict t) key mutate o env t;
  }

  pub set_condition-IsSilent :
      (key : NamespacedName) (condition : Condition) (o : O)
      → IsSilent (set_condition key condition o)
  unfolding set_condition
  set_condition-IsSilent key condition o = search (silent_rules, update_status-IsSilent)

  pub get_object-IsSilent : (key : NamespacedName) → IsSilent (get_object {O = O} key)
  unfolding monad
  get_object-IsSilent key = record { at = λ env t. refl }

  update_object-IsSilent : (o : O) → IsSilent (update_object o)
  unfolding monad
  update_object-IsSilent o = record { at = λ env t. refl }

  pub remove_finalizer-IsSilent : (f : Text) (o : O) → IsSilent (remove_finalizer f o)
  unfolding remove_finalizer
  remove_finalizer-IsSilent f o = search (silent_rules, update_object-IsSilent)

first_token-IsSilent : (keys : List NamespacedName) → IsSilent (first_token keys)
unfolding first_token
first_token-IsSilent [] = search silent_rules
first_token-IsSilent (key ∷ keys) =
    IsSilent-handle _ _ _ (get_object-IsSilent {O = Token} key)
      (λ token. IsSilent-pure (some token)) (λ _. first_token-IsSilent keys)

-- The GET that tests a token.
abbrev pub token_request : Client → Request
token_request c = request_to c get_method (txt "/api/users/me") no_body

requests-checked :
    (client c : Client) (env : Env) (t : History)
    → client ≡ c
    → ((path : Text) → env.valid_url (c.endpoint ++ path) ≡ true)
    → requests ((check_token_access client >>= λ _. pure client) env t).1
      ≡ token_request c ∷ requests t
requests-checked client c env t e valid =
    rw e (
      requests-bind _ _ env t (λ u. IsSilent-pure c)
      ∙ requests-check_token_access c env t (valid _))

requests-open_client :
    (o : Option Token) (c : Client) (env : Env) (t : History)
    → ((path : Text) → env.valid_url (c.endpoint ++ path) ≡ true)
    → (open_client o env t).0 ≡ ok c
    → requests (open_client o env t).1 ≡ token_request c ∷ requests t
unfolding open_client
requests-open_client none c env t valid e = absurd (fail-eq-ok _ c env t e)
requests-open_client (some token) c env t valid e =
    let client = new_client_from_token token in
    let (u, e', h) = bind-eq-ok (check_token_access client) (λ _. pure client) env t c e in
    requests-checked client c env t (pure-eq-ok client c env _ h) valid

-- The client of a token resource is made with one request, which tests the token.
pub requests-init_nginxpm_client :
    (namespace : Text) (name : Option TokenName) (c : Client) (env : Env) (t : History)
    → ((path : Text) → env.valid_url (c.endpoint ++ path) ≡ true)
    → (init_nginxpm_client namespace name env t).0 ≡ ok c
    → requests (init_nginxpm_client namespace name env t).1 ≡ token_request c ∷ requests t
unfolding init_nginxpm_client
requests-init_nginxpm_client namespace name c env t valid e =
    let first = first_token (token_keys (token_namespaces namespace name) (token_names name)) in
    let (o, e', h) = bind-eq-ok first (λ o. open_client (usable o)) env t c e in
    ap (λ (x : Result Client × History). requests x.1)
      (bind-runs first (λ o. open_client (usable o)) o env t e')
    ∙ (requests-open_client (usable o) c env (first env t).1 valid h
        ∙ ap (λ (rs : List Request). token_request c ∷ rs) ((first_token-IsSilent _).at env t))
