-- ===== src/Controller/TokenSearch.antt =====
-- Which token resource a client is opened with.
use nginxpm_operator.Base.{
  true, false, ◌≡◌, refl, arith, Option, none, some, List, [], ◌∷◌, In, inl, inr, is_some, is_none,
  Bool-cases, ◌||◌, ◌==◌, text-Eq, Text,
}
use nginxpm_operator.Api.{NamespacedName, Token, TokenName}
use nginxpm_operator.Npm.{Client, new_client_from_token, check_token_access}
use nginxpm_operator.Effect.{
  Env, History, Result, ok, err, panic, found, Kube-cases, fetched, kind_token, continue, pure,
  monad,
}
use nginxpm_operator.Controller.Resources.{token-Resource}
use nginxpm_operator.Controller.Helpers.{
  token_names, token_namespaces, token_keys, first_token, usable, open_client, init_nginxpm_client,
}

-- The token that the API server answered with for one of the names that are tried.
pub record FoundToken (env : Env) (keys : List NamespacedName) (token : Token) : Type 0 where
  pub key : NamespacedName
  pub tried : In key keys
  pub when_asked : History
  pub answered : env.tokens.get when_asked key ≡ found token

first_token-FoundToken :
    (env : Env) (every keys : List NamespacedName) (token : Token) (t : History)
    → ((k : NamespacedName) → In k keys → In k every)
    → (first_token keys env t).0 ≡ ok (some token)
    → FoundToken env every token
unfolding first_token monad
first_token-FoundToken env every [] token t sub e = absurd (cc)
first_token-FoundToken env every (key ∷ keys) token t sub e =
    elim (Kube-cases (env.tokens.get t key)) [
      | inr (e', q) ↦
          first_token-FoundToken env every keys token (fetched kind_token key ∷ t)
            (λ k i. sub k (inr i)) (ground arith)
      | inl (token', q) ↦
          let same : token' ≡ token = ground arith in
          record { key = key; tried = sub key (inl refl); when_asked = t; answered = rw (← same) q }
    ]

-- The client is that of a token which was found and has a token in its status, and the instance has
-- accepted it.
pub record Opened (env : Env) (keys : List NamespacedName) (c : Client) : Type 0 where
  pub token : Token
  pub is_found : FoundToken env keys token
  pub has_token : is_some token.status.token ≡ true
  pub client : c ≡ new_client_from_token token
  pub when_checked : History
  pub accepted : (check_token_access c env when_checked).0 ≡ ok tt

after_check :
    (r : Result (Unit {0})) (c' c : Client) (env : Env) (t : History)
    → (continue r (λ _. pure c') env t).0 ≡ ok c
    → (r ≡ ok tt) × (c ≡ c')
unfolding monad
after_check (ok u) c' c env t e = (refl, cc)
after_check (err x) c' c env t e = absurd (cc)
after_check panic c' c env t e = absurd (cc)

has-some : {A : Type 0} (o : Option A) → is_none o ≡ false → is_some o ≡ true
has-some none e = absurd (cc)
has-some (some a) e = refl

open_client-Opened :
    (env : Env) (keys : List NamespacedName) (o : Option Token) (c : Client) (t : History)
    → ((token : Token) → o ≡ some token → FoundToken env keys token)
    → (open_client (usable o) env t).0 ≡ ok c
    → Opened env keys c
unfolding open_client usable monad
open_client-Opened env keys none c t sub e = absurd (cc)
open_client-Opened env keys (some token) c t sub e =
    elim (Bool-cases (token.metadata.name == [] || is_none token.status.token)) [
      | inl refused ↦ absurd (ground arith)
      | inr q ↦
          let c' = new_client_from_token token in
          let opened : (open_client (some token) env t).0 ≡ ok c = ground arith in
          let (accepted, client) =
            after_check (check_token_access c' env t).0 c' c env (check_token_access c' env t).1
              opened in
          record {
            token = token;
            is_found = sub token refl;
            has_token = has-some token.status.token (ground arith);
            client = client;
            when_checked = t;
            accepted = rw client accepted;
          }
    ]

init-Opened :
    (env : Env) (keys : List NamespacedName) (r : Result (Option Token)) (c : Client) (t : History)
    → ((token : Token) → r ≡ ok (some token) → FoundToken env keys token)
    → (continue r (λ o. open_client (usable o)) env t).0 ≡ ok c
    → Opened env keys c
unfolding monad
init-Opened env keys (ok o) c t sub e =
    open_client-Opened env keys o c t (λ token q. sub token (rw q refl)) e
init-Opened env keys (err x) c t sub e = absurd (cc)
init-Opened env keys panic c t sub e = absurd (cc)

-- A client that a reconciler gets is that of a token resource which the API server answered with
-- under one of the names that are tried, whose status has a token, and which the instance has just
-- accepted.
pub init_nginxpm_client-Opened :
    (env : Env) (namespace : Text) (name : Option TokenName) (c : Client) (t : History)
    → (init_nginxpm_client namespace name env t).0 ≡ ok c
    → Opened env (token_keys (token_namespaces namespace name) (token_names name)) c
unfolding init_nginxpm_client monad
init_nginxpm_client-Opened env namespace name c t e =
    let keys = token_keys (token_namespaces namespace name) (token_names name) in
    init-Opened env keys (first_token keys env t).0 c (first_token keys env t).1
      (λ token q. first_token-FoundToken env keys keys token t (λ k i. i) q) e
