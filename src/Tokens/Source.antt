-- ===== src/Tokens/Source.antt =====
-- Where the client of a token resource has its token from.
use nginxpm_operator.Base.{
  Bool, true, false, ℕ, ◌≡◌, refl, arith, ◌∙◌, Option, none, some, ◌∷◌, [], ◌++◌, ◌⊎◌, inl, inr,
  sym, Text, txt, nat-Eq, nat_eq_iff,
}
use nginxpm_operator.Errors.{missing_secret_field}
use nginxpm_operator.Json.{Json, obj, str}
use nginxpm_operator.Api.{NamespacedName, Token, SecretData}
use nginxpm_operator.Npm.{
  Client, Response, new_client, new_client_from_token, do_request, read_response, is_ok,
  decode_token_response, create_client_token, check_connection, object, authorization,
}
use nginxpm_operator.Npm.Inversion.{do_request-eq-ok, read_response-eq-ok}
use nginxpm_operator.Effect.{
  Action, Result, found, kind_secret, fetch, fetched, Env, History, Body, Request, reply, ok,
  post_method, json, monad, ◌>>=◌, pure, read, or_fail,
}
use nginxpm_operator.Effect.Inversion.{bind-eq-ok, or_fail-eq-ok, call_kube-eq-ok}
use nginxpm_operator.Controller.{secret_value}
use nginxpm_operator.Tokens.{connect, init_client, has_valid_token, clock}

-- The POST of the credentials.
abbrev pub login_request : Text → Text → Text → Request
login_request endpoint identity secret = record {
  method = post_method;
  url = endpoint ++ txt "/api/tokens";
  authorization = none;
  body = json (obj (object ((txt "identity", str identity) ∷ (txt "secret", str secret) ∷ [])));
}

-- The instance answered to the credentials with the token and the expiry of the client.
pub record IsIssued (env : Env) (endpoint identity secret : Text) (c : Client) : Type 0 where
  pub before : History
  pub body : Json
  pub answered : env.http before (login_request endpoint identity secret) ≡ reply 200 (some body)
  pub decoded :
      decode_token_response env.parse_time body
      ≡ some (record { token = c.token; expires = c.expires })
  pub same_endpoint : c.endpoint ≡ endpoint

made : (c c' : Client) → Result.ok c ≡ ok c' → c ≡ c'
made c c' h = cc

ok_reply :
    (status : ℕ) (body : Option Json) (j : Json)
    → is_ok status ≡ true
    → body ≡ some j
    → reply status body ≡ reply 200 (some j)
ok_reply status body j e e' = ground (arith, nat_eq_iff status 200)

module _ (env : Env) (endpoint identity secret : Text) where
  credentials : Body
  credentials =
      json (obj (object ((txt "identity", str identity) ∷ (txt "secret", str secret) ∷ [])))

  -- What the call does with the answer to its request.
  taken : Response → Action Client
  taken resp = do
    parse ← read (λ env. env.parse_time)
    answer ← read_response is_ok (decode_token_response parse) resp
    pure (record (new_client endpoint) { token = answer.token; expires = answer.expires })

  taken-IsIssued :
      (resp : Response) (t before : History) (c : Client)
      → env.http before (login_request endpoint identity secret) ≡ reply resp.status_code resp.body
      → (taken resp env t).0 ≡ ok c
      → IsIssued env endpoint identity secret c
  unfolding taken new_client monad
  taken-IsIssued resp t before c answered h =
      let decoder = decode_token_response env.parse_time in
      let (answer, e, h') =
        bind-eq-ok (read_response is_ok decoder resp)
          (λ a. pure (record { endpoint = endpoint; token = a.token; expires = a.expires })) env t c
          h in
      let (accepted, (j, has_body, decoded)) =
        read_response-eq-ok is_ok decoder resp env t answer e in
      rw (← made _ c h') (record {
        before = before;
        body = j;
        answered = answered ∙ ok_reply resp.status_code resp.body j accepted has_body;
        decoded = decoded;
        same_endpoint = refl;
      })

  create_client_token-IsIssued :
      (t : History) (c : Client)
      → (create_client_token (new_client endpoint) identity secret env t).0 ≡ ok c
      → IsIssued env endpoint identity secret c
  unfolding create_client_token taken credentials authorization new_client
  create_client_token-IsIssued t c h =
      let (resp, e, h') =
        bind-eq-ok (do_request (new_client endpoint) post_method (txt "/api/tokens") credentials)
          taken env t c h in
      let t' =
        (do_request (new_client endpoint) post_method (txt "/api/tokens") credentials env t).1 in
      taken-IsIssued resp t' t c
        (do_request-eq-ok (new_client endpoint) post_method (txt "/api/tokens") credentials env t
          resp e)
        h'

-- The secret of the resource has the value under the key.
abbrev pub SecretHas : Env → NamespacedName → Token → Text → Text → Type 0
SecretHas env req token key value =
    (h : History) × (values : SecretData) × (env.secrets h
        (record { namespace = req.namespace; name = token.spec.secret.secret_name })
      ≡ found values)
    × (secret_value key values ≡ some value)

-- The token in the status, which is still valid.
abbrev pub IsKept : Env → Token → Client → Type 0
IsKept env token c =
    (h : History) × (has_valid_token token (env.now h) ≡ true) × (c ≡ new_client_from_token token)

-- A token that the instance issued for the credentials in the secret.
abbrev pub IsNew : Env → NamespacedName → Token → Client → Type 0
IsNew env req token c =
    (identity : Text) × (secret : Text) × SecretHas env req token (txt "identity") identity
    × SecretHas env req token (txt "secret") secret
    × IsIssued env token.spec.endpoint identity secret c

connect-kept :
    (token : Token) (identity secret : Text) (env : Env) (t : History) (c : Client)
    → (connect token identity secret true env t).0 ≡ ok c
    → c ≡ new_client_from_token token
unfolding connect monad
connect-kept token identity secret env t c h =
    let client = new_client_from_token token in
    let (u, e, h') = bind-eq-ok (check_connection client) (λ _. pure client) env t c h in
    made c client (sym h')

connect-new :
    (token : Token) (identity secret : Text) (env : Env) (t : History) (c : Client)
    → (connect token identity secret false env t).0 ≡ ok c
    → IsIssued env token.spec.endpoint identity secret c
unfolding connect
connect-new token identity secret env t c h =
    let client = new_client token.spec.endpoint in
    let (u, e, h') =
      bind-eq-ok (check_connection client) (λ _. create_client_token client identity secret) env t c
        h in
    create_client_token-IsIssued env token.spec.endpoint identity secret
      (check_connection client env t).1 c h'

-- The status of the token at the time `h` decides between the two.
connected :
    (req : NamespacedName) (token : Token) (identity secret : Text) (env : Env) (t h : History)
    (c : Client) (b : Bool)
    → SecretHas env req token (txt "identity") identity
    → SecretHas env req token (txt "secret") secret
    → has_valid_token token (env.now h) ≡ b
    → (connect token identity secret b env t).0 ≡ ok c
    → IsKept env token c ⊎ IsNew env req token c
connected req token identity secret env t h c true has_identity has_secret valid e =
    inl (h, valid, connect-kept token identity secret env t c e)
connected req token identity secret env t h c false has_identity has_secret invalid e =
    inr (identity, secret, has_identity, has_secret, connect-new token identity secret env t c e)

module _ (req : NamespacedName) (token : Token) (env : Env) where
  by_clock : Text → Text → Action Client
  by_clock identity secret =
      clock >>= λ now. connect token identity secret (has_valid_token token now)

  by_secret : SecretData → Text → Action Client
  by_secret values identity =
      or_fail (secret_value (txt "secret") values) missing_secret_field >>= λ secret.
      by_clock identity secret

  by_values : SecretData → Action Client
  by_values values =
      or_fail (secret_value (txt "identity") values) missing_secret_field >>= λ identity.
      by_secret values identity

  key : NamespacedName
  key = record { namespace = req.namespace; name = token.spec.secret.secret_name }

  by_clock-cases :
      (identity secret : Text) (t : History) (c : Client)
      → SecretHas env req token (txt "identity") identity
      → SecretHas env req token (txt "secret") secret
      → (by_clock identity secret env t).0 ≡ ok c
      → IsKept env token c ⊎ IsNew env req token c
  unfolding by_clock clock monad
  by_clock-cases identity secret t c has_identity has_secret e =
      connected req token identity secret env t t c (has_valid_token token (env.now t)) has_identity
        has_secret refl e

  by_values-cases :
      (values : SecretData) (t h : History) (c : Client)
      → env.secrets h key ≡ found values
      → (by_values values env t).0 ≡ ok c
      → IsKept env token c ⊎ IsNew env req token c
  unfolding by_values by_secret key
  by_values-cases values t h c is_found e =
      let read_identity = or_fail (secret_value (txt "identity") values) missing_secret_field in
      let read_secret = or_fail (secret_value (txt "secret") values) missing_secret_field in
      let (identity, e', rest) = bind-eq-ok read_identity (by_secret values) env t c e in
      let t' = (read_identity env t).1 in
      let (secret, e'', rest') = bind-eq-ok read_secret (by_clock identity) env t' c rest in
      by_clock-cases identity secret (read_secret env t').1 c
        (h, values, is_found, or_fail-eq-ok _ missing_secret_field env t identity e')
        (h, values, is_found, or_fail-eq-ok _ missing_secret_field env t' secret e'') rest'

  -- A client that a token resource yields has the token of the status, which is valid at the time
  -- it is looked at, or else the endpoint of the resource, and the token and the expiry that the
  -- instance gave there as its answer, with the status 200, to the credentials in the secret of the
  -- resource.
  pub init_client-IsNew :
      (t : History) (c : Client)
      → (init_client req token env t).0 ≡ ok c
      → IsKept env token c ⊎ IsNew env req token c
  unfolding init_client by_values by_secret by_clock key
  init_client-IsNew t c e =
      let get = fetch kind_secret (λ env. env.secrets) key in
      let (values, e', rest) = bind-eq-ok get by_values env t c e in
      by_values-cases values (get env t).1 t c
        (call_kube-eq-ok (fetched kind_secret key) (λ env t. env.secrets t key) env t values e')
        rest
