-- ===== src/Npm/Requests.antt =====
-- pkg/nginxpm/client.go: the client, its requests, and the tokens. `http.Client`, the headers that
-- never change and the texts of the errors are left out.
use nginxpm_operator.Base.{
  ℕ, Bool, Option, none, some, List, [], ◌∷◌, ◌++◌, if◌then◌else◌, ltb, leb, ◌&&◌, ℤ, ◌==◌, nat-Eq,
  int-Eq, is_empty, find, Text, txt,
}
use nginxpm_operator.Json.{
  Json, Items, Fields, nil, cons, end, field, str, obj, put, Decoder, decode_list,
}
use nginxpm_operator.Npm.Types.{zero_time, decode_token_response}
use nginxpm_operator.Errors.{request_failed, bad_status, bad_body}
use nginxpm_operator.Api.{Token}
use nginxpm_operator.Effect.{
  Method, get_method, post_method, Body, no_body, json, Reply, no_reply, reply, Action, ◌>>=◌, pure,
  fail, or_fail, read, send,
}

pub record RequestCustomField : Type 0 where
  pub field_name : Text
  pub value : Text
  pub allowed : Bool

-- A Go map from the names of the fields.
abbrev pub RequestCustomFields : Type 0
RequestCustomFields = List (Text × RequestCustomField)

pub record Client : Type 0 where
  pub endpoint : Text
  pub token : Text
  pub expires : ℤ

pub record Response : Type 0 where
  pub status_code : ℕ
  pub body : Option Json

abbrev pub custom_field_unscoped_config : Text
custom_field_unscoped_config = txt "unscoped_config"

unfoldable pub new_client : Text → Client
new_client endpoint = record { endpoint = endpoint; token = []; expires = zero_time }

abbrev or_else : {A : Type 0} → A → Option A → A
or_else d none = d
or_else d (some a) = a

unfoldable pub new_client_from_token : Token → Client
new_client_from_token token = record {
  endpoint = token.spec.endpoint;
  token = or_else [] token.status.token;
  expires = or_else zero_time token.status.expires;
}

-- The header is set when the token is not empty.
unfoldable pub authorization : Client → Option Text
authorization c = if is_empty c.token then none else some c.token

unfoldable pub receive : Reply → Action Response
receive no_reply = fail request_failed
receive (reply status body) = pure (record { status_code = status; body = body })

unfoldable pub do_request : Client → Method → Text → Body → Action Response
unfolding authorization receive
do_request c method path body = do
  let url = c.endpoint ++ path
  valid ← read (λ env. env.valid_url url)
  if valid
      then (send
            (record { method = method; url = url; authorization = authorization c; body = body })
          >>= receive)
      else fail request_failed

-- `resp.StatusCode == http.StatusOK`
abbrev pub is_ok : ℕ → Bool
is_ok status = status == 200

-- `resp.StatusCode >= 200 && resp.StatusCode < 300`
abbrev pub is_success : ℕ → Bool
is_success status = leb 200 status && ltb status 300

-- `resp.StatusCode >= 200 && resp.StatusCode < 400`
abbrev pub is_accepted : ℕ → Bool
is_accepted status = leb 200 status && ltb status 400

unfoldable pub decode_body : {A : Type 0} → Decoder A → Option Json → Option A
decode_body d none = none
decode_body d (some j) = d j

-- The end of every call that reads an answer: the status is tested, then the body is decoded.
unfoldable pub read_response : {A : Type 0} → (ℕ → Bool) → Decoder A → Response → Action A
unfolding decode_body
read_response accepts d resp =
    if accepts resp.status_code
    then or_fail (decode_body d resp.body) bad_body
    else fail (bad_status resp.status_code)

-- The end of every call that reads no answer.
unfoldable pub check_status : Response → Action (Unit {0})
check_status resp = if is_ok resp.status_code then pure tt else fail (bad_status resp.status_code)

-- The `GET` of a list, as every `Find...` begins.
unfoldable pub get_list : {A : Type 0} → Client → Text → Decoder A → Action (List A)
unfolding do_request read_response
get_list c path d = do
  resp ← do_request c get_method path no_body
  read_response is_ok (decode_list d) resp

-- The loop over a list that returns the first entry with an id.
unfoldable pub find_by_id : {A : Type 0} → (A → ℤ) → ℤ → List A → Option A
find_by_id id_of id = find (λ a. id_of a == id)

-- An object from its keys and values.
abbrev pub object : List (Text × Json) → Fields
object [] = end
object ((key, j) ∷ entries) = field key j (object entries)

abbrev pub items {κ} : {A : Type κ} → (A → Json) → List A → Items
items f [] = nil
items f (a ∷ as') = cons (f a) (items f as')

-- `for _, custom := range input.CustomFields { if custom.Allowed { body[...] = ... } }`
unfoldable pub put_custom_fields : RequestCustomFields → Fields → Fields
put_custom_fields [] body = body
put_custom_fields ((key, custom) ∷ customs) body =
    put_custom_fields customs
      (if custom.allowed then put custom.field_name (str custom.value) body else body)

-- The client is changed in place: the action returns it with the token.
unfoldable pub create_client_token : Client → Text → Text → Action Client
unfolding do_request read_response decode_token_response
create_client_token c identity secret = do
  let payload = object ((txt "identity", str identity) ∷ (txt "secret", str secret) ∷ [])
  resp ← do_request c post_method (txt "/api/tokens") (json (obj payload))
  parse ← read (λ env. env.parse_time)
  answer ← read_response is_ok (decode_token_response parse) resp
  pure (record c { token = answer.token; expires = answer.expires })

unfoldable pub check_connection : Client → Action (Unit {0})
unfolding do_request check_status
check_connection c = do resp ← do_request c get_method (txt "/api/") no_body; check_status resp

unfoldable pub check_token_access : Client → Action (Unit {0})
unfolding do_request check_status
check_token_access c = do
  resp ← do_request c get_method (txt "/api/users/me") no_body
  check_status resp
