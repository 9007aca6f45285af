-- ===== src/Npm/Sending.antt =====
-- The requests that the check of a token and the calls about access lists send.
pub mod Hosts
use nginxpm_operator.Base.{ℕ, Bool, true, ◌≡◌, ◌∙◌, ◌∷◌, ◌++◌, ℤ, Text, txt}
use nginxpm_operator.Json.{Decoder}
use nginxpm_operator.Effect.{
  Env, History, Method, Body, Reply, no_reply, reply, Request, json, no_body, get_method,
  post_method, put_method, monad,
}
use nginxpm_operator.Effect.Sending.{requests, IsSilent, requests-bind, silent_rules}
use nginxpm_operator.Npm.Requests.{
  Client, Response, authorization, do_request, receive, read_response, get_list, check_status,
  check_token_access,
}
use nginxpm_operator.Npm.AccessLists.{
  AccessListRequestInput, access_list_path, access_list_json, find_access_list_by_id,
  create_access_list, update_access_list,
}

abbrev pub request_to : Client → Method → Text → Body → Request
request_to c method path body = record {
  method = method;
  url = c.endpoint ++ path;
  authorization = authorization c;
  body = body;
}

receive-IsSilent : (r : Reply) → IsSilent (receive r)
unfolding receive
receive-IsSilent no_reply = search silent_rules
receive-IsSilent (reply status body) = search silent_rules

read_response-IsSilent :
    {A : Type 0} (accepts : ℕ → Bool) (d : Decoder A) (r : Response)
    → IsSilent (read_response accepts d r)
unfolding read_response
read_response-IsSilent accepts d r = search silent_rules

requests-do_request :
    (c : Client) (m : Method) (path : Text) (body : Body) (env : Env) (t : History)
    → env.valid_url (c.endpoint ++ path) ≡ true
    → requests (do_request c m path body env t).1 ≡ request_to c m path body ∷ requests t
unfolding do_request monad
requests-do_request c m path body env t valid =
    rw valid ((receive-IsSilent (env.http t (request_to c m path body))).at env _)

pub requests-find_access_list_by_id :
    (c : Client) (id : ℤ) (env : Env) (t : History)
    → env.valid_url (c.endpoint ++ txt "/api/nginx/access-lists") ≡ true
    → requests (find_access_list_by_id c id env t).1
      ≡ request_to c get_method (txt "/api/nginx/access-lists") no_body ∷ requests t
unfolding find_access_list_by_id get_list
requests-find_access_list_by_id c id env t valid =
    requests-bind _ _ env t (λ l. search silent_rules)
    ∙ (requests-bind _ _ env t (λ r. search (silent_rules, read_response-IsSilent))
        ∙ requests-do_request c get_method (txt "/api/nginx/access-lists") no_body env t valid)

pub requests-create_access_list :
    (c : Client) (input : AccessListRequestInput) (env : Env) (t : History)
    → env.valid_url (c.endpoint ++ txt "/api/nginx/access-lists") ≡ true
    → requests (create_access_list c input env t).1
      ≡ request_to c post_method (txt "/api/nginx/access-lists") (json (access_list_json input))
        ∷ requests t
unfolding create_access_list
requests-create_access_list c input env t valid =
    requests-bind _ _ env t (λ r. search (silent_rules, read_response-IsSilent))
    ∙ requests-do_request c post_method (txt "/api/nginx/access-lists")
        (json (access_list_json input)) env t valid

pub requests-update_access_list :
    (c : Client) (id : ℤ) (input : AccessListRequestInput) (env : Env) (t : History)
    → env.valid_url (c.endpoint ++ access_list_path id) ≡ true
    → requests (update_access_list c id input env t).1
      ≡ request_to c put_method (access_list_path id) (json (access_list_json input)) ∷ requests t
unfolding update_access_list
requests-update_access_list c id input env t valid =
    requests-bind _ _ env t (λ r. search (silent_rules, read_response-IsSilent))
    ∙ requests-do_request c put_method (access_list_path id) (json (access_list_json input)) env t
        valid

check_status-IsSilent : (r : Response) → IsSilent (check_status r)
unfolding check_status
check_status-IsSilent r = search silent_rules

pub requests-check_token_access :
    (c : Client) (env : Env) (t : History)
    → env.valid_url (c.endpoint ++ txt "/api/users/me") ≡ true
    → requests (check_token_access c env t).1
      ≡ request_to c get_method (txt "/api/users/me") no_body ∷ requests t
unfolding check_token_access
requests-check_token_access c env t valid =
    requests-bind _ _ env t check_status-IsSilent
    ∙ requests-do_request c get_method (txt "/api/users/me") no_body env t valid
