-- ===== src/Npm/Inversion.antt =====
-- What is known of the answer to a request that a call has accepted.
use nginxpm_operator.Base.{
  Bool, true, false, ℕ, ◌≡◌, refl, Option, none, some, ◌++◌, Text, if◌then◌else◌,
}
use nginxpm_operator.Errors.{request_failed, bad_body, bad_status}
use nginxpm_operator.Json.{Json, Decoder}
use nginxpm_operator.Effect.{
  Env, History, Method, Body, Request, Reply, no_reply, reply, ok, monad, ◌>>=◌, or_fail, send,
  fail,
}
use nginxpm_operator.Effect.Inversion.{or_fail-eq-ok}
use nginxpm_operator.Npm.Requests.{
  Client, Response, do_request, receive, read_response, decode_body, authorization,
}

receive-eq-ok :
    (r : Reply) (env : Env) (t : History) (resp : Response)
    → (receive r env t).0 ≡ ok resp
    → r ≡ reply resp.status_code resp.body
unfolding receive monad
receive-eq-ok no_reply env t resp h = cc
receive-eq-ok (reply status body) env t resp h = cc

pub do_request-eq-ok :
    (c : Client) (m : Method) (path : Text) (b : Body) (env : Env) (t : History) (resp : Response)
    → (do_request c m path b env t).0 ≡ ok resp
    → env.http t
        (record { method = m; url = c.endpoint ++ path; authorization = authorization c; body = b })
      ≡ reply resp.status_code resp.body
unfolding do_request monad
do_request-eq-ok c m path b env t resp h = go (env.valid_url (c.endpoint ++ path)) h
  where
    request : Request
    request = record {
      method = m;
      url = c.endpoint ++ path;
      authorization = authorization c;
      body = b;
    }

    go :
        (valid : Bool)
        → ((if valid then (send request >>= receive) else fail request_failed) env t).0 ≡ ok resp
        → env.http t request ≡ reply resp.status_code resp.body
    go true h = receive-eq-ok (env.http t request) env _ resp h
    go false h = cc

decode_body-eq-some :
    {A : Type 0} (d : Decoder A) (body : Option Json) (a : A)
    → decode_body d body ≡ some a
    → (j : Json) × (body ≡ some j) × (d j ≡ some a)
unfolding decode_body
decode_body-eq-some d none a h = cc
decode_body-eq-some d (some j) a h = (j, refl, h)

-- A status that is accepted, and a body that decodes to the value.
pub read_response-eq-ok :
    {A : Type 0} (accepts : ℕ → Bool) (d : Decoder A) (resp : Response) (env : Env) (t : History)
    (a : A)
    → (read_response accepts d resp env t).0 ≡ ok a
    → (accepts resp.status_code ≡ true) × ((j : Json) × (resp.body ≡ some j) × (d j ≡ some a))
unfolding read_response monad
read_response-eq-ok {A} accepts d resp env t a h = go (accepts resp.status_code) h
  where
    go :
        (b : Bool)
        → ((if b
              then or_fail (decode_body d resp.body) bad_body
              else fail (bad_status resp.status_code))
            env t).0
          ≡ ok a
        → (b ≡ true) × ((j : Json) × (resp.body ≡ some j) × (d j ≡ some a))
    go true h = (
      refl,
      decode_body-eq-some d resp.body a
          (or_fail-eq-ok (decode_body d resp.body) bad_body env t a h),
    )
    go false h = cc
