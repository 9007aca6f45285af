-- ===== src/Npm/Deletion.antt =====
-- The one request that a deletion sends.
use nginxpm_operator.Base.{
  Option, none, some, is_some, if◌then◌else◌, true, ◌≡◌, refl, inl, inr, Bool-cases, ◌∷◌, ◌++◌, ℤ,
  Text, nat-Eq, ◌==◌,
}
use nginxpm_operator.Effect.{
  ok, Env, History, sent, Request, Reply, no_reply, reply, no_body, delete_method, ◌>>=◌, monad,
}
use nginxpm_operator.Npm.Requests.{Client, authorization, do_request, receive, check_status}
use nginxpm_operator.Npm.Types.{ProxyHost}
use nginxpm_operator.Npm.ProxyHosts.{
  find_proxy_host_by_id, delete_existing, delete_proxy_host, proxy_host_path,
}
use nginxpm_operator.Npm.AccessLists.{access_list_path, delete_access_list}
use nginxpm_operator.Npm.Certificates.{certificate_path, delete_certificate}
use nginxpm_operator.Npm.Streams.{stream_path, delete_stream}

abbrev pub deletion : Client → Text → Request
deletion c path = record {
  method = delete_method;
  url = c.endpoint ++ path;
  authorization = authorization c;
  body = no_body;
}

checked : (r : Reply) (env : Env) (t : History) → ((receive r >>= check_status) env t).1 ≡ t
unfolding monad receive check_status
checked no_reply env t = refl
checked (reply status body) env t = elim (Bool-cases (status == 200)) [
  | inl e ↦ rw e refl
  | inr e ↦ rw e refl
]

deletion-History :
    (c : Client) (path : Text) (env : Env) (t : History)
    → env.valid_url (c.endpoint ++ path) ≡ true
    → ((do_request c delete_method path no_body >>= check_status) env t).1
      ≡ sent (deletion c path) ∷ t
unfolding monad do_request
deletion-History c path env t valid =
    rw valid (checked (env.http t (deletion c path)) env (sent (deletion c path) ∷ t))

pub delete_access_list-History :
    (c : Client) (id : ℤ) (env : Env) (t : History)
    → env.valid_url (c.endpoint ++ access_list_path id) ≡ true
    → (delete_access_list c id env t).1 ≡ sent (deletion c (access_list_path id)) ∷ t
unfolding delete_access_list
delete_access_list-History c id = deletion-History c (access_list_path id)

pub delete_stream-History :
    (c : Client) (id : ℤ) (env : Env) (t : History)
    → env.valid_url (c.endpoint ++ stream_path id) ≡ true
    → (delete_stream c id env t).1 ≡ sent (deletion c (stream_path id)) ∷ t
unfolding delete_stream
delete_stream-History c id = deletion-History c (stream_path id)

pub delete_certificate-History :
    (c : Client) (id : ℤ) (env : Env) (t : History)
    → env.valid_url (c.endpoint ++ certificate_path id) ≡ true
    → (delete_certificate c id env t).1 ≡ sent (deletion c (certificate_path id)) ∷ t
unfolding delete_certificate
delete_certificate-History c id = deletion-History c (certificate_path id)

-- If the list of the hosts is received and the URL is one that parses, the deletion of a host
-- sends, after the request for the list, the DELETE of its id if the host is listed, and nothing
-- if not.
pub delete_proxy_host-History :
    (c : Client) (id : ℤ) (host : Option ProxyHost) (env : Env) (t : History)
    → (find_proxy_host_by_id c id env t).0 ≡ ok host
    → env.valid_url (c.endpoint ++ proxy_host_path id) ≡ true
    → (delete_proxy_host c id env t).1 ≡ (
        if is_some host
        then sent (deletion c (proxy_host_path id)) ∷ (find_proxy_host_by_id c id env t).1
        else (find_proxy_host_by_id c id env t).1)
unfolding delete_proxy_host delete_existing monad
delete_proxy_host-History c id none env t e valid = rw e refl
delete_proxy_host-History c id (some h) env t e valid =
    rw e (deletion-History c (proxy_host_path id) env (find_proxy_host_by_id c id env t).1 valid)
