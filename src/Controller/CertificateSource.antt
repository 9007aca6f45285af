-- ===== src/Controller/CertificateSource.antt =====
-- Which certificate a resource gets by its references.
use nginxpm_operator.Base.{
  ◌≡◌, refl, ap, ◌∙◌, sym, Option, none, some, find, find-some, ℤ, ◌==◌, int-Eq, int_eq_iff,
}
use nginxpm_operator.Errors.{no_certificate_id}
use nginxpm_operator.Api.{
  SslLetsEncryptCertificate, SslCustomCertificate, NamespacedName, LetsEncryptCertificate,
  CustomCertificate,
}
use nginxpm_operator.Npm.{
  Client, Certificate, find_certificate_by_id, get_certificates, find_by_id, unbound,
}
use nginxpm_operator.Effect.{Env, History, Action, found, fetched, ok, monad, ◌>>=◌, or_fail}
use nginxpm_operator.Effect.Inversion.{bind-eq-ok, or_fail-eq-ok, call_kube-eq-ok}
use nginxpm_operator.Controller.Resources.{
  Resource, get_object, lets_encrypt_certificate-Resource, custom_certificate-Resource,
}
use nginxpm_operator.Controller.Certificates.{
  RetrieveCertificateOption, namespace_or, get_lets_encrypt_certificate_by_reference,
  get_custom_certificate_by_reference, override, retrieve_certificate,
}

-- At some time the API server answered with the resource of that name, and its status had the id.
abbrev pub LetsEncryptHasId : Env → NamespacedName → ℤ → Type 0
LetsEncryptHasId env key id =
    (h : History) × (lec : LetsEncryptCertificate) × (env.lets_encrypt_certificates.get h key
      ≡ found lec)
    × (lec.status.id ≡ some id)

abbrev pub CustomHasId : Env → NamespacedName → ℤ → Type 0
CustomHasId env key id =
    (h : History) × (custom : CustomCertificate) × (env.custom_certificates.get h key
      ≡ found custom)
    × (custom.status.id ≡ some id)

-- The id that the references name: the id itself goes before the custom certificate, and that before
-- the one of Let's Encrypt.
abbrev pub IsNamed :
    Env
    → NamespacedName
    → Option ℤ
    → Option SslCustomCertificate
    → Option SslLetsEncryptCertificate
    → ℤ
    → Type 0
IsNamed env req (some id) custom lets_encrypt n = n ≡ id
IsNamed env req none (some r) lets_encrypt n =
    CustomHasId env (record { namespace = namespace_or req.namespace r.namespace; name = r.name }) n
IsNamed env req none none (some r) n =
    LetsEncryptHasId env
      (record { namespace = namespace_or req.namespace r.namespace; name = r.name }) n
IsNamed env req none none none n = ⊥

unbound-id :
    (o : Option Certificate) (cert : Certificate)
    → unbound o ≡ some cert
    → (c : Certificate) × (o ≡ some c) × (c.id ≡ cert.id)
unbound-id none cert h = cc
unbound-id (some c) cert h = (c, refl, cc)

found-id :
    (c : Client) (id : ℤ) (env : Env) (t : History) (cert : Certificate)
    → (find_certificate_by_id c id env t).0 ≡ ok (some cert)
    → cert.id ≡ id
unfolding find_certificate_by_id find_by_id monad
found-id c id env t cert h =
    let (list, e, e') = bind-eq-ok (get_certificates c) _ env t (some cert) h in
    let u : unbound (find (λ x. x.id == id) list) ≡ some cert = cc in
    let (x, f, q) = unbound-id (find (λ x. x.id == id) list) cert u in
    let test = (find-some (λ x. x.id == id) list x f).1 in sym q ∙ (int_eq_iff x.id id).0 test

-- An object is read, its status has an id, and the certificate is looked up by that id.
by_status : {O : Type 0} → Action O → (O → Option ℤ) → Client → Action (Option Certificate)
by_status get status_id c =
    get >>= λ o. or_fail (status_id o) no_certificate_id >>= λ id. find_certificate_by_id c id

by_status-id :
    {O : Type 0} (get : Action O) (status_id : O → Option ℤ) (c : Client) (env : Env) (t : History)
    (cert : Certificate)
    → (by_status get status_id c env t).0 ≡ ok (some cert)
    → (o : O) × ((get env t).0 ≡ ok o) × (status_id o ≡ some cert.id)
unfolding by_status
by_status-id get status_id c env t cert h =
    let (o, e, h') =
      bind-eq-ok get
        (λ o. or_fail (status_id o) no_certificate_id >>= λ id. find_certificate_by_id c id) env t
        (some cert) h in
    let t' = (get env t).1 in
    let m = or_fail (status_id o) no_certificate_id in
    let (id, e', h'') = bind-eq-ok m (λ id. find_certificate_by_id c id) env t' (some cert) h' in
    let same = found-id c id env (m env t').1 cert h'' in
    (o, e, or_fail-eq-ok (status_id o) no_certificate_id env t' id e' ∙ sym (ap some same))

get_object-found :
    {O : Type 0} ⦃r : Resource O⦄ (key : NamespacedName) (env : Env) (t : History) (o : O)
    → (get_object key env t).0 ≡ ok o
    → (r.store env).get t key ≡ found o
get_object-found ⦃r = r⦄ key env t o h =
    call_kube-eq-ok (fetched r.kind key) (λ env t. (r.store env).get t key) env t o h

lets_encrypt-LetsEncryptHasId :
    (req : NamespacedName) (r : SslLetsEncryptCertificate) (c : Client) (env : Env) (t : History)
    (cert : Certificate)
    → (get_lets_encrypt_certificate_by_reference req r c env t).0 ≡ ok (some cert)
    → LetsEncryptHasId env
        (record { namespace = namespace_or req.namespace r.namespace; name = r.name })
        cert.id
unfolding get_lets_encrypt_certificate_by_reference by_status
lets_encrypt-LetsEncryptHasId req r c env t cert h =
    let key : NamespacedName = record {
      namespace = namespace_or req.namespace r.namespace;
      name = r.name;
    } in
    let (lec, e, id) =
      by_status-id (get_object {O = LetsEncryptCertificate} key) (λ o. o.status.id) c env t cert
        h in
    (t, lec, get_object-found {O = LetsEncryptCertificate} key env t lec e, id)

custom-CustomHasId :
    (req : NamespacedName) (r : SslCustomCertificate) (c : Client) (env : Env) (t : History)
    (cert : Certificate)
    → (get_custom_certificate_by_reference req r c env t).0 ≡ ok (some cert)
    → CustomHasId env
        (record { namespace = namespace_or req.namespace r.namespace; name = r.name })
        cert.id
unfolding get_custom_certificate_by_reference by_status
custom-CustomHasId req r c env t cert h =
    let key : NamespacedName = record {
      namespace = namespace_or req.namespace r.namespace;
      name = r.name;
    } in
    let (custom, e, id) =
      by_status-id (get_object {O = CustomCertificate} key) (λ o. o.status.id) c env t cert h in
    (t, custom, get_object-found {O = CustomCertificate} key env t custom e, id)

-- With no references there is no certificate.
named :
    (req : NamespacedName) (c : Client) (env : Env) (t : History) (cert : Certificate)
    (id : Option ℤ) (custom : Option SslCustomCertificate)
    (lets_encrypt : Option SslLetsEncryptCertificate) (first second : Option Certificate)
    (t' t'' : History)
    → (override lets_encrypt (λ r. get_lets_encrypt_certificate_by_reference req r c) none env t).0
      ≡ ok first
    → (override custom (λ r. get_custom_certificate_by_reference req r c) first env t').0
      ≡ ok second
    → (override id (λ id. find_certificate_by_id c id) second env t'').0 ≡ ok (some cert)
    → IsNamed env req id custom lets_encrypt cert.id
unfolding override monad
named req c env t cert (some id) custom l first second t' t'' e e' e'' =
    found-id c id env t'' cert e''
named req c env t cert none (some r) l first second t' t'' e e' e'' =
    custom-CustomHasId req r c env t' cert cc
named req c env t cert none none (some r) first second t' t'' e e' e'' =
    lets_encrypt-LetsEncryptHasId req r c env t cert cc
named req c env t cert none none none first second t' t'' e e' e'' = cc

-- A certificate that the references of a resource yield is the one they name: with an id, the
-- certificate has that id; without one, it has the id in the status of the custom certificate that
-- is referred to, and without that reference, the id in the status of the Let's Encrypt certificate,
-- in the namespace of the reference or else of the resource. Without references there is none.
pub retrieve_certificate-IsNamed :
    (o : RetrieveCertificateOption) (env : Env) (t : History) (cert : Certificate)
    → (retrieve_certificate o env t).0 ≡ ok (some cert)
    → IsNamed env o.req o.certificate_id o.custom_certificate o.lets_encrypt_certificate cert.id
unfolding retrieve_certificate
retrieve_certificate-IsNamed o env t cert h =
    let by_custom : SslCustomCertificate → Action (Option Certificate) =
      λ r. get_custom_certificate_by_reference o.req r o.client in
    let by_id : ℤ → Action (Option Certificate) = λ id. find_certificate_by_id o.client id in
    let m =
      override o.lets_encrypt_certificate
        (λ r. get_lets_encrypt_certificate_by_reference o.req r o.client) none in
    let (first, e, h') =
      bind-eq-ok m
        (λ f. override o.custom_certificate by_custom f >>= λ s. override o.certificate_id by_id s)
        env t (some cert) h in
    let t' = (m env t).1 in
    let m' = override o.custom_certificate by_custom first in
    let (second, e', h'') =
      bind-eq-ok m' (λ s. override o.certificate_id by_id s) env t' (some cert) h' in
    named o.req o.client env t cert o.certificate_id o.custom_certificate o.lets_encrypt_certificate
      first second t' (m' env t').1 e e' h''
