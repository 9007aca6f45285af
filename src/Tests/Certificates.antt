-- ===== src/Tests/Certificates.antt =====
-- The theorems about certificates, in the small world.
use nginxpm_operator.Base.{
  false, contains, ◌≡◌, refl, some, none, [], ◌∷◌, All, nat-Eq, int-Eq, text-Eq, text_eq, list_eq,
  find, if◌then◌else◌, pos, txt,
}
use nginxpm_operator.Errors.{conflict, bad_status}
use nginxpm_operator.Json.{
  Json, arr, obj, nil, get, decode_int, decode_bool, decode_text, decode_pointer, decode_list,
  decode_fields,
}
use nginxpm_operator.Api.{LetsEncryptCertificate, CustomCertificate}
use nginxpm_operator.Npm.{
  certificate_path, create_let_encrypt_certificate, existing_certificate, create_custom_certificate,
  validate_custom_certificate, post_form, create_empty_custom_certificate,
  upload_custom_certificate, find_custom_certificate_by_id, get_custom_certificates, custom_meta,
  decode_validation, decode_upload, find_let_encrypt_certificate, get_list, do_request, receive,
  read_response, decode_body, decode_certificate, object, find_certificate_by_id, get_certificates,
  find_by_id, any_meta,
}
use nginxpm_operator.Npm.Deletion.{deletion}
use nginxpm_operator.Effect.{
  Env, Method, get_method, post_method, put_method, delete_method, sent, ok, panic, monad, found,
  failed, reply,
}
use nginxpm_operator.Effect.Traffic.{IsRead}
use nginxpm_operator.Controller.{
  done, starting, set_condition, secret_value, with_event, or_event, RetrieveCertificateOption,
  retrieve_certificate, override, get_lets_encrypt_certificate_by_reference,
  get_custom_certificate_by_reference,
}
use nginxpm_operator.Controller.Resources.{
  lets_encrypt_certificate-Resource, custom_certificate-Resource,
}
use nginxpm_operator.Controller.CertificateSource.{IsNamed, retrieve_certificate-IsNamed}
use nginxpm_operator.Certificates.Reconcile
use nginxpm_operator.Certificates.Reconcile.Liveness.{repeated, EndsReleasedIn, repeated-released}
use nginxpm_operator.Certificates.LetsEncrypt.{
  lets_encrypt_certificates, get_dns_challenge_provider_credentials, certificate_request,
}
use nginxpm_operator.Certificates.LetsEncrypt.Deletion.{delete_resource-let_go_lets_encrypt}
use nginxpm_operator.Certificates.LetsEncrypt.Creation.{
  apply_resource-refused, after_refusal, reconcile-IsRead_lets_encrypt,
}
use nginxpm_operator.Certificates.Custom
use nginxpm_operator.Certificates.Custom.{custom_certificates, get_certificate_keys}
use nginxpm_operator.Certificates.Custom.Creation.{apply_resource-panics_custom}
use nginxpm_operator.Tests.World.{
  once_more-IsRetry, world, store, request, wildcard, own_certificate, client, certificate,
}

abbrev created : LetsEncryptCertificate
created = record wildcard {
  status = record wildcard.status { id = some (pos 7); conditions = starting ∷ [] };
}

-- A world that holds the certificate, and one that refuses to store it.
abbrev accepting : Env
accepting = record world { lets_encrypt_certificates = store created }

abbrev refusing : Env
refusing = record world {
  lets_encrypt_certificates = record (store created) { update = λ t o. failed conflict };
}

repeated-released_example :
    EndsReleasedIn lets_encrypt_certificates request created (refusing ∷ accepting ∷ []) (
      repeated (Reconcile.reconcile lets_encrypt_certificates request) refusing (accepting ∷ []) [])
unfolding contains text_eq list_eq
repeated-released_example =
    repeated-released lets_encrypt_certificates request created refl refl refusing (accepting ∷ [])
      []
      (
        record { is_found = λ t. refl; present = refl; removes = λ fs. refl },
        (record { is_found = λ t. refl; present = refl; removes = λ fs. refl }, tt),
      )
      (λ t. (_, refl))

delete_resource-let_go_lets_encrypt_example :
    Reconcile.delete_resource lets_encrypt_certificates created client world []
    ≡ Reconcile.let_go lets_encrypt_certificates created world (
        if created.status.bound then [] else sent (deletion client (certificate_path (pos 7))) ∷ [])
unfolding contains text_eq list_eq
delete_resource-let_go_lets_encrypt_example =
    delete_resource-let_go_lets_encrypt created client (pos 7) world [] refl refl refl

-- The certificate stays, and has an id and a condition.
abbrev staying : LetsEncryptCertificate
staying = record created { metadata = record created.metadata { deleting = false } }

abbrev steady : Env
steady = record world { lets_encrypt_certificates = store staying }

reconcile-IsRead_lets_encrypt_example :
    All IsRead (Reconcile.reconcile lets_encrypt_certificates request steady []).1
unfolding contains text_eq list_eq
reconcile-IsRead_lets_encrypt_example =
    reconcile-IsRead_lets_encrypt request staying (pos 7) steady [] refl refl refl refl refl tt

-- An instance that refuses whatever it is asked.
abbrev broken : Env
broken = record world { http = λ t r. reply 500 none }

apply_resource-refused_example :
    Reconcile.apply_resource lets_encrypt_certificates request wildcard client broken [] ≡ (
      ok done,
      (set_condition request
          (lets_encrypt_certificates.ready_condition request.name)
          wildcard
          broken
          (after_refusal wildcard client [] broken [])).1,
    )
unfolding get_dns_challenge_provider_credentials create_let_encrypt_certificate existing_certificate
    find_let_encrypt_certificate get_list do_request receive read_response certificate_request monad
apply_resource-refused_example =
    apply_resource-refused request wildcard client [] (bad_status 500) broken [] [] refl refl refl

abbrev uploaded : CustomCertificate
uploaded = record own_certificate { status = record own_certificate.status { id = some (pos 7) } }

-- Both certificates are referred to: the custom one goes first.
abbrev referring : RetrieveCertificateOption
referring = record {
  req = request;
  client = client;
  lets_encrypt_certificate = some (record { name = txt "web"; namespace = none });
  custom_certificate = some (record { name = txt "web"; namespace = none });
  certificate_id = none;
}

abbrev both : Env
both = record world {
  lets_encrypt_certificates = store created;
  custom_certificates = store uploaded;
}

retrieve_certificate-IsNamed_example :
    IsNamed both request none referring.custom_certificate referring.lets_encrypt_certificate
      (pos 7)
unfolding retrieve_certificate override get_lets_encrypt_certificate_by_reference
    get_custom_certificate_by_reference find_certificate_by_id get_certificates find_by_id get_list
    do_request receive read_response decode_body decode_list decode_certificate decode_pointer
    decode_fields decode_int decode_bool decode_text get text_eq list_eq find any_meta monad
retrieve_certificate-IsNamed_example =
    retrieve_certificate-IsNamed referring both [] certificate refl

-- An instance that takes every form and lists nothing.
abbrev answer : Method → Json
answer get_method = arr nil
answer post_method = obj (object [])
answer put_method = obj (object [])
answer delete_method = obj (object [])

abbrev forgetful : Env
forgetful = record world {
  http = λ t r. reply 200 (some (answer r.method));
  secrets = λ t key. found ((txt "certificate", txt "c") ∷ (txt "certificate_key", txt "k") ∷ []);
}

apply_resource-panics_custom_example :
    (Reconcile.apply_resource custom_certificates request own_certificate client forgetful []).0
    ≡ panic
unfolding get_certificate_keys secret_value with_event or_event create_custom_certificate
    validate_custom_certificate create_empty_custom_certificate upload_custom_certificate
    find_custom_certificate_by_id get_custom_certificates post_form get_list do_request receive
    read_response decode_body decode_validation decode_upload decode_certificate custom_meta
    decode_pointer decode_list decode_fields decode_int decode_bool decode_text get text_eq list_eq
    find Custom.certificate_request monad
apply_resource-panics_custom_example =
    apply_resource-panics_custom request own_certificate own_certificate client
      (record { certificate = txt "c"; certificate_key = txt "k" }) forgetful [] _ refl refl refl
      once_more-IsRetry refl
