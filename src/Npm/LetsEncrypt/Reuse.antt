-- ===== src/Npm/LetsEncrypt/Reuse.antt =====
-- When `CreateLetEncryptCertificate` answers with a certificate that exists.
use nginxpm_operator.Base.{
  Bool, true, false, ◌≡◌, refl, none, some, List, [], ◌∷◌, ◌++◌, In, inl, inr, Text,
}
use nginxpm_operator.Effect.{Env, History, ok, monad}
use nginxpm_operator.Npm.Types.{Certificate}
use nginxpm_operator.Npm.Requests.{Client}
use nginxpm_operator.Npm.LetsEncrypt.{
  CreateLetEncryptCertificateRequest, find_let_encrypt_certificate, differs, existing_certificate,
  reuse_or_request, create_let_encrypt_certificate,
}

-- Nothing is found for the domain, whenever it is asked for.
abbrev pub NotCovered : Client → Env → Text → Type 0
NotCovered c env d = (t : History) → (find_let_encrypt_certificate c d env t).0 ≡ ok none

abbrev pub Covered : Client → Env → Certificate → Text → Type 0
Covered c env cert d = (t : History) → (find_let_encrypt_certificate c d env t).0 ≡ ok (some cert)

module _ (c : Client) (env : Env) (cert : Certificate) where
  existing_certificate-last :
      (later : Bool) (ds : List Text) (d : Text) (t : History)
      → ((d' : Text) → In d' ds → NotCovered c env d')
      → Covered c env cert d
      → (existing_certificate c later none (ds ++ d ∷ []) env t).0 ≡ ok (some cert)
  unfolding existing_certificate differs monad
  existing_certificate-last later [] d t missing last = rw (last t) refl
  existing_certificate-last later (d' ∷ ds) d t missing last =
      rw (missing d' (inl refl) t)
        (existing_certificate-last true ds d _ (λ e i. missing e (inr i)) last)

  -- If the provider's certificate is found for the last domain, and none for any domain before it,
  -- then the answer is that certificate, though it covers none of the other domains.
  pub create_let_encrypt_certificate-last :
      (r : CreateLetEncryptCertificateRequest) (ds : List Text) (d : Text) (t : History)
      → r.domain_names ≡ ds ++ d ∷ []
      → ((d' : Text) → In d' ds → NotCovered c env d')
      → Covered c env cert d
      → (create_let_encrypt_certificate c r env t).0 ≡ ok (record cert { bound = true })
  unfolding create_let_encrypt_certificate reuse_or_request monad
  create_let_encrypt_certificate-last r ds d t domains missing last =
      rw domains (rw (existing_certificate-last false ds d t missing last) refl)
