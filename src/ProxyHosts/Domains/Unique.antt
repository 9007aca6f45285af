-- ===== src/ProxyHosts/Domains/Unique.antt =====
-- When the domains of a resource pass the check against those of all others.
use nginxpm_operator.Base.{
  true, ◌≡◌, ◌↔◌, ◌⊎◌, inl, inr, refl, arith, Option, none, some, List, [], ◌∷◌, if◌then◌else◌,
  contains, find, find-some, find-none, In, All, contains→In, In→contains, text-Eq, Text,
  Bool-cases, Option-cases,
}
use nginxpm_operator.Errors.{Error}
use nginxpm_operator.Api.{ProxyHost}
use nginxpm_operator.Effect.{Env, History, found, ok, monad}
use nginxpm_operator.Controller.Resources.{proxy_host-Resource}
use nginxpm_operator.ProxyHosts.Domains.{
  extract_domains, same_resource, taken_by, first_conflict, no_error, domains_should_be_unique,
}

-- The other resource is this one, or has no domain that this one has.
abbrev pub IsCompatible : ProxyHost → ProxyHost → Type 0
IsCompatible ph other =
    (same_resource other ph ≡ true)
    ⊎ ((d : Text) → In d ph.spec.domain_names → In d other.spec.domain_names → ⊥)

conflict_with : ProxyHost → List Text → ProxyHost → Option Error
conflict_with ph domains other =
    if same_resource other ph
    then none
    else taken_by other (find (λ domain. contains (extract_domains other) domain) domains)

All-In : (P : Text → Type 0) (xs : List Text) (d : Text) → All P xs → In d xs → P d
All-In P [] d h i = absurd i
All-In P (x ∷ xs) d (p, h) (inl e) = rw e p
All-In P (x ∷ xs) d (p, h) (inr i) = All-In P xs d h i

compatible-no_conflict :
    (ph other : ProxyHost)
    → IsCompatible ph other
    → conflict_with ph (extract_domains ph) other ≡ none
unfolding conflict_with extract_domains
compatible-no_conflict ph other (inl same) = rw same refl
compatible-no_conflict ph other (inr apart) =
    elim (Option-cases (find (λ d. contains other.spec.domain_names d) ph.spec.domain_names)) [
      | inl e ↦ rw e (ground arith)
      | inr (d, e) ↦
          let (i, c) =
            find-some (λ d. contains other.spec.domain_names d) ph.spec.domain_names d e in
          absurd (apart d i (contains→In other.spec.domain_names d c))
    ]

no_conflict-IsCompatible :
    (ph other : ProxyHost)
    → conflict_with ph (extract_domains ph) other ≡ none
    → IsCompatible ph other
unfolding conflict_with extract_domains
no_conflict-IsCompatible ph other h = elim (Bool-cases (same_resource other ph)) [
  | inl same ↦ inl same
  | inr differs ↦
      elim (Option-cases (find (λ d. contains other.spec.domain_names d) ph.spec.domain_names)) [
        | inl e ↦ inr (λ d i j.
            let c =
              All-In _ ph.spec.domain_names d
                (find-none (λ d. contains other.spec.domain_names d) ph.spec.domain_names e) i in
            let c' = In→contains other.spec.domain_names d j in absurd (ground arith))
        | inr (d, e) ↦ absurd (ground arith)
      ]
]

first_conflict_iff :
    (ph : ProxyHost) (others : List ProxyHost)
    → (first_conflict ph (extract_domains ph) others ≡ none) ↔ All (IsCompatible ph) others
unfolding first_conflict conflict_with
first_conflict_iff ph [] = (λ h. tt, λ h. refl)
first_conflict_iff ph (other ∷ others) = (
  λ h.
      let first : conflict_with ph (extract_domains ph) other ≡ none = ground arith in
      let rest : first_conflict ph (extract_domains ph) others ≡ none = ground arith in
      (no_conflict-IsCompatible ph other first, (first_conflict_iff ph others).0 rest),
  λ (first, rest).
      let c = compatible-no_conflict ph other first in
      let cs = (first_conflict_iff ph others).1 rest in ground arith,
)

no_error-ok :
    (o : Option Error) (env : Env) (t : History) → ((no_error o env t).0 ≡ ok tt) ↔ (o ≡ none)
unfolding no_error monad
no_error-ok none env t = (λ h. refl, λ h. refl)
no_error-ok (some e) env t = (λ h. ground arith, λ h. ground arith)

-- When the API server lists the resources, the check of the domains passes exactly if every other
-- resource of the list, of any namespace, has no domain in common with this one.
pub domains_should_be_unique_iff :
    (ph : ProxyHost) (env : Env) (t : History) (others : List ProxyHost)
    → env.proxy_hosts.list t ≡ found others
    → ((domains_should_be_unique ph env t).0 ≡ ok tt) ↔ All (IsCompatible ph) others
unfolding domains_should_be_unique monad
domains_should_be_unique_iff ph env t others listed =
    let checked = no_error-ok (first_conflict ph (extract_domains ph) others) env in
    let unique = first_conflict_iff ph others in
    rw listed (λ h. unique.0 ((checked _).0 h), λ h. (checked _).1 (unique.1 h))
