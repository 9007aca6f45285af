-- ===== src/ProxyHosts/Ports/Choice.antt =====
-- Which port is chosen from a service for a host.
use nginxpm_operator.Base.{
  true, ◌≡◌, refl, arith, Option, none, some, List, [], ◌∷◌, find, find-some, In, inl, inr,
  Bool-cases, Option-cases, ℤ, pos, is_positive, ◌==◌, int-Eq, int_eq_iff, text-Eq, Text, ◌⊎◌, txt,
  ◌||◌,
}
use nginxpm_operator.Base.Strings.{to_lower}
use nginxpm_operator.Api.{ServicePort, ForwardService}
use nginxpm_operator.ProxyHosts.Ports.{
  name_matches, match_port, named_port, given_port, scheme_port, first_port, or_next, select_port,
}

-- One of the service's ports.
abbrev pub IsPortOf : (ServicePort → ℤ) → List ServicePort → ℤ → Type 0
IsPortOf number ports z = (p : ServicePort) × In p ports × (number p ≡ z)

-- A port of the service, or none.
abbrev IsPortOrZero : (ServicePort → ℤ) → List ServicePort → ℤ → Type 0
IsPortOrZero number ports z = (z ≡ pos 0) ⊎ IsPortOf number ports z

module _ (number : ServicePort → ℤ) (ports : List ServicePort) where
  match_port-IsPortOrZero :
      (scheme : Text) → IsPortOrZero number ports (match_port number ports scheme)
  unfolding match_port
  match_port-IsPortOrZero scheme =
      elim (Option-cases (find (name_matches (to_lower scheme)) ports)) [
        | inl e ↦ inl (rw e refl)
        | inr (p, e) ↦ inr (p, (find-some (name_matches (to_lower scheme)) ports p e).0, rw e refl)
      ]

  named_port-IsPortOrZero :
      (o : Option Text) → IsPortOrZero number ports (named_port number ports o)
  unfolding named_port
  named_port-IsPortOrZero none = inl refl
  named_port-IsPortOrZero (some name) = elim (Bool-cases (name == [])) [
    | inl e ↦ inl (rw e refl)
    | inr e ↦ rw e (match_port-IsPortOrZero name)
  ]

  scheme_port-IsPortOrZero :
      (scheme : Text) → IsPortOrZero number ports (scheme_port number ports scheme)
  unfolding scheme_port
  scheme_port-IsPortOrZero scheme =
      elim (Bool-cases (scheme == txt "https" || match_port number ports (txt "http") == pos 0)) [
        | inl e ↦ rw e (match_port-IsPortOrZero (txt "https"))
        | inr e ↦ rw e (match_port-IsPortOrZero (txt "http"))
      ]

or_next-cases : (P : ℤ → Type 0) (x y : ℤ) → (x ≡ pos 0) ⊎ P x → P y → P (or_next x y)
or_next-cases P x y h p = elim (Bool-cases (x == pos 0)) [
  | inl e ↦ rw e p
  | inr e ↦ elim h [ inl q ↦ absurd (ground (arith, int_eq_iff x (pos 0))) | inr r ↦ rw e r ]
]

-- A port of the service, or the number that the reference gives.
abbrev pub IsChosen : (ServicePort → ℤ) → List ServicePort → ForwardService → ℤ → Type 0
IsChosen number ports service z =
    IsPortOf number ports z ⊎ ((service.port ≡ some z) × (is_positive z ≡ true))

module _ (number : ServicePort → ℤ) (ports : List ServicePort) (service : ForwardService) where
  given_port-IsChosen :
      (o : Option ℤ)
      → service.port ≡ o
      → (given_port o ≡ pos 0) ⊎ IsChosen number ports service (given_port o)
  unfolding given_port
  given_port-IsChosen none e = inl refl
  given_port-IsChosen (some z) e = elim (Bool-cases (is_positive z)) [
    | inl p ↦ rw p (inr (inr (e, p)))
    | inr p ↦ inl (rw p refl)
  ]

  chosen : (z : ℤ) → IsPortOrZero number ports z → (z ≡ pos 0) ⊎ IsChosen number ports service z
  chosen z (inl e) = inl e
  chosen z (inr p) = inr (inl p)

  choose :
      (scheme : Text)
      → IsChosen number ports service (first_port number ports)
      → IsChosen number ports service (select_port number ports service scheme)
  unfolding select_port
  choose scheme first =
      let P = IsChosen number ports service in
      or_next-cases P _ _ (chosen _ (named_port-IsPortOrZero number ports service.port_name)) (
        or_next-cases P _ _
          (or_next-cases (λ z. (z ≡ pos 0) ⊎ P z) _ _
            (either _ (given_port-IsChosen service.port refl))
            (chosen _ (scheme_port-IsPortOrZero number ports scheme)))
          first)
    where
      either :
          (z : ℤ)
          → (z ≡ pos 0) ⊎ IsChosen number ports service z
          → (z ≡ pos 0) ⊎ ((z ≡ pos 0) ⊎ IsChosen number ports service z)
      either z h = inr h

-- For a service with a port, the port that is chosen is one of the service's or the positive number
-- that the reference gives, whatever names and scheme are asked for; so it is 0 only if a port of
-- the service is.
pub select_port-IsChosen :
    (number : ServicePort → ℤ) (p : ServicePort) (ports : List ServicePort)
    (service : ForwardService) (scheme : Text)
    → IsChosen number (p ∷ ports) service (select_port number (p ∷ ports) service scheme)
select_port-IsChosen number p ports service scheme =
    choose number (p ∷ ports) service scheme (unfold first_port in inl (p, inl refl, refl))
