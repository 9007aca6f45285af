-- ===== src/Streams/Ports/Choice.antt =====
-- Which port is chosen from a service for a stream.
use nginxpm_operator.Base.{
  Bool, true, false, ◌≡◌, refl, Option, none, some, List, ◌∷◌, find, find-some, In, inl, inr,
  Bool-cases, Option-cases, if◌then◌else◌, ℤ, pos, is_positive, ◌==◌, int-Eq, text-Eq, Text, ◌⊎◌,
  txt,
}
use nginxpm_operator.Api.{ServicePort, ForwardService}
use nginxpm_operator.Streams.Ports.{
  port_matched, match_port, named_port, given_port, first_port, service_destination_port,
  select_port,
}

-- A port of the service, or the number that the reference gives.
abbrev pub IsChosen : (ServicePort → ℤ) → List ServicePort → ForwardService → ℤ → Type 0
IsChosen number ports service z =
    ((p : ServicePort) × In p ports × (number p ≡ z))
    ⊎ ((service.port ≡ some z) × (is_positive z ≡ true))

module _ (number : ServicePort → ℤ) (ports : List ServicePort) (service : ForwardService) where
  abbrev IsChosenOrZero : ℤ → Type 0
  IsChosenOrZero z = (z ≡ pos 0) ⊎ IsChosen number ports service z

  match_port-IsChosenOrZero : (scheme : Text) → IsChosenOrZero (match_port number ports scheme)
  unfolding match_port
  match_port-IsChosenOrZero scheme = elim (Option-cases (find (port_matched scheme) ports)) [
    | inl e ↦ inl (rw e refl)
    | inr (p, e) ↦ inr (inl (p, (find-some (port_matched scheme) ports p e).0, rw e refl))
  ]

  given_port-IsChosenOrZero : (o : Option ℤ) → service.port ≡ o → IsChosenOrZero (given_port o)
  unfolding given_port
  given_port-IsChosenOrZero none e = inl refl
  given_port-IsChosenOrZero (some z) e = elim (Bool-cases (is_positive z)) [
    | inl p ↦ rw p (inr (inr (e, p)))
    | inr p ↦ inl (rw p refl)
  ]

  either :
      (b : Bool) (x y : ℤ)
      → IsChosenOrZero x
      → IsChosenOrZero y
      → IsChosenOrZero (if b then x else y)
  either true x y hx hy = hx
  either false x y hx hy = hy

  named_port-IsChosenOrZero :
      (o : Option Text) (z : ℤ) → IsChosenOrZero z → IsChosenOrZero (named_port number ports o z)
  unfolding named_port
  named_port-IsChosenOrZero none z h = h
  named_port-IsChosenOrZero (some name) z h = either _ _ _ h (match_port-IsChosenOrZero name)

  destination-IsChosenOrZero :
      (tcp udp : Bool) → IsChosenOrZero (service_destination_port number ports service tcp udp)
  unfolding service_destination_port
  destination-IsChosenOrZero tcp udp = named_port-IsChosenOrZero service.port_name _ (
      either _ _ _ (match_port-IsChosenOrZero (txt "UDP")) (
        either _ _ _ (match_port-IsChosenOrZero (txt "TCP"))
          (given_port-IsChosenOrZero service.port refl)))

  choose :
      (z : ℤ)
      → IsChosenOrZero z
      → IsChosen number ports service (first_port number ports)
      → IsChosen number ports service (if z == pos 0 then first_port number ports else z)
  choose z (inl e) first = rw e first
  choose z (inr c) first = elim (Bool-cases (z == pos 0)) [ inl e ↦ rw e first | inr e ↦ rw e c ]

-- For a service with a port, the port that is chosen for a stream is one of the service's or the
-- positive number that the reference gives; so it is 0 only if a port of the service is.
pub select_port-IsChosen_stream :
    (number : ServicePort → ℤ) (p : ServicePort) (ports : List ServicePort)
    (service : ForwardService) (tcp udp : Bool)
    → IsChosen number (p ∷ ports) service (select_port number (p ∷ ports) service tcp udp)
unfolding select_port
select_port-IsChosen_stream number p ports service tcp udp =
    choose number (p ∷ ports) service _
      (destination-IsChosenOrZero number (p ∷ ports) service tcp udp)
      (unfold first_port in inl (p, inl refl, refl))
