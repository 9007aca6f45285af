-- ===== src/ProxyHosts/Watches/Services.antt =====
-- Which hosts a change of a service reconciles.
use nginxpm_operator.Base.{
  Bool, true, false, ◌≡◌, ◌≢◌, refl, sym, ◌∙◌, arith, ◌↔◌, ◌⊎◌, inl, inr, List, [], ◌∷◌, map, any,
  contains, contains-snoc, In, Bool-cases, text-Eq, text_eq_iff, Text, ◌||◌, ◌==◌,
}
use nginxpm_operator.Api.{NamespacedName, ProxyHost, CustomLocation}
use nginxpm_operator.Effect.{Env, History, found, ok, listed, kind_proxy_host, monad}
use nginxpm_operator.Controller.Resources.{proxy_host-Resource}
use nginxpm_operator.Controller.Watches.{
  name_index, service_name, request_of, select, find_objects_for_map,
}
use nginxpm_operator.ProxyHosts.Watches.{
  service_index, add_name, location_names, custom_location_index, same_request, add_requests,
  find_services_for_proxy_host,
}
use nginxpm_operator.ProxyHosts.Watches.Requests.{
  AreDistinct, add_requests-all, add_requests-either,
}

-- A host forwards to the service of that name, or one of its locations does.
abbrev pub uses_service : Text → ProxyHost → Bool
uses_service service ph =
    service_name ph.spec.forward.service == service
    || any (λ location. service_name location.forward.service == service) ph.spec.custom_locations

module _ (n : Text) (named : n ≢ []) where
  name_index-contains : (name : Text) → contains (name_index name) n ≡ (name == n)
  unfolding contains
  name_index-contains [] = ground (arith, text_eq_iff [] n)
  name_index-contains (b ∷ s) = ground arith

  add_name-contains :
      (name : Text) (names : List Text)
      → contains (add_name name names) n ≡ (contains names n || name == n)
  add_name-contains [] names = ground (arith, text_eq_iff [] n)
  add_name-contains (b ∷ s) names = elim (Bool-cases (contains names (b ∷ s))) [
    | inl e ↦ rw e (ground (arith, text_eq_iff (b ∷ s) n))
    | inr e ↦ rw e (contains-snoc names (b ∷ s) n)
  ]

  location_names-contains :
      (names : List Text) (locations : List CustomLocation)
      → contains (location_names names locations) n ≡ (
          contains names n
          || any (λ location. service_name location.forward.service == n) locations)
  unfolding location_names any
  location_names-contains names [] = ground arith
  location_names-contains names (location ∷ locations) =
      let name = service_name location.forward.service in
      rw (location_names-contains (add_name name names) locations)
        (rw (add_name-contains name names) (ground arith))

module _ (index : ProxyHost → List Text) (n : Text) where
  select-In :
      (items : List ProxyHost) (ph : ProxyHost)
      → In ph items
      → contains (index ph) n ≡ true
      → In (request_of ph) (select index n items)
  unfolding select
  select-In [] ph i h = absurd i
  select-In (x ∷ items) ph (inl q) h = rw (← q) (rw h (inl refl))
  select-In (x ∷ items) ph (inr i) h = elim (Bool-cases (contains (index x) n)) [
    | inl e ↦ rw e (inr (select-In items ph i h))
    | inr e ↦ rw e (select-In items ph i h)
  ]

  In-select :
      (items : List ProxyHost) (q : NamespacedName)
      → In q (select index n items)
      → (ph : ProxyHost) × In ph items × (request_of ph ≡ q) × (contains (index ph) n ≡ true)
  unfolding select
  In-select [] q i = absurd i
  In-select (x ∷ items) q i = elim (Bool-cases (contains (index x) n)) [
    | inl e ↦ elim (split-In i e) [
      | inl p ↦ (x, inl refl, sym p, e)
      | inr j ↦ let (ph, k, p, h) = In-select items q j in (ph, inr k, p, h)
    ]
    | inr e ↦ let (ph, k, p, h) = In-select items q (rw e at i) in (ph, inr k, p, h)
  ]
    where
      split-In :
          In q (select index n (x ∷ items))
          → contains (index x) n ≡ true
          → (q ≡ request_of x) ⊎ In q (select index n items)
      split-In i e = rw e at i

  -- A host that none of the resources is, is not found.
  select-absent :
      (items : List ProxyHost) (q : NamespacedName)
      → any (λ e. same_request e q) (map request_of items) ≡ false
      → any (λ e. same_request e q) (select index n items) ≡ false
  unfolding select any
  select-absent [] q h = refl
  select-absent (x ∷ items) q h = elim (Bool-cases (contains (index x) n)) [
    | inl e ↦ rw e (ground (arith, select-absent items q))
    | inr e ↦ rw e (select-absent items q (ground arith))
  ]

  select-AreDistinct :
      (items : List ProxyHost)
      → AreDistinct (map request_of items)
      → AreDistinct (select index n items)
  unfolding select
  select-AreDistinct [] d = tt
  select-AreDistinct (x ∷ items) (new, d) = elim (Bool-cases (contains (index x) n)) [
    | inl e ↦ rw e (select-absent items (request_of x) new, select-AreDistinct items d)
    | inr e ↦ rw e (select-AreDistinct items d)
  ]

-- The requests of both searches.
abbrev found_requests : Text → List ProxyHost → List NamespacedName
found_requests n items =
    add_requests (select service_index n items) (select custom_location_index n items)

find_services-runs :
    (n : Text) (items : List ProxyHost) (env : Env) (t : History)
    → ((h : History) → env.proxy_hosts.list h ≡ found items)
    → (find_services_for_proxy_host n env t).0 ≡ ok (found_requests n items)
unfolding find_services_for_proxy_host find_objects_for_map monad
find_services-runs n items env t lists = rw (lists t) (rw (lists (listed kind_proxy_host ∷ t)) refl)

module _ (n : Text) (named : n ≢ []) (items : List ProxyHost) (q : NamespacedName) where
  abbrev IsUser : Type 0
  IsUser = (ph : ProxyHost) × In ph items × (request_of ph ≡ q) × (uses_service n ph ≡ true)

  forward-contains :
      (ph : ProxyHost) → contains (service_index ph) n ≡ (service_name ph.spec.forward.service == n)
  unfolding service_index
  forward-contains ph = name_index-contains n named (service_name ph.spec.forward.service)

  locations-contains :
      (ph : ProxyHost)
      → contains (custom_location_index ph) n
        ≡ any (λ location. service_name location.forward.service == n) ph.spec.custom_locations
  unfolding custom_location_index contains
  locations-contains ph = location_names-contains n named [] ph.spec.custom_locations

  requested→IsUser : In q (found_requests n items) → IsUser
  requested→IsUser i = elim (add_requests-either _ _ q i) [
    | inl j ↦
        let (ph, k, p, h) = In-select service_index n items q j in
        (ph, k, p, ground (arith, forward-contains ph))
    | inr j ↦
        let (ph, k, p, h) = In-select custom_location_index n items q j in
        (ph, k, p, ground (arith, locations-contains ph))
  ]

  IsUser→requested : AreDistinct (map request_of items) → IsUser → In q (found_requests n items)
  IsUser→requested d (ph, k, p, h) =
      let both =
        (add_requests-all (select service_index n items) (select custom_location_index n items)
            (select-AreDistinct service_index n items d)).1
          q in
      elim (Bool-cases (service_name ph.spec.forward.service == n)) [
        | inl e ↦
            both (inl (rw (← p) (select-In service_index n items ph k (forward-contains ph ∙ e))))
        | inr e ↦ both (
            inr (
              rw (← p) (
                select-In custom_location_index n items ph k
                  (ground (arith, locations-contains ph)))))
      ]

-- While the API server lists the same hosts, no two of one name and namespace, a change of a service
-- leads to requests of which none is there twice, for exactly those hosts that forward to a service
-- of that name, themselves or in one of their locations.
pub find_services_for_proxy_host_iff :
    (n : Text) (items : List ProxyHost) (env : Env) (t : History)
    → n ≢ []
    → ((h : History) → env.proxy_hosts.list h ≡ found items)
    → AreDistinct (map request_of items)
    → (requests : List NamespacedName) × ((find_services_for_proxy_host n env t).0 ≡ ok requests)
      × AreDistinct requests
      × ((q : NamespacedName)
          → In q requests
            ↔ ((ph : ProxyHost) × In ph items × (request_of ph ≡ q) × (uses_service n ph ≡ true)))
find_services_for_proxy_host_iff n items env t named lists d = (
  found_requests n items,
  find_services-runs n items env t lists,
  (add_requests-all (select service_index n items) (select custom_location_index n items)
      (select-AreDistinct service_index n items d)).0,
  λ q. (requested→IsUser n named items q, IsUser→requested n named items q d),
)
