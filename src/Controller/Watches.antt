-- ===== src/Controller/Watches.antt =====
-- What the watches of the reconcilers share: the indexes of names, the map functions, and the loop
-- over the resources that a pod may concern. Each reconciler has its own copy of `findObjectsForMap`,
-- with the kind that it lists. A field selector answers with the resources whose index holds the
-- name.
pub mod Pods
use nginxpm_operator.Base.{
  Bool, false, ◌&&◌, Option, none, some, List, [], ◌∷◌, if◌then◌else◌, contains, ◌==◌, text-Eq,
  Text,
}
use nginxpm_operator.Api.{NamespacedName, TokenName, ForwardService, Pod}
use nginxpm_operator.Effect.{handle, kind_service, fetch, Action, ◌>>=◌, pure, read}
use nginxpm_operator.Controller.Resources.{Resource, list_objects}
use nginxpm_operator.Controller.Helpers.{token_default_name}
use nginxpm_operator.Controller.Upstream.{pod_matches_service_selector}

abbrev pub name_index : Text → List Text
name_index [] = []
name_index (b ∷ s) = (b ∷ s) ∷ []

unfoldable pub token_index : Option TokenName → List Text
token_index none = token_default_name ∷ []
token_index (some token) = name_index token.name

abbrev pub service_name : Option ForwardService → Text
service_name none = []
service_name (some service) = service.name

-- Whether a pod belongs to the service of that name, in the namespace of the resource.
unfoldable pub pod_in_service : Pod → Text → Text → Action Bool
pod_in_service pod namespace name =
    handle
      (fetch kind_service (λ env. env.services) (record { namespace = namespace; name = name }))
      (λ service. read (λ env. pod_matches_service_selector env pod service)) (λ _. pure false)

module _ {O : Type 0} ⦃r : Resource O⦄ where
  abbrev pub request_of : O → NamespacedName
  request_of o = record { namespace = (r.metadata o).namespace; name = (r.metadata o).name }

  -- The items of a list whose index holds the name.
  unfoldable pub select : (O → List Text) → Text → List O → List NamespacedName
  select index name [] = []
  select index name (o ∷ items) =
      let rest = select index name items in
      if contains (index o) name then request_of o ∷ rest else rest

  -- An error answers with no request.
  unfoldable pub find_objects_for_map : (O → List Text) → Text → Action (List NamespacedName)
  unfolding select
  find_objects_for_map index name =
      handle (list_objects {O = O}) (λ items. pure (select index name items)) (λ _. pure [])

  -- The same in one namespace.
  unfoldable pub select_in : Text → (O → List Text) → Text → List O → List NamespacedName
  select_in namespace index name [] = []
  select_in namespace index name (o ∷ items) =
      let rest = select_in namespace index name items in
      if (r.metadata o).namespace == namespace && contains (index o) name
      then request_of o ∷ rest
      else rest

  unfoldable pub find_objects_in_namespace :
      Text → (O → List Text) → Text → Action (List NamespacedName)
  unfolding select_in
  find_objects_in_namespace namespace index name =
      handle (list_objects {O = O}) (λ items. pure (select_in namespace index name items))
        (λ _. pure [])

  unfoldable pub concerned : (O → Action Bool) → List O → Action (List NamespacedName)
  concerned concerns [] = pure []
  concerned concerns (o ∷ items) = do
    it_does ← concerns o
    rest ← concerned concerns items
    pure (if it_does then request_of o ∷ rest else rest)

  unfoldable pub find_objects_for_pod : (O → Action Bool) → Action (List NamespacedName)
  unfolding concerned
  find_objects_for_pod concerns = handle (list_objects {O = O}) (concerned concerns) (λ _. pure [])
