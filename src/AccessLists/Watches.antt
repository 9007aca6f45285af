-- ===== src/AccessLists/Watches.antt =====
-- The index and the watch of accesslist_controller.go: which access lists are reconciled when a token
-- changes.
use nginxpm_operator.Base.{List, Text}
use nginxpm_operator.Api.{NamespacedName, AccessList}
use nginxpm_operator.Effect.{Action}
use nginxpm_operator.Controller.Resources.{access_list-Resource}
use nginxpm_operator.Controller.Watches.{token_index, find_objects_for_map}

unfoldable pub access_list_token_index : AccessList → List Text
access_list_token_index acl = token_index acl.spec.token

unfoldable pub find_access_lists_for_token : Text → Action (List NamespacedName)
find_access_lists_for_token = find_objects_for_map {O = AccessList} access_list_token_index
