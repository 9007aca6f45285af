-- ===== src/Npm/AccessLists.antt =====
-- pkg/nginxpm/access_list.go
use nginxpm_operator.Base.{Bool, Option, List, [], ◌∷◌, ◌++◌, ℤ, Text, txt}
use nginxpm_operator.Base.Strings.{decimal}
use nginxpm_operator.Json.{Json, bool, str, arr, obj}
use nginxpm_operator.Effect.{
  Action, ◌>>=◌, pure, json, no_body, post_method, put_method, delete_method,
}
use nginxpm_operator.Npm.Types.{AccessList, decode_access_list}
use nginxpm_operator.Npm.Requests.{
  Client, get_list, find_by_id, do_request, read_response, check_status, is_success, object, items,
}

pub record AccessListItem : Type 0 where
  pub username : Text
  pub password : Text

pub record AccessListClient : Type 0 where
  pub address : Text
  pub directive : Text

pub record AccessListRequestInput : Type 0 where
  pub name : Text
  pub satisfy_any : Bool
  pub pass_auth : Bool
  pub items_of : List AccessListItem
  pub clients : List AccessListClient

abbrev pub access_list_path : ℤ → Text
access_list_path id = txt "/api/nginx/access-lists/" ++ decimal id

unfoldable pub delete_access_list : Client → ℤ → Action (Unit {0})
delete_access_list c id = do
  resp ← do_request c delete_method (access_list_path id) no_body
  check_status resp

unfoldable pub find_access_list_by_id : Client → ℤ → Action (Option AccessList)
find_access_list_by_id c id = do
  accesses ← get_list c (txt "/api/nginx/access-lists") decode_access_list
  pure (find_by_id (λ access. access.id) id accesses)

-- `json.Marshal(input)`
unfoldable pub access_list_json : AccessListRequestInput → Json
access_list_json input = obj (
    object (
      (txt "name", str input.name)
      ∷ (txt "satisfy_any", bool input.satisfy_any)
      ∷ (txt "pass_auth", bool input.pass_auth)
      ∷ (
        txt "items",
        arr (
            items
              (λ i.
                obj (
                  object
                    ((txt "username", str i.username) ∷ (txt "password", str i.password) ∷ [])))
              input.items_of),
      )
      ∷ (
        txt "clients",
        arr (
            items
              (λ c.
                obj (
                  object
                    ((txt "address", str c.address) ∷ (txt "directive", str c.directive) ∷ [])))
              input.clients),
      )
      ∷ []))

unfoldable pub create_access_list : Client → AccessListRequestInput → Action AccessList
create_access_list c input = do
  let body = access_list_json input
  resp ← do_request c post_method (txt "/api/nginx/access-lists") (json body)
  read_response is_success decode_access_list resp

unfoldable pub update_access_list : Client → ℤ → AccessListRequestInput → Action AccessList
update_access_list c id input = do
  let body = access_list_json input
  resp ← do_request c put_method (access_list_path id) (json body)
  read_response is_success decode_access_list resp
