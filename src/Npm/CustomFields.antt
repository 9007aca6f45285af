-- ===== src/Npm/CustomFields.antt =====
-- What a custom field does to the body of a request.
use nginxpm_operator.Base.{
  Bool, true, false, ◌&&◌, ◌≡◌, refl, [], ◌∷◌, if◌then◌else◌, ◌==◌, text-Eq, Text,
}
use nginxpm_operator.Json.{Fields, str, get}
use nginxpm_operator.Json.Laws.{get-put}
use nginxpm_operator.Npm.Requests.{put_custom_fields}

-- A custom field that is allowed is written over the rest of the body, and leaves the other keys.
pub get-put_custom_field :
    (name value k : Text) (allowed : Bool) (body : Fields)
    → get k (
        put_custom_fields
          ((name, record { field_name = name; value = value; allowed = allowed }) ∷ [])
          body)
      ≡ (if allowed && name == k then str value else get k body)
unfolding put_custom_fields
get-put_custom_field name value k true body = get-put name k (str value) body
get-put_custom_field name value k false body = refl
