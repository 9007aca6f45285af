-- ===== src/Controller/Reflection.antt =====
-- `JsonFieldExists` of internal/controller/helpers.go, on what `reflect` shows of a struct, and
-- what it shows of the two structs that the program asks about.
pub mod Fields
use nginxpm_operator.Base.{
  Bool, true, false, not, Option, none, some, List, [], ◌∷◌, if◌then◌else◌, is_none, is_empty, ◌==◌,
  text-Eq, Text, txt,
}
use nginxpm_operator.Base.Strings.{split}
use nginxpm_operator.Npm.{ProxyHost, Stream}

-- `is_nil` is there for a pointer or a slice.
pub record StructField : Type 0 where
  pub tag : Text
  pub name : Text
  pub is_nil : Option Bool

unfoldable pub first_part : List Text → Text
first_part [] = []
first_part (part ∷ parts) = part

-- The key of a field, `none` for the tag "-".
unfoldable pub json_name : StructField → Option Text
unfolding first_part
json_name f =
    let name = first_part (split b',' f.tag) in
    if name == txt "-" then none else if name == [] then some f.name else some name

unfoldable pub is_set : Option Bool → Bool
is_set none = true
is_set (some nil) = not nil

abbrev has_name : Text → Option Text → Bool
has_name field none = false
has_name field (some name) = name == field

unfoldable pub json_field_exists : Option (List StructField) → Text → Bool
unfolding json_name is_set
json_field_exists none field = false
json_field_exists (some []) field = false
json_field_exists (some (f ∷ fs)) field =
    if has_name field (json_name f) then is_set f.is_nil else json_field_exists (some fs) field

abbrev plain : Text → Text → StructField
plain tag name = record { tag = tag; name = name; is_nil = none }

-- An empty slice stands for a nil one too; the program asks about no slice.
abbrev slice {ℓ} : {A : Type ℓ} → Text → Text → List A → StructField
slice tag name xs = record { tag = tag; name = name; is_nil = some (is_empty xs) }

abbrev pointer {ℓ} : {A : Type ℓ} → Text → Text → Option A → StructField
pointer tag name p = record { tag = tag; name = name; is_nil = some (is_none p) }

unfoldable pub proxy_host_fields : ProxyHost → List StructField
proxy_host_fields h =
    plain (txt "id") (txt "ID")
    ∷ plain (txt "created_on") (txt "CreatedOn")
    ∷ plain (txt "modified_on") (txt "ModifiedOn")
    ∷ plain (txt "owner_user_id") (txt "OwnerUserID")
    ∷ slice (txt "domain_names") (txt "DomainNames") h.domain_names
    ∷ plain (txt "forward_host") (txt "ForwardHost")
    ∷ plain (txt "forward_port") (txt "ForwardPort")
    ∷ plain (txt "access_list_id") (txt "AccessListID")
    ∷ plain (txt "certificate_id") (txt "CertificateID")
    ∷ plain (txt "ssl_forced") (txt "SSLForced")
    ∷ plain (txt "caching_enabled") (txt "CachingEnabled")
    ∷ plain (txt "block_exploits") (txt "BlockExploits")
    ∷ plain (txt "advanced_config") (txt "AdvancedConfig")
    ∷ plain (txt "meta") (txt "Meta")
    ∷ plain (txt "allow_websocket_upgrade") (txt "AllowWebsocketUpgrade")
    ∷ plain (txt "http2_support") (txt "HTTP2Support")
    ∷ plain (txt "forward_scheme") (txt "ForwardScheme")
    ∷ plain (txt "enabled") (txt "Enabled")
    ∷ slice (txt "locations") (txt "Locations") h.locations
    ∷ plain (txt "hsts_enabled") (txt "HSTSEnabled")
    ∷ plain (txt "hsts_subdomains") (txt "HSTSSubdomains")
    ∷ pointer (txt "unscoped_config") (txt "UnscopedConfig") h.unscoped_config
    ∷ []

unfoldable pub stream_fields : Stream → List StructField
stream_fields s =
    plain (txt "id") (txt "ID")
    ∷ pointer (txt "unscoped_config") (txt "UnscopedConfig") s.unscoped_config
    ∷ plain (txt "meta") (txt "Meta")
    ∷ []
