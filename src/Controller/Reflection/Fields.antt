-- ===== src/Controller/Reflection/Fields.antt =====
-- What the program's one question to `JsonFieldExists` is answered with.
use nginxpm_operator.Base.{
  not, is_none, ◌≡◌, refl, is_some, some, none, Option, list_eq, text_eq, Text,
}
use nginxpm_operator.Base.Strings.{split}
use nginxpm_operator.Npm.{ProxyHost, Stream, custom_field_unscoped_config}
use nginxpm_operator.Controller.Reflection.{
  json_field_exists, json_name, first_part, is_set, proxy_host_fields, stream_fields,
}

not-is_none : (o : Option Text) → not (is_none o) ≡ is_some o
not-is_none none = refl
not-is_none (some a) = refl

-- The field is there exactly if its pointer is not nil.
pub unscoped_config-proxy_host :
    (h : ProxyHost)
    → json_field_exists (some (proxy_host_fields h)) custom_field_unscoped_config
      ≡ is_some h.unscoped_config
unfolding json_field_exists json_name first_part is_set proxy_host_fields split text_eq list_eq
unscoped_config-proxy_host h = not-is_none h.unscoped_config

pub unscoped_config-stream :
    (s : Stream)
    → json_field_exists (some (stream_fields s)) custom_field_unscoped_config
      ≡ is_some s.unscoped_config
unfolding json_field_exists json_name first_part is_set stream_fields split text_eq list_eq
unscoped_config-stream s = not-is_none s.unscoped_config
