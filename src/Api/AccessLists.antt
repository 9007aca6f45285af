-- ===== src/Api/AccessLists.antt =====
-- api/v1/accesslist_types.go
use nginxpm_operator.Base.{Bool, Option, List, Text, ℤ}
use nginxpm_operator.Api.Meta.{ObjectMeta, Condition}
use nginxpm_operator.Api.Tokens.{TokenName}

pub record AccessListAuthorization : Type 0 where
  pub username : Text
  pub password : Text

pub record AccessListClient : Type 0 where
  pub address : Text
  pub directive : Text

pub record AccessListSpec : Type 0 where
  pub token : Option TokenName
  pub satisfy_any : Bool
  pub pass_auth : Bool
  pub authorizations : List AccessListAuthorization
  pub clients : List AccessListClient

pub record AccessListStatus : Type 0 where
  pub id : Option ℤ
  pub proxy_host_count : ℤ
  pub conditions : List Condition

pub record AccessList : Type 0 where
  pub metadata : ObjectMeta
  pub spec : AccessListSpec
  pub status : AccessListStatus
