-- ===== src/Api/Tokens.antt =====
-- api/v1/token_types.go
use nginxpm_operator.Base.{Option, List, Text, ℤ}
use nginxpm_operator.Api.Meta.{ObjectMeta, Condition}

pub record TokenName : Type 0 where
  pub name : Text
  pub namespace : Option Text

pub record Secret : Type 0 where
  pub secret_name : Text

pub record TokenSpec : Type 0 where
  pub endpoint : Text
  pub secret : Secret

-- Times are counted from the epoch.
pub record TokenStatus : Type 0 where
  pub token : Option Text
  pub expires : Option ℤ
  pub conditions : List Condition

pub record Token : Type 0 where
  pub metadata : ObjectMeta
  pub spec : TokenSpec
  pub status : TokenStatus
