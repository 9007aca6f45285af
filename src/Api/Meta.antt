-- ===== src/Api/Meta.antt =====
-- The metadata and the status conditions that every resource carries.
use nginxpm_operator.Base.{Bool, List, Text}
use nginxpm_operator.Errors.{Error}

-- `deleting` is `!DeletionTimestamp.IsZero()`.
pub record ObjectMeta : Type 0 where
  pub name : Text
  pub namespace : Text
  pub deleting : Bool
  pub finalizers : List Text

-- `types.NamespacedName`, also the content of a `reconcile.Request`
pub record NamespacedName : Type 0 where
  pub namespace : Text
  pub name : Text

pub data ConditionStatus : Type 0 where
  condition_true condition_false condition_unknown : ConditionStatus

-- internal/controller/helpers.go: the types of conditions
pub data ConditionType : Type 0 where
  ready reconciling error : ConditionType

-- A message is a text of the program's or the text of an error.
pub data Message : Type 0 where
  text : Text → Message
  failure : Error → Message

-- `metav1.Condition`, without the time, which `SetStatusCondition` fills in
pub record Condition : Type 0 where
  pub type : ConditionType
  pub status : ConditionStatus
  pub reason : Text
  pub message : Message
