-- ===== src/Api/Core.antt =====
-- The parts of Kubernetes' own objects that the program reads: services, pods, nodes, secrets.
use nginxpm_operator.Base.{Bool, List, Text, ℤ}

pub data ServiceType : Type 0 where
  cluster_ip node_port load_balancer external_name : ServiceType

pub record ServicePort : Type 0 where
  pub name : Text
  pub protocol : Text
  pub port : ℤ
  pub node_port : ℤ

-- Labels and selectors
abbrev pub Labels : Type 0
Labels = List (Text × Text)

-- `ingress_ips` are the addresses of `Status.LoadBalancer.Ingress`.
pub record Service : Type 0 where
  pub name : Text
  pub namespace : Text
  pub type : ServiceType
  pub cluster_ip : Text
  pub ingress_ips : List Text
  pub ports : List ServicePort
  pub selector : Labels

-- `running` is `Status.Phase == PodRunning`, `deleting` is `DeletionTimestamp != nil`.
pub record Pod : Type 0 where
  pub labels : Labels
  pub node_name : Text
  pub running : Bool
  pub deleting : Bool

pub data AddressType : Type 0 where
  internal_ip other_address : AddressType

pub record NodeAddress : Type 0 where
  pub type : AddressType
  pub address : Text

pub record Node : Type 0 where
  pub addresses : List NodeAddress

abbrev pub SecretData : Type 0
SecretData = List (Text × Text)
