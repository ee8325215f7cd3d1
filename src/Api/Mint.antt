-- ===== src/Api/Mint.antt =====
-- The CashuMint resource with its observed state (api/v1alpha1/cashumint_types.go).
use cashu_operator.Common.{String, Bool, Option, List}
use cashu_operator.Common.Int.{ℤ}
use cashu_operator.Api.Spec.{CashuMintSpec}

-- `metav1.ObjectMeta`, as far as the operator reads it: whether the deletion timestamp is set,
-- the generation of the spec, the finalizers and the annotations.
pub record ObjectMeta : Type 0 where
  pub name : String
  pub namespace : String
  pub generation : ℤ
  pub is_deleted : Bool
  pub finalizers : List String
  pub annotations : Option (List (String × String))

-- `MintPhase`; `unset` is the empty text of a new resource.
pub data MintPhase : Type 0 where
  unset pending provisioning ready failed updating : MintPhase

-- The types of condition that the controller sets.
pub data ConditionType : Type 0 where
  ready_condition database_ready config_valid ingress_ready backup_ready : ConditionType

-- `metav1.Condition`, without its transition time; `status` is true for "True".
pub record Condition : Type 0 where
  pub type : ConditionType
  pub status : Bool
  pub observed_generation : ℤ
  pub reason : String
  pub message : String

-- `DatabaseStatus` and `PaymentBackendStatus`, which no code writes, are left out.
pub record CashuMintStatus : Type 0 where
  pub phase : MintPhase
  pub conditions : List Condition
  pub observed_generation : ℤ
  pub backend_type : String
  pub deployment_name : String
  pub service_name : String
  pub ingress_name : String
  pub config_map_name : String
  pub url : String
  pub ready_replicas : ℤ

pub record CashuMint : Type 0 where
  pub metadata : ObjectMeta
  pub spec : CashuMintSpec
  pub status : CashuMintStatus
