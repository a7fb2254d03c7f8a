-- ===== src/K8s.antt =====
-- The part of the Kubernetes API objects (k8s.io/api/core/v1) that the provider reads and writes.
-- Times are nanoseconds since Go's zero time, so `metav1.Time{}` is 0.
use azure_aci.Prelude.{ℕ, ◌-◌, ◌^◌, String, Bool, Option, List, ltb, if◌then◌else◌}

abbrev pub Time : Type 0
Time = ℕ

-- An exit code is an int32; `negsuc n` is -(n + 1).
pub data ℤ : Type 0 where
  pos : ℕ → ℤ
  negsuc : ℕ → ℤ

-- The int64 of a number below 2^64.
abbrev pub to_int64 : ℕ → ℤ
to_int64 n = if ltb n (2 ^ 63) then pos n else negsuc (2 ^ 64 - 1 - n)

-- The phases of v1.PodPhase; `other` is any other text in the field, the empty one included.
pub data PodPhase : Type 0 where
  pending running succeeded failed unknown : PodPhase
  other : String → PodPhase

pub record Waiting : Type 0 where
  pub reason : String
  pub message : String

pub record Running : Type 0 where
  pub started_at : Time

pub record Terminated : Type 0 where
  pub exit_code : ℤ
  pub reason : String
  pub message : String
  pub started_at : Time
  pub finished_at : Time
  pub container_id : String

-- v1.ContainerState: at most one of the three pointers should be set.
pub record ContainerState : Type 0 where
  pub waiting : Option Waiting
  pub running : Option Running
  pub terminated : Option Terminated

pub record ContainerStatus : Type 0 where
  pub name : String
  pub state : ContainerState
  pub last_termination_state : ContainerState
  pub ready : Bool
  pub restart_count : ℕ
  pub image : String
  pub image_id : String
  pub container_id : String

pub data ConditionType : Type 0 where
  pod_ready pod_initialized pod_scheduled : ConditionType

pub record PodCondition : Type 0 where
  pub kind : ConditionType
  pub status : Bool
  pub last_transition_time : Time

pub record PodStatus : Type 0 where
  pub phase : PodPhase
  pub conditions : List PodCondition
  pub message : String
  pub reason : String
  pub host_ip : String
  pub pod_ip : String
  pub start_time : Option Time
  pub container_statuses : List ContainerStatus

-- v1.Pod without its specification, which the modules that read it take beside it.
pub record Pod : Type 0 where
  pub name : String
  pub namespace : String
  pub uid : String
  pub cluster_name : String
  pub resource_version : String
  pub creation_timestamp : Time
  pub deletion_timestamp : Option Time
  pub annotations : List (String × String)
  pub status : PodStatus
