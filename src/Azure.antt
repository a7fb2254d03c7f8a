-- ===== src/Azure.antt =====
-- The part of the Azure SDK's container group (services/containerinstance/mgmt/2021-10-01) that the
-- provider reads back. A pointer that may be nil is an `Option`; a nil slice or map too.
use azure_aci.Prelude.{ℕ, String, Option, List}
use azure_aci.K8s.{Time, ℤ}

-- containerinstance.ContainerState
pub record AciState : Type 0 where
  pub state : Option String
  pub start_time : Option Time
  pub exit_code : Option ℤ
  pub finish_time : Option Time
  pub detail_status : Option String

-- ContainerPropertiesInstanceView; of an event only its name.
pub record InstanceView : Type 0 where
  pub restart_count : Option ℕ
  pub current_state : Option AciState
  pub previous_state : Option AciState
  pub events : Option (List String)

pub record ContainerProperties : Type 0 where
  pub image : Option String
  pub ports : Option (List ℕ)
  pub instance_view : Option InstanceView

pub record Container : Type 0 where
  pub name : Option String
  pub properties : Option ContainerProperties

-- A pointer to a string in the answer of a call: where it points, and what stands there.
pub record Pointer : Type 0 where
  pub address : ℕ
  pub value : String

pub record GroupProperties : Type 0 where
  pub provisioning_state : Option String
  pub containers : Option (List Container)
  pub ip_address : Option (Option String)  -- IPAddress, and its field IP
  pub instance_state : Option (Option String)  -- InstanceView, and its field State

-- containerinstance.ContainerGroup
pub record ContainerGroup : Type 0 where
  pub id : Option String
  pub name : Option String
  pub tags : Option (List (String × Pointer))
  pub properties : Option GroupProperties
