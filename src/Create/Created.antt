-- ===== src/Create/Created.antt =====
-- What Azure has accepted, when CreatePod succeeds.
use azure_aci.Client.{Sdk, container_group_name}
use azure_aci.Client.Accepted.{Accepted}
use azure_aci.Create.{NewPod, NewGroup, Creator, with_client}
use azure_aci.Create.Sent.{SentFor}

module _ {W : Type 0} (c : Creator W) (sdk : Sdk W NewGroup) where
  -- The group of the pod, and what the SDK did with it.
  pub record Created (p : NewPod) (w w' : W) : Type 0 where
    pub sent : SentFor (with_client c sdk) p w w'
    pub accepted :
        Accepted sdk c.resource_group
          (container_group_name p.pod.namespace p.pod.name)
          sent.group
          (c.set_diagnostics sent.diagnostics w)
          w'
