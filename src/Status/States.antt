-- ===== src/Status/States.antt =====
-- The state of a container, and how it agrees with the phase that its name stands for.
use azure_aci.Prelude.{String, Bool, true, false, some, ◌≡◌, arith, ok, is_some, ◌||◌, not}
use azure_aci.K8s.{PodPhase, running, succeeded, failed, ContainerState}
use azure_aci.Azure.{AciState}
use azure_aci.Status.{get_pod_phase_from_aci_state, aci_container_state_to_container_state}

abbrev pub is_terminal : PodPhase → Bool
is_terminal succeeded = true
is_terminal failed = true
is_terminal _ = false

abbrev pub is_active : PodPhase → Bool
is_active running = true
is_active _ = false

-- Exactly one of the three states is set, and it is the one that the phase calls for.
pub record Agrees (phase : PodPhase) (st : ContainerState) : Type 0 where
  pub running_set : is_some st.running ≡ is_active phase
  pub terminated_set : is_some st.terminated ≡ is_terminal phase
  pub waiting_set : is_some st.waiting ≡ not (is_active phase || is_terminal phase)

-- A container state that is converted has exactly one of Running, Terminated and Waiting, and it is
-- the one that agrees with the pod phase of the same state name.
aci_container_state-Agrees :
    (cs : AciState) (name : String) (st : ContainerState)
    → cs.state ≡ some name
    → aci_container_state_to_container_state cs ≡ ok st
    → Agrees (get_pod_phase_from_aci_state name) st
unfolding aci_container_state_to_container_state get_pod_phase_from_aci_state
aci_container_state-Agrees cs name st e h = ground arith
