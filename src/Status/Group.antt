-- ===== src/Status/Group.antt =====
-- The status of a pod, as it is built from a container group.
use azure_aci.Prelude.{
  String, Bool, true, Option, none, some, List, [], ◌∷◌, ◌&&◌, ◌==◌, ◌≡◌, refl, arith, ap, ok,
  >>=-eq-ok, deref-eq-ok, ◌∙◌, ok-injective, subst, deref, if◌then◌else◌, ◌||◌, ◌⊎◌, sym,
  Bool-cases, Option-cases, inl, inr, eq_iff, err, plain, ◌<>◌, ◌>>=◌,
}
use azure_aci.K8s.{Time, ContainerStatus, PodStatus}
use azure_aci.Azure.{
  AciState, InstanceView, ContainerProperties, Container, GroupProperties, ContainerGroup,
}
use azure_aci.Validation.{validate_container}
use azure_aci.Validation.Checked.{fill_previous, validate_container_exact}
use azure_aci.Status.Described.{
  unset, parsed, PhaseOf, StateOf, ConditionsOf, CreatedAt, get_pod_phase-PhaseOf,
  aci_container_state-StateOf, get_pod_conditions-ConditionsOf,
}
use azure_aci.Status.{
  Outside, tag, parse_creation_time, get_container_id, get_pod_phase_from_aci_state, is_phase_ready,
  is_phase_running, stated_status, container_status, container_statuses,
  aci_container_state_to_container_state, get_aci_resource_meta_from_container_group,
  get_pod_status_from_container_group,
}

ready_name :
    (name : String) → is_phase_running (get_pod_phase_from_aci_state name) ≡ (name == "Running")
unfolding get_pod_phase_from_aci_state
ready_name name = ground arith

up_name :
    (name : String)
    → is_phase_ready (get_pod_phase_from_aci_state name)
      ≡ (name == "Running" || name == "Succeeded")
unfolding get_pod_phase_from_aci_state
up_name name = ground arith

-- A status that is made of the two states of a container: it has both, the restarts, the image and the ID. It
-- is ready exactly if the current state is "Running"; the flag holds for "Succeeded" too.
pub record States (out : Outside) (cg_id : Option String) (properties : ContainerProperties)
    (view : InstanceView) (current previous : AciState) (s : ContainerStatus) (ready : Bool)
    : Type 0 where
  pub current_state : String
  pub at_state : current.state ≡ some current_state
  pub state_read : StateOf current s.state
  pub last_read : StateOf previous s.last_termination_state
  pub ready_read : s.ready ≡ (current_state == "Running")
  pub flag_read : ready ≡ (current_state == "Running" || current_state == "Succeeded")
  pub restarts_read : view.restart_count ≡ some s.restart_count
  pub image_read : properties.image ≡ some s.image
  pub id_read : s.container_id ≡ get_container_id out cg_id s.name

stated_status-States :
    (out : Outside) (cg_id : Option String) (name : String) (properties : ContainerProperties)
    (view : InstanceView) (current previous : AciState) (r : ContainerStatus × Bool)
    → stated_status out cg_id name properties view current previous ≡ ok r
    → States out cg_id properties view current previous r.0 r.1 × (r.0.name ≡ name)
unfolding stated_status
stated_status-States out cg_id name properties view current previous r h =
    let (state, is_state, h6) = >>=-eq-ok (aci_container_state_to_container_state current) _ h in
    let (last, is_last, h7) = >>=-eq-ok (aci_container_state_to_container_state previous) _ h6 in
    let (current_state, at_state, h8) = >>=-eq-ok (deref current.state) _ h7 in
    let (restart_count, at_restarts, h9) = >>=-eq-ok (deref view.restart_count) _ h8 in
    let (image, at_image, h10) = >>=-eq-ok (deref properties.image) _ h9 in
    subst (λ x. States out cg_id properties view current previous x.0 x.1 × (x.0.name ≡ name))
      (ok-injective _ r h10)
      (
        record {
          current_state = current_state;
          at_state = deref-eq-ok current.state at_state;
          state_read = aci_container_state-StateOf current state is_state;
          last_read = aci_container_state-StateOf previous last is_last;
          ready_read = ready_name current_state;
          flag_read = up_name current_state;
          restarts_read = deref-eq-ok view.restart_count at_restarts;
          image_read = deref-eq-ok properties.image at_image;
          id_read = refl;
        },
        refl,
      )

-- One status reads its container, with a missing previous state filled in.
pub record Reads (out : Outside) (cg_id : Option String) (c : Container) (s : ContainerStatus)
    (ready : Bool) : Type 0 where
  pub properties : ContainerProperties
  pub view : InstanceView
  pub current : AciState
  pub previous : AciState
  pub name_read : c.name ≡ some s.name
  pub at_properties : (fill_previous c).properties ≡ some properties
  pub at_view : properties.instance_view ≡ some view
  pub at_current : view.current_state ≡ some current
  pub at_previous : view.previous_state ≡ some previous
  pub states : States out cg_id properties view current previous s ready

container_status-Reads :
    (out : Outside) (cg_id : Option String) (c : Container) (r : ContainerStatus × Bool)
    → container_status out cg_id c ≡ ok r
    → Reads out cg_id c r.0 r.1
unfolding container_status
container_status-Reads out cg_id c r h =
    let (checked, passed, h0) = >>=-eq-ok (validate_container c) _ h in
    let filled = ((validate_container_exact c checked).0 passed).1 in
    let (name, at_name, h1) = >>=-eq-ok (deref checked.name) _ h0 in
    let (properties, at_properties, h2) = >>=-eq-ok (deref checked.properties) _ h1 in
    let (view, at_view, h3) = >>=-eq-ok (deref properties.instance_view) _ h2 in
    let (current, at_current, h4) = >>=-eq-ok (deref view.current_state) _ h3 in
    let (previous, at_previous, h5) = >>=-eq-ok (deref view.previous_state) _ h4 in
    let (states, same) =
      stated_status-States out cg_id name properties view current previous r h5 in
    record {
      properties = properties;
      view = view;
      current = current;
      previous = previous;
      name_read =
          sym (ap (λ x. x.name) filled) ∙ deref-eq-ok checked.name at_name ∙ ap some (sym same);
      at_properties =
          sym (ap (λ x. x.properties) filled) ∙ deref-eq-ok checked.properties at_properties;
      at_view = deref-eq-ok properties.instance_view at_view;
      at_current = deref-eq-ok view.current_state at_current;
      at_previous = deref-eq-ok view.previous_state at_previous;
      states = states;
    }

-- One status for each container, in order; the flag holds while every container is ready.
pub data ReadsAll (out : Outside) (cg_id : Option String)
    : List Container → List ContainerStatus → Bool → Type 0 where
  nil : ReadsAll out cg_id [] [] true
  cons :
      {c : Container} {cs : List Container} {s : ContainerStatus} {ss : List ContainerStatus}
      {ready rest : Bool}
      → Reads out cg_id c s ready
      → ReadsAll out cg_id cs ss rest
      → ReadsAll out cg_id (c ∷ cs) (s ∷ ss) (ready && rest)

container_statuses-ReadsAll :
    (out : Outside) (cg_id : Option String) (cs : List Container) (r : List ContainerStatus × Bool)
    → container_statuses out cg_id cs ≡ ok r
    → ReadsAll out cg_id cs r.0 r.1
unfolding container_statuses
container_statuses-ReadsAll out cg_id [] r h =
    subst (λ x. ReadsAll out cg_id [] x.0 x.1) (ok-injective ([], true) r h) nil
container_statuses-ReadsAll out cg_id (c ∷ cs) r h =
    let (first, p, h') = >>=-eq-ok (container_status out cg_id c) _ h in
    let (others, q, h'') = >>=-eq-ok (container_statuses out cg_id cs) _ h' in
    subst (λ x. ReadsAll out cg_id (c ∷ cs) x.0 x.1) (ok-injective _ r h'')
      (cons (container_status-Reads out cg_id c first p)
        (container_statuses-ReadsAll out cg_id cs others q))

-- The state of a group: the provisioning state, or once that is "Succeeded" the instance's state.
abbrev pub group_state : GroupProperties → Option String
group_state p = elim p.provisioning_state [
  | none ↦ none
  | some s ↦
      if s == "Succeeded" then (elim p.instance_state [ none ↦ none | some i ↦ i ]) else some s
]

-- What the pod's status says of the group that it is built from.
pub record Describes (out : Outside) (internal_ip : String) (cg : ContainerGroup) (st : PodStatus)
    : Type 0 where
  pub properties : GroupProperties
  pub containers : List Container
  pub state : String
  pub all_ready : Bool
  pub created : Time
  pub at_properties : cg.properties ≡ some properties
  pub at_containers : properties.containers ≡ some containers
  pub at_state : group_state properties ≡ some state
  pub each : ReadsAll out cg.id containers st.container_statuses all_ready
  pub at_created : CreatedAt out cg created
  pub phase : PhaseOf state st.phase
  pub conditions : ConditionsOf state created all_ready st.conditions
  pub address : properties.ip_address ≡ some (some st.pod_ip)
  pub host : st.host_ip ≡ internal_ip
  pub started : st.start_time ≡ some 0

parse_creation_time-eq-ok :
    (out : Outside) (name : Option String) (ts : String) (t : Time)
    → parse_creation_time out name ts ≡ ok t
    → ((ts ≡ "") × (t ≡ 0)) ⊎ (out.parse_time ts ≡ some t)
unfolding parse_creation_time
parse_creation_time-eq-ok out name ts t h = elim (Bool-cases (ts == "")) [
  | inl blank ↦ inl ((eq_iff ts "").0 blank, sym (ok-injective 0 t (rw blank at h)))
  | inr text ↦ inr (elim (Option-cases (out.parse_time ts)) [
    | inr (t', is_time) ↦ is_time ∙ ap some (ok-injective t' t (rw (text, is_time) at h))
    | inl bad ↦ absurd (unnamed name (rw (text, bad) at h))
  ])
]
  where
    unnamed :
        (name : Option String)
        → ¬ (
            (deref name >>= λ cg_name.
            err (plain ("unable to parse the creation timestamp for container group " <> cg_name)))
            ≡ ok t)
    unnamed none e = cc
    unnamed (some n) e = cc

meta_created :
    (out : Outside) (cg : ContainerGroup) (m : Option String × Time)
    → get_aci_resource_meta_from_container_group out cg ≡ ok m
    → CreatedAt out cg m.1
unfolding get_aci_resource_meta_from_container_group
meta_created out cg m h =
    let (properties, at_properties, h1) = >>=-eq-ok (deref cg.properties) _ h in
    let (provisioned, at_provisioned, h2) = >>=-eq-ok (deref properties.provisioning_state) _ h1 in
    let (state, at_state, h3) =
      >>=-eq-ok
        (if provisioned == "Succeeded"
          then deref properties.instance_state
          else ok (some provisioned))
        _ h2 in
    let (ts, at_ts, h4) = >>=-eq-ok (deref (tag cg "CreationTimestamp")) _ h3 in
    let (created, at_created, h5) = >>=-eq-ok (parse_creation_time out cg.name ts.value) _ h4 in
    let has = deref-eq-ok (tag cg "CreationTimestamp") at_ts in
    subst (λ x. CreatedAt out cg x.1) (ok-injective _ m h5)
      (elim (parse_creation_time-eq-ok out cg.name ts.value created at_created) [
        | inl (blank, zero_time) ↦ subst (CreatedAt out cg) (sym zero_time) (unset ts has blank)
        | inr is_time ↦ parsed ts has is_time
      ])

meta_state :
    (out : Outside) (cg : ContainerGroup) (p : GroupProperties) (m : Option String × Time)
    → cg.properties ≡ some p
    → get_aci_resource_meta_from_container_group out cg ≡ ok m
    → group_state p ≡ m.0
unfolding get_aci_resource_meta_from_container_group
meta_state out cg p m e h = ground arith

-- A status that is built describes its group: one container status for each container in order, with its name,
-- its ID, its image, its restarts and its two states, ready exactly if it is "Running"; the phase that the
-- group's state stands for; for a group that is "Running" or "Succeeded" the conditions, where "Ready" is
-- true exactly while every container is "Running" or "Succeeded", and else none; the group's address. Its
-- start time is always Go's zero time, and so is the time of a "Ready" condition that is true.
pub get_pod_status-Describes :
    (out : Outside) (internal_ip : String) (cg : ContainerGroup) (st : PodStatus)
    → get_pod_status_from_container_group out internal_ip cg ≡ ok st
    → Describes out internal_ip cg st
unfolding get_pod_status_from_container_group
get_pod_status-Describes out internal_ip cg st h =
    let (properties, at_properties, h1) = >>=-eq-ok (deref cg.properties) _ h in
    let (containers, at_containers, h2) = >>=-eq-ok (deref properties.containers) _ h1 in
    let (statuses, each, h3) = >>=-eq-ok (container_statuses out cg.id containers) _ h2 in
    let (meta, at_meta, h4) = >>=-eq-ok (get_aci_resource_meta_from_container_group out cg) _ h3 in
    let (state, at_state, h5) = >>=-eq-ok (deref meta.0) _ h4 in
    let (ip_address, at_ip, h6) = >>=-eq-ok (deref properties.ip_address) _ h5 in
    let (ip, at_value, h7) = >>=-eq-ok (deref ip_address) _ h6 in
    subst (Describes out internal_ip cg) (ok-injective _ st h7) (record {
      properties = properties;
      containers = containers;
      state = state;
      all_ready = statuses.1;
      created = meta.1;
      at_properties = deref-eq-ok cg.properties at_properties;
      at_containers = deref-eq-ok properties.containers at_containers;
      at_state =
          meta_state out cg properties meta (deref-eq-ok cg.properties at_properties) at_meta
          ∙ deref-eq-ok meta.0 at_state;
      each = container_statuses-ReadsAll out cg.id containers statuses each;
      at_created = meta_created out cg meta at_meta;
      phase = get_pod_phase-PhaseOf state;
      conditions = get_pod_conditions-ConditionsOf state meta.1 statuses.1;
      address = deref-eq-ok properties.ip_address at_ip ∙ ap some (deref-eq-ok ip_address at_value);
      host = refl;
      started = refl;
    })
