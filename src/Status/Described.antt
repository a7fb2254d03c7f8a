-- ===== src/Status/Described.antt =====
-- What the names of ACI's states stand for, independently of the code: the phase, the state of a container,
-- the conditions of a pod, and its creation time.
use azure_aci.Prelude.{
  String, Bool, true, false, ◌==◌, eq_iff, Bool-cases, ◌⊎◌, inl, inr, arith, none, some, List, [],
  ◌∷◌, ◌≡◌, refl, ◌||◌, ok, ok-injective, deref, deref-eq-ok, >>=-eq-ok, subst, sym, if◌then◌else◌,
}
use azure_aci.K8s.{
  Time, ℤ, pos, PodPhase, pending, running, succeeded, failed, unknown, ContainerState,
  PodCondition, pod_ready, pod_initialized, pod_scheduled,
}
use azure_aci.Azure.{AciState, ContainerGroup, Pointer}
use azure_aci.Status.{
  Outside, tag, get_pod_phase_from_aci_state, aci_container_state_to_container_state,
  get_pod_conditions_from_aci_state,
}

abbrev pub is_one_of : List String → String → Bool
is_one_of [] state = false
is_one_of (name ∷ names) state = state == name || is_one_of names state

abbrev pub known_names : List String
known_names =
    "Running" ∷ "Succeeded" ∷ "Failed" ∷ "Canceled" ∷ "Creating" ∷ "Repairing" ∷ "Pending"
    ∷ "Accepted" ∷ []

abbrev pub container_names : List String
container_names = "Running" ∷ "Succeeded" ∷ "Failed" ∷ "Canceled" ∷ []

-- The phase that a name stands for.
pub data PhaseOf : String → PodPhase → Type 0 where
  runs : PhaseOf "Running" running
  succeeds : PhaseOf "Succeeded" succeeded
  fails : PhaseOf "Failed" failed
  is_canceled : PhaseOf "Canceled" failed
  creates : PhaseOf "Creating" pending
  repairs : PhaseOf "Repairing" pending
  pends : PhaseOf "Pending" pending
  is_accepted : PhaseOf "Accepted" pending
  is_other : {state : String} → is_one_of known_names state ≡ false → PhaseOf state unknown

named :
    (P : String → PodPhase → Type 0) (f : String → PodPhase) (k state : String)
    → (state == k) ≡ true
    → P k (f k)
    → P state (f state)
named P f k state same h = subst (λ s. P s (f s)) (sym ((eq_iff state k).0 same)) h

pub get_pod_phase-PhaseOf : (state : String) → PhaseOf state (get_pod_phase_from_aci_state state)
unfolding get_pod_phase_from_aci_state
get_pod_phase-PhaseOf state = elim (Bool-cases (state == "Running")) [
  | inl e ↦ named PhaseOf get_pod_phase_from_aci_state "Running" state e runs
  | inr n0 ↦ elim (Bool-cases (state == "Succeeded")) [
    | inl e ↦ named PhaseOf get_pod_phase_from_aci_state "Succeeded" state e succeeds
    | inr n1 ↦ elim (Bool-cases (state == "Failed")) [
      | inl e ↦ named PhaseOf get_pod_phase_from_aci_state "Failed" state e fails
      | inr n2 ↦ elim (Bool-cases (state == "Canceled")) [
        | inl e ↦ named PhaseOf get_pod_phase_from_aci_state "Canceled" state e is_canceled
        | inr n3 ↦ elim (Bool-cases (state == "Creating")) [
          | inl e ↦ named PhaseOf get_pod_phase_from_aci_state "Creating" state e creates
          | inr n4 ↦ elim (Bool-cases (state == "Repairing")) [
            | inl e ↦ named PhaseOf get_pod_phase_from_aci_state "Repairing" state e repairs
            | inr n5 ↦ elim (Bool-cases (state == "Pending")) [
              | inl e ↦ named PhaseOf get_pod_phase_from_aci_state "Pending" state e pends
              | inr n6 ↦ elim (Bool-cases (state == "Accepted")) [
                | inl e ↦ named PhaseOf get_pod_phase_from_aci_state "Accepted" state e is_accepted
                | inr n7 ↦
                    rw (n0, n1, n2, n3, n4, n5, n6, n7)
                      (is_other (rw (n0, n1, n2, n3, n4, n5, n6, n7) refl))
              ]
            ]
          ]
        ]
      ]
    ]
  ]
]

-- The state that a container is in, of Kubernetes and of ACI.
pub data StateOf (cs : AciState) : ContainerState → Type 0 where
  is_running :
      (started : Time)
      → cs.state ≡ some "Running"
      → cs.start_time ≡ some started
      → StateOf cs (record {
        waiting = none;
        running = some (record { started_at = started });
        terminated = none;
      })
  has_succeeded :
      (started finished : Time)
      → cs.state ≡ some "Succeeded"
      → cs.start_time ≡ some started
      → cs.finish_time ≡ some finished
      → StateOf cs (record {
        waiting = none;
        running = none;
        terminated = some (record {
          exit_code = pos 0;
          reason = "Completed";
          message = "";
          started_at = started;
          finished_at = finished;
          container_id = "";
        });
      })
  has_failed :
      (state detail : String) (code : ℤ) (started finished : Time)
      → cs.state ≡ some state
      → (state ≡ "Failed") ⊎ (state ≡ "Canceled")
      → cs.exit_code ≡ some code
      → cs.detail_status ≡ some detail
      → cs.start_time ≡ some started
      → cs.finish_time ≡ some finished
      → StateOf cs (record {
        waiting = none;
        running = none;
        terminated = some (record {
          exit_code = code;
          reason = state;
          message = detail;
          started_at = started;
          finished_at = finished;
          container_id = "";
        });
      })
  is_waiting :
      (state detail : String)
      → cs.state ≡ some state
      → is_one_of container_names state ≡ false
      → cs.detail_status ≡ some detail
      → StateOf cs (record {
        waiting = some (record { reason = state; message = detail });
        running = none;
        terminated = none;
      })

failed_name :
    (state : String)
    → (state == "Failed" || state == "Canceled") ≡ true
    → (state ≡ "Failed") ⊎ (state ≡ "Canceled")
failed_name state e = elim (Bool-cases (state == "Failed")) [
  | inl f ↦ inl ((eq_iff state "Failed").0 f)
  | inr n ↦ inr ((eq_iff state "Canceled").0 (rw n at e))
]

other_name :
    (state : String)
    → (state == "Failed" || state == "Canceled") ≡ false
    → (state == "Failed" || (state == "Canceled" || false)) ≡ false
other_name state e = ground (arith, e)

pub aci_container_state-StateOf :
    (cs : AciState) (st : ContainerState)
    → aci_container_state_to_container_state cs ≡ ok st
    → StateOf cs st
unfolding aci_container_state_to_container_state
aci_container_state-StateOf cs st h =
    let (state, at, h1) = >>=-eq-ok (deref cs.state) _ h in
    let has = deref-eq-ok cs.state at in
    elim (Bool-cases (state == "Running")) [
      | inl e ↦
          let (started, s, h2) = >>=-eq-ok (deref cs.start_time) _ (rw e at h1) in
          subst (StateOf cs) (ok-injective _ st h2) (
            is_running started (rw (← (eq_iff state "Running").0 e) has)
              (deref-eq-ok cs.start_time s))
      | inr n0 ↦ elim (Bool-cases (state == "Succeeded")) [
        | inl e ↦
            let (started, s, h2) = >>=-eq-ok (deref cs.start_time) _ (rw (n0, e) at h1) in
            let (finished, f, h3) = >>=-eq-ok (deref cs.finish_time) _ h2 in
            subst (StateOf cs) (ok-injective _ st h3) (
              has_succeeded started finished (rw (← (eq_iff state "Succeeded").0 e) has)
                (deref-eq-ok cs.start_time s) (deref-eq-ok cs.finish_time f))
        | inr n1 ↦ elim (Bool-cases (state == "Failed" || state == "Canceled")) [
          | inl e ↦
              let (code, c, h2) = >>=-eq-ok (deref cs.exit_code) _ (rw (n0, n1, e) at h1) in
              let (detail, d, h3) = >>=-eq-ok (deref cs.detail_status) _ h2 in
              let (started, s, h4) = >>=-eq-ok (deref cs.start_time) _ h3 in
              let (finished, f, h5) = >>=-eq-ok (deref cs.finish_time) _ h4 in
              subst (StateOf cs) (ok-injective _ st h5) (
                has_failed state detail code started finished has (failed_name state e)
                  (deref-eq-ok cs.exit_code c) (deref-eq-ok cs.detail_status d)
                  (deref-eq-ok cs.start_time s) (deref-eq-ok cs.finish_time f))
          | inr n2 ↦
              let (detail, d, h2) = >>=-eq-ok (deref cs.detail_status) _ (rw (n0, n1, n2) at h1) in
              subst (StateOf cs) (ok-injective _ st h2) (
                is_waiting state detail has (rw (n0, n1) (other_name state n2))
                  (deref-eq-ok cs.detail_status d))
        ]
      ]
    ]

abbrev other_conditions : Time → List PodCondition
other_conditions created =
    record { kind = pod_initialized; status = true; last_transition_time = created }
    ∷ record { kind = pod_scheduled; status = true; last_transition_time = created }
    ∷ []

-- The conditions of a pod in a state, made at a time: "Ready" is true if the flag is, and then since
-- Go's zero time.
pub data ConditionsOf (state : String) (created : Time) : Bool → List PodCondition → Type 0 where
  ready :
      (state ≡ "Running") ⊎ (state ≡ "Succeeded")
      → ConditionsOf state created true (
          record { kind = pod_ready; status = true; last_transition_time = 0 }
          ∷ other_conditions created)
  unready :
      (state ≡ "Running") ⊎ (state ≡ "Succeeded")
      → ConditionsOf state created false (
          record { kind = pod_ready; status = false; last_transition_time = created }
          ∷ other_conditions created)
  not_up :
      {all_ready : Bool}
      → is_one_of ("Running" ∷ "Succeeded" ∷ []) state ≡ false
      → ConditionsOf state created all_ready []

up :
    (state : String) (created : Time) (all_ready : Bool)
    → (state ≡ "Running") ⊎ (state ≡ "Succeeded")
    → ConditionsOf state created all_ready (
        record {
          kind = pod_ready;
          status = all_ready;
          last_transition_time = if all_ready then 0 else created;
        }
        ∷ other_conditions created)
up state created true h = ready h
up state created false h = unready h

pub get_pod_conditions-ConditionsOf :
    (state : String) (created : Time) (all_ready : Bool)
    → ConditionsOf state created all_ready
        (get_pod_conditions_from_aci_state state created 0 all_ready)
unfolding get_pod_conditions_from_aci_state
get_pod_conditions-ConditionsOf state created all_ready = elim (Bool-cases (state == "Running")) [
  | inl e ↦ rw e (up state created all_ready (inl ((eq_iff state "Running").0 e)))
  | inr n ↦ elim (Bool-cases (state == "Succeeded")) [
    | inl e ↦ rw (n, e) (up state created all_ready (inr ((eq_iff state "Succeeded").0 e)))
    | inr n' ↦ rw (n, n') (not_up (rw (n, n') refl))
  ]
]

-- The time in the tag of the group, or Go's zero time for an empty tag.
pub data CreatedAt (out : Outside) (cg : ContainerGroup) : Time → Type 0 where
  unset : (p : Pointer) → tag cg "CreationTimestamp" ≡ some p → p.value ≡ "" → CreatedAt out cg 0
  parsed :
      {created : Time} (p : Pointer)
      → tag cg "CreationTimestamp" ≡ some p
      → out.parse_time p.value ≡ some created
      → CreatedAt out cg created
