-- ===== src/Workload/Built.antt =====
-- What the containers that are sent to Azure have to do with those of the pod.
use azure_aci.Prelude.{
  ℕ, ◌*◌, ◌/◌, ◌≤◌, true, false, not, ◌&&◌, Option, none, some, List, [], ◌∷◌, ◌++◌, ◌≡◌, ◌≢◌, refl,
  sym, ap, subst, ◌∙◌, ok, >>=-eq-ok, ok-injective, fail_if, fail_if-eq-ok, arith, In, inl, inr,
  Bool-cases, eq_iff, ◌==◌, map, ltb,
}
use azure_aci.Workload.{
  ContainerSpec, ContainerPort, EnvVar, EnvironmentVariable, Probe, AciProbe,
  get_environment_variables, get_aci_env_var, is_empty, ResourceList, args_without_command,
  get_volume_mounts,
}
use azure_aci.Workload.Probes.{Probed, get_probe, get_probe-Probed}
use azure_aci.Workload.Resources.{
  GpuInput, AciResources, get_resources, cpu_request, memory_request, entry, gpu_resource,
  with_limits,
}
use azure_aci.Workload.Containers.{
  AciContainer, aci_port, ports_of, get_containers, make_container, optional_probe,
}

-- The variable that is sent for `e`: a secret's value only as a secure value.
pub record Sent (e : EnvVar) (v : EnvironmentVariable) : Type 0 where
  pub named : v.name ≡ e.name
  pub some_value : e.value ≢ ""
  pub secret : e.from_secret ≡ true → (v.value ≡ none) × (v.secure_value ≡ some e.value)
  pub open_value : e.from_secret ≡ false → (v.value ≡ some e.value) × (v.secure_value ≡ none)

get_aci_env_var-Sent : (e : EnvVar) → e.value ≢ "" → Sent e (get_aci_env_var e)
unfolding get_aci_env_var
get_aci_env_var-Sent e some_value = record {
  named = elim (Bool-cases e.from_secret) [ inl h ↦ rw h refl | inr h ↦ rw h refl ];
  some_value = some_value;
  secret = λ h. rw h (refl, refl);
  open_value = λ h. rw h (refl, refl);
}

-- Every variable that is sent is one of the container's with a value, and a secret's value is sent only
-- as a secure value.
pub get_environment_variables-Sent :
    (env : List EnvVar) (v : EnvironmentVariable)
    → In v (get_environment_variables env)
    → (e : EnvVar) × In e env × Sent e v
unfolding get_environment_variables
get_environment_variables-Sent [] v h = absurd h
get_environment_variables-Sent (e ∷ env) v h = elim (Bool-cases (e.value == "")) [
  | inl empty ↦
      let skipped : get_environment_variables (e ∷ env) ≡ get_environment_variables env =
        rw (get_environment_variables, empty) refl in
      let (found, at, sent) = get_environment_variables-Sent env v (subst (In v) skipped h) in
      (found, inr at, sent)
  | inr full ↦
      let taken : get_environment_variables (e ∷ env)
          ≡ get_aci_env_var e ∷ get_environment_variables env =
        rw (get_environment_variables, full) refl in
      elim (subst (In v) taken h) [
        | inl same ↦ (
          e,
          inl refl,
          subst (Sent e) (sym same)
              (get_aci_env_var-Sent e (ground (arith, full, eq_iff e.value ""))),
        )
        | inr later ↦
            let (found, at, sent) = get_environment_variables-Sent env v later in
            (found, inr at, sent)
      ]
]

cpu_request-bound : (o : Option ℕ) → (10 ≤ cpu_request o) × ((k : ℕ) × (cpu_request o ≡ k * 10))
unfolding cpu_request
cpu_request-bound none = (omega arith, (100, refl))
cpu_request-bound (some milli) = elim (Bool-cases (ltb (milli / 10) 1)) [
  | inl e ↦ rw e (omega arith, (1, refl))
  | inr e ↦ rw e (ground (arith, e), (milli / 10, refl))
]

memory_request-bound : (o : Option ℕ) → 1 ≤ memory_request o
unfolding memory_request
memory_request-bound none = omega arith
memory_request-bound (some bytes) = elim (Bool-cases (ltb (bytes / 100000000) 1)) [
  | inl e ↦ rw e (omega arith)
  | inr e ↦ rw e (ground (arith, e))
]

with_limits-requests :
    (g : GpuInput) (cpu memory : ℕ) (limits : Option ResourceList) (res : AciResources)
    → with_limits g cpu memory limits ≡ ok res
    → (res.requests.cpu ≡ cpu) × (res.requests.memory ≡ memory)
unfolding with_limits
with_limits-requests g cpu memory none res h =
    let e = ok-injective _ _ h in
    (sym (ap (λ r. r.requests.cpu) e), sym (ap (λ r. r.requests.memory) e))
with_limits-requests g cpu memory (some l) res h =
    let (gpu, at_gpu, h') = >>=-eq-ok (gpu_resource g l.gpu) _ h in
    let e = ok-injective _ _ h' in
    (sym (ap (λ r. r.requests.cpu) e), sym (ap (λ r. r.requests.memory) e))

-- A probe of the pod and the one that is sent.
pub data ProbedOption (ports : List ContainerPort) : Option Probe → Option AciProbe → Type 0 where
  no_probe : ProbedOption ports none none
  a_probe :
      (probe : Probe) (made : AciProbe)
      → Probed probe ports made
      → ProbedOption ports (some probe) (some made)

optional_probe-Probed :
    (o : Option Probe) (ports : List ContainerPort) (made : Option AciProbe)
    → optional_probe o ports ≡ ok made
    → ProbedOption ports o made
unfolding optional_probe
optional_probe-Probed none ports made h =
    subst (ProbedOption ports none) (ok-injective _ _ h) no_probe
optional_probe-Probed (some probe) ports made h =
    let (p, at, h') = >>=-eq-ok (get_probe probe ports) _ h in
    subst (ProbedOption ports (some probe)) (ok-injective _ _ h')
      (a_probe probe p (get_probe-Probed probe ports p at))

-- `made` runs in Azure what `c` asks for.
pub record Built (c : ContainerSpec) (made : AciContainer) : Type 0 where
  pub named : made.name ≡ c.name
  pub image : made.image ≡ c.image
  pub command : made.command ≡ c.command ++ c.args
  pub needs_command : (is_empty c.command && not (is_empty c.args)) ≡ false
  pub ports : made.ports ≡ map aci_port (ports_of c.ports)
  pub mounts : made.volume_mounts ≡ get_volume_mounts c
  pub variables : made.environment_variables ≡ get_environment_variables c.env
  pub some_cpu : 10 ≤ made.resources.requests.cpu
  pub even_cpu : (k : ℕ) × (made.resources.requests.cpu ≡ k * 10)
  pub some_memory : 1 ≤ made.resources.requests.memory
  pub liveness : ProbedOption (ports_of c.ports) c.liveness_probe made.liveness_probe
  pub readiness : ProbedOption (ports_of c.ports) c.readiness_probe made.readiness_probe

-- The resources of a container are bounded from below, in steps of the unit.
get_resources-bound :
    (g : GpuInput) (r l : Option ResourceList) (res : AciResources)
    → get_resources g r l ≡ ok res
    → (10 ≤ res.requests.cpu) × ((k : ℕ) × (res.requests.cpu ≡ k * 10)) × (1 ≤ res.requests.memory)
unfolding get_resources
get_resources-bound g r l res h =
    let (at_cpu, at_memory) = with_limits-requests g _ _ l res h in
    let (some_cpu, (k, even)) = cpu_request-bound (entry (λ l. l.cpu) r) in
    let some_memory = memory_request-bound (entry (λ l. l.memory) r) in
    (
      subst (λ n. 10 ≤ n) (sym at_cpu) some_cpu,
      (k, at_cpu ∙ even),
      subst (λ n. 1 ≤ n) (sym at_memory) some_memory,
    )

make_container-Built :
    (g : GpuInput) (c : ContainerSpec) (made : AciContainer)
    → make_container g c ≡ ok made
    → Built c made
unfolding make_container
make_container-Built g c made h =
    let (u, tested, h1) =
      >>=-eq-ok (fail_if (is_empty c.command && not (is_empty c.args)) args_without_command) _ h in
    let (res, at_res, h2) = >>=-eq-ok (get_resources g c.requests c.limits) _ h1 in
    let (live, at_live, h3) = >>=-eq-ok (optional_probe c.liveness_probe (ports_of c.ports)) _ h2 in
    let (ready, at_ready, h4) =
      >>=-eq-ok (optional_probe c.readiness_probe (ports_of c.ports)) _ h3 in
    let (some_cpu, even_cpu, some_memory) = get_resources-bound g c.requests c.limits res at_res in
    subst (Built c) (ok-injective _ _ h4) (record {
      named = refl;
      image = refl;
      command = refl;
      needs_command = fail_if-eq-ok _ _ tested;
      ports = refl;
      mounts = refl;
      variables = refl;
      some_cpu = some_cpu;
      even_cpu = even_cpu;
      some_memory = some_memory;
      liveness = optional_probe-Probed _ _ live at_live;
      readiness = optional_probe-Probed _ _ ready at_ready;
    })

-- One container for each of the pod's, in their order.
pub data AllBuilt : List ContainerSpec → List AciContainer → Type 0 where
  none_built : AllBuilt [] []
  one_built :
      {c : ContainerSpec} {made : AciContainer} {cs : List ContainerSpec} {all : List AciContainer}
      → Built c made
      → AllBuilt cs all
      → AllBuilt (c ∷ cs) (made ∷ all)

-- Where the containers are made, there is one for each of the pod's, in their order, that runs its
-- image and command with its ports, mounts, variables and probes. It asks for at least 0.01 CPU, in
-- steps of 0.01, and for at least 0.1 GB; it has no arguments without a command.
pub get_containers-AllBuilt :
    (g : GpuInput) (cs : List ContainerSpec) (all : List AciContainer)
    → get_containers g cs ≡ ok all
    → AllBuilt cs all
unfolding get_containers
get_containers-AllBuilt g [] all h = subst (AllBuilt []) (ok-injective _ _ h) none_built
get_containers-AllBuilt g (c ∷ cs) all h =
    let (made, at_made, h1) = >>=-eq-ok (make_container g c) _ h in
    let (rest, at_rest, h2) = >>=-eq-ok (get_containers g cs) _ h1 in
    subst (AllBuilt (c ∷ cs)) (ok-injective _ _ h2) (
      one_built (make_container-Built g c made at_made) (get_containers-AllBuilt g cs rest at_rest))
