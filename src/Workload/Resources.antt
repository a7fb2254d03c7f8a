-- ===== src/Workload/Resources.antt =====
-- The resources of a container, and getGPUSKU, of pkg/provider/aci.go. A CPU is in thousandths and memory in
-- tenths of a gigabyte, which stand for the source's floating-point numbers.
use azure_aci.Prelude.{
  ℕ, ◌-◌, ◌*◌, ◌/◌, ◌%◌, ◌^◌, String, Bool, Option, none, some, List, [], ◌∷◌, ◌<>◌, Result, ok,
  err, plain, if◌then◌else◌, ◌>>=◌, ◌>>◌, eqb, ltb, fail_if, join,
}
use azure_aci.K8s.{ℤ, pos, negsuc}
use azure_aci.Workload.{ResourceList}

-- The provider's GPU models, the pod's wish for one, and strings.EqualFold.
pub record GpuInput : Type 0 where
  pub gpu_skus : List String
  pub region : String
  pub desired_sku : Option String
  pub equal_fold : String → String → Bool

pub record GpuResource : Type 0 where
  pub count : ℤ
  pub sku : String

pub record ResourceRequests : Type 0 where
  pub cpu : ℕ
  pub memory : ℕ
  pub gpu : Option GpuResource

pub record AciResources : Type 0 where
  pub requests : ResourceRequests
  pub limits : Option ResourceRequests

-- The entry of a map that may be nil.
abbrev pub entry : (ResourceList → Option ℕ) → Option ResourceList → Option ℕ
entry field none = none
entry field (some l) = field l

-- The request is a multiple of 0.01 CPU, and at least that.
unfoldable pub cpu_request : Option ℕ → ℕ
cpu_request none = 1000
cpu_request (some milli) = if ltb (milli / 10) 1 then 10 else (milli / 10) * 10

-- The request is a multiple of 0.1 GB, and at least that.
unfoldable pub memory_request : Option ℕ → ℕ
memory_request none = 15
memory_request (some bytes) = if ltb (bytes / 100000000) 1 then 1 else bytes / 100000000

unfoldable pub cpu_limit : Option ℕ → ℕ → ℕ
cpu_limit none request = request
cpu_limit (some milli) request = milli

unfoldable pub memory_limit : Option ℕ → ℕ → ℕ
memory_limit none request = request
memory_limit (some bytes) request = bytes / 100000000

-- int32(n) of an int64 that is not negative
unfoldable pub to_int32 : ℕ → ℤ
to_int32 n = let low = n % 2 ^ 32 in if ltb low (2 ^ 31) then pos low else negsuc (2 ^ 32 - 1 - low)

-- The arguments of the message stand in the order in which the source gives them.
pub supported_sku : GpuInput → String → List String → Result String
supported_sku g desired [] = err (
    plain (
      join "" (
        "the pod requires GPU SKU "
        ∷ desired
        ∷ ", but ACI only supports SKUs "
        ∷ g.region
        ∷ " in region ["
        ∷ join " " g.gpu_skus
        ∷ "]"
        ∷ [])))
supported_sku g desired (sku ∷ skus) =
    let rest = supported_sku g desired skus in if g.equal_fold desired sku then ok sku else rest

pub choose_sku : GpuInput → Option String → List String → Result String
unfolding supported_sku
choose_sku g desired [] = err (
    plain (
      "the pod requires GPU resource, but ACI doesn't provide GPU enabled container group in region "
      <> g.region))
choose_sku g none (sku ∷ skus) = ok sku
choose_sku g (some desired) (sku ∷ skus) = supported_sku g desired (sku ∷ skus)

unfoldable pub get_gpu_sku : GpuInput → Result String
unfolding choose_sku
get_gpu_sku g = choose_sku g g.desired_sku g.gpu_skus

unfoldable pub gpu_resource : GpuInput → Option ℕ → Result (Option GpuResource)
unfolding get_gpu_sku
gpu_resource g none = ok none
gpu_resource g (some n) = do
  sku ← get_gpu_sku g
  fail_if (eqb n 0) (plain "GPU must be a integer number")
  ok (some (record { count = to_int32 n; sku = sku }))

-- The limits, which also decide on the GPUs of the request.
unfoldable pub with_limits : GpuInput → ℕ → ℕ → Option ResourceList → Result AciResources
with_limits g cpu memory none =
    ok (record { requests = record { cpu = cpu; memory = memory; gpu = none }; limits = none })
with_limits g cpu memory (some l) = do
  gpu ← gpu_resource g l.gpu
  ok (record {
    requests = record { cpu = cpu; memory = memory; gpu = gpu };
    limits =
        some
          (record { cpu = cpu_limit l.cpu cpu; memory = memory_limit l.memory memory; gpu = gpu });
  })

unfoldable pub get_resources :
    GpuInput → Option ResourceList → Option ResourceList → Result AciResources
unfolding with_limits
get_resources g requests limits =
    with_limits g (cpu_request (entry (λ l. l.cpu) requests))
      (memory_request (entry (λ l. l.memory) requests)) limits
