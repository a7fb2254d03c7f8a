-- ===== src/Workload/Probes.antt =====
-- getProbe of pkg/provider/aci.go.
use azure_aci.Prelude.{
  ℕ, String, ◌&&◌, Option, none, some, List, [], ◌∷◌, ◌==◌, ◌<>◌, ◌≡◌, refl, Result, ok, err, plain,
  fail_if, if◌then◌else◌, is_some, is_none, ◌>>=◌, ◌>>◌, eqb, ◌⊎◌, inl, inr, arith, ◌≢◌,
  Option-cases, Bool-cases, eq_iff, sym,
}
use azure_aci.Workload.{ContainerPort, IntOrString, int, text, HttpGet, Probe, AciHttpGet, AciProbe}

-- The number of the first port of the name, or 0.
unfoldable pub named_port : String → List ContainerPort → ℕ
named_port port_name [] = 0
named_port port_name (p ∷ ports) =
    let rest = named_port port_name ports in if port_name == p.name then p.container_port else rest

unfoldable pub port_value : IntOrString → List ContainerPort → Result ℕ
unfolding named_port
port_value (int n) ports = ok n
port_value (text port_name) ports =
    if eqb (named_port port_name ports) 0
    then err (plain ("unable to find named port: " <> port_name))
    else ok (named_port port_name ports)

unfoldable pub get_http_get : Option HttpGet → List ContainerPort → Result (Option AciHttpGet)
unfolding port_value
get_http_get none ports = ok none
get_http_get (some h) ports = do
  port ← port_value h.port ports
  ok (some (record { port = port; path = h.path; scheme = h.scheme }))

unfoldable pub get_probe : Probe → List ContainerPort → Result AciProbe
unfolding get_http_get
get_probe probe ports = do
  fail_if (is_some probe.exec && is_some probe.http_get)
      (plain "probe may not specify more than one of \"exec\" and \"httpGet\"")
  fail_if (is_none probe.exec && is_none probe.http_get)
      (plain "probe must specify one of \"exec\" and \"httpGet\"")
  http_get ← get_http_get probe.http_get ports
  ok (record { exec = probe.exec; http_get = http_get; timing = probe.timing })

-- The probe of a port.
abbrev pub http_probe : Probe → HttpGet → ℕ → AciProbe
http_probe probe h n = record {
  exec = none;
  http_get = some (record { port = n; path = h.path; scheme = h.scheme });
  timing = probe.timing;
}

IntOrString-cases :
    (p : IntOrString) → ((n : ℕ) × (p ≡ int n)) ⊎ ((name : String) × (p ≡ text name))
IntOrString-cases (int n) = inl (n, refl)
IntOrString-cases (text name) = inr (name, refl)

-- The number of the first port that has the name.
pub data FirstNamed (port_name : String) : List ContainerPort → ℕ → Type 0 where
  here :
      {p : ContainerPort} {ports : List ContainerPort}
      → p.name ≡ port_name
      → FirstNamed port_name (p ∷ ports) p.container_port
  there :
      {p : ContainerPort} {ports : List ContainerPort} {n : ℕ}
      → p.name ≢ port_name
      → FirstNamed port_name ports n
      → FirstNamed port_name (p ∷ ports) n

named_port-FirstNamed :
    (port_name : String) (ports : List ContainerPort)
    → named_port port_name ports ≢ 0
    → FirstNamed port_name ports (named_port port_name ports)
unfolding named_port
named_port-FirstNamed port_name [] found = absurd (found refl)
named_port-FirstNamed port_name (p ∷ ports) found = elim (Bool-cases (port_name == p.name)) [
  | inl same ↦ rw same (here (sym ((eq_iff port_name p.name).0 same)))
  | inr other ↦ rw other (
      there (λ e. cc (other, (eq_iff port_name p.name).1 (sym e)))
        (named_port-FirstNamed port_name ports (rw other at found)))
]

-- `made` does in Azure what `probe` asks for.
pub data Probed (probe : Probe) (ports : List ContainerPort) (made : AciProbe) : Type 0 where
  by_command :
      (command : List String)
      → probe.exec ≡ some command
      → probe.http_get ≡ none
      → made ≡ record { exec = some command; http_get = none; timing = probe.timing }
      → Probed probe ports made
  by_number :
      (h : HttpGet) (n : ℕ)
      → probe.exec ≡ none
      → probe.http_get ≡ some h
      → h.port ≡ int n
      → made ≡ http_probe probe h n
      → Probed probe ports made
  by_name :
      (h : HttpGet) (port_name : String) (n : ℕ)
      → probe.exec ≡ none
      → probe.http_get ≡ some h
      → h.port ≡ text port_name
      → FirstNamed port_name ports n
      → n ≢ 0
      → made ≡ http_probe probe h n
      → Probed probe ports made

-- A probe is made only of exactly one handler, and asks for what the probe asks for: its command, or its path at
-- the port of its number, or at the first port of the container that has its name.
pub get_probe-Probed :
    (probe : Probe) (ports : List ContainerPort) (made : AciProbe)
    → get_probe probe ports ≡ ok made
    → Probed probe ports made
unfolding get_probe get_http_get port_value
get_probe-Probed probe ports made h = elim (Option-cases probe.exec) [
  | inl no_exec ↦ elim (Option-cases probe.http_get) [
    | inl no_get ↦
        let refused : get_probe probe ports
            ≡ err (plain "probe must specify one of \"exec\" and \"httpGet\"") =
          rw (no_exec, no_get) refl in
        absurd cc
    | inr (hg, is_get) ↦ elim (IntOrString-cases hg.port) [
      | inl (n, is_int) ↦
          let value : get_probe probe ports ≡ ok (http_probe probe hg n) =
            rw (no_exec, is_get, is_int) refl in
          let same : made ≡ http_probe probe hg n = cc in by_number hg n no_exec is_get is_int same
      | inr (name, is_name) ↦ elim (Bool-cases (eqb (named_port name ports) 0)) [
        | inl unknown ↦
            let refused : get_probe probe ports
                ≡ err (plain ("unable to find named port: " <> name)) =
              rw (no_exec, is_get, is_name, unknown) refl in
            absurd cc
        | inr known ↦
            let value : get_probe probe ports ≡ ok (http_probe probe hg (named_port name ports)) =
              rw (no_exec, is_get, is_name, known) refl in
            let same : made ≡ http_probe probe hg (named_port name ports) = cc in
            let present : named_port name ports ≢ 0 = ground (arith, known) in
            by_name hg name (named_port name ports) no_exec is_get is_name
              (named_port-FirstNamed name ports present) present same
      ]
    ]
  ]
  | inr (command, is_exec) ↦ elim (Option-cases probe.http_get) [
    | inl no_get ↦
        let value : get_probe probe ports
            ≡ ok (record { exec = some command; http_get = none; timing = probe.timing }) =
          rw (is_exec, no_get) refl in
        by_command command is_exec no_get cc
    | inr (hg, is_get) ↦
        let refused : get_probe probe ports
            ≡ err (plain "probe may not specify more than one of \"exec\" and \"httpGet\"") =
          rw (is_exec, is_get) refl in
        absurd cc
  ]
]
