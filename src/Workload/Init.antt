-- ===== src/Workload/Init.antt =====
-- Which init containers are accepted.
use azure_aci.Prelude.{
  Option, none, some, Bool, true, false, not, ◌&&◌, List, [], ◌∷◌, ◌≡◌, refl, Result, ok, err,
  panics, is_ok, fail_if, Error, is_some, is_none, ◌>>=◌, ◌>>◌, ap, ◌∙◌,
}
use azure_aci.Workload.{ContainerSpec, is_empty, verify_container}
use azure_aci.Workload.Containers.{init_container, get_init_containers}

-- ACI runs an init container without ports, resources or probes, and with a command for its arguments.
pub is_allowed : ContainerSpec → Bool
is_allowed c =
    not (is_empty c.command && not (is_empty c.args))
    && (is_none c.ports
        && (is_none c.requests
            && (is_none c.limits && (is_none c.liveness_probe && is_none c.readiness_probe))))

abbrev pub all_allowed : List ContainerSpec → Bool
all_allowed [] = true
all_allowed (c ∷ cs) = is_allowed c && all_allowed cs

is_ok-fail_if :
    {B : Type 0} (b : Bool) (e : Error) (next : Result B)
    → is_ok (fail_if b e >> next) ≡ (not b && is_ok next)
is_ok-fail_if true e next = refl
is_ok-fail_if false e next = refl

is_ok-two :
    {A B C : Type 0} (f : A → B → C) (r : Result A) (q : Result B)
    → is_ok (r >>= λ a. q >>= λ b. ok (f a b)) ≡ (is_ok r && is_ok q)
is_ok-two f panics q = refl
is_ok-two f (err e) q = refl
is_ok-two f (ok a) panics = refl
is_ok-two f (ok a) (err e) = refl
is_ok-two f (ok a) (ok b) = refl

and_true : (b : Bool) → (b && true) ≡ b
and_true true = refl
and_true false = refl

is_some-not : {A : Type 0} (o : Option A) → not (is_some o) ≡ is_none o
is_some-not none = refl
is_some-not (some a) = refl

is_ok-init_container : (c : ContainerSpec) → is_ok (init_container c) ≡ is_allowed c
unfolding init_container is_allowed verify_container
is_ok-init_container c =
    rw
      (
        is_ok-fail_if (is_empty c.command && not (is_empty c.args)),
        is_ok-fail_if (is_some c.ports),
        is_ok-fail_if (is_some c.requests),
        is_ok-fail_if (is_some c.limits),
        is_ok-fail_if (is_some c.liveness_probe),
        is_ok-fail_if (is_some c.readiness_probe),
        is_some-not c.ports,
        is_some-not c.requests,
        is_some-not c.limits,
        is_some-not c.liveness_probe,
        is_some-not c.readiness_probe,
      )
      (rw (and_true (is_none c.readiness_probe)) refl)

-- The init containers of a pod are made if all of them are allowed, and refused otherwise.
pub get_init_containers-allowed :
    (cs : List ContainerSpec) → is_ok (get_init_containers cs) ≡ all_allowed cs
unfolding get_init_containers
get_init_containers-allowed [] = refl
get_init_containers-allowed (c ∷ cs) =
    is_ok-two ◌∷◌ (init_container c) (get_init_containers cs)
    ∙ ap (λ b. b && is_ok (get_init_containers cs)) (is_ok-init_container c)
    ∙ ap (λ b. is_allowed c && b) (get_init_containers-allowed cs)
