-- ===== src/Create/Sent.antt =====
-- What a call of CreatePod that succeeds has asked Azure for.
use azure_aci.Prelude.{
  String, not, ◌==◌, Option, is_some, ◌≡◌, sym, ap, ◌∙◌, Result, ok, err, panics, Result,
  ok-injective, arith,
}
use azure_aci.Prelude.Io
use azure_aci.Prelude.Io.{Io, lift, ◌>>=◌}
use azure_aci.Create.Shared.{Diagnostics, shared_diagnostics}
use azure_aci.Create.{
  kept_diagnostics, NewPod, NewGroup, Creator, Parts, parts_of, plain_group, amend_vnet_resources,
  group_of, get_diagnostics, create_pod,
}
use azure_aci.Create.Described.{
  PartsOf, Describes, parts_of-PartsOf, group_of-Describes, group_of-in_subnet,
}

module _ {W : Type 0} (c : Creator W) where
  -- What CreatePod asked Azure for, when it succeeds from the world `w`.
  pub record SentFor (p : NewPod) (w w' : W) : Type 0 where
    pub parts : Parts
    pub diagnostics : Option Diagnostics
    pub group : NewGroup
    pub of_pod : PartsOf c p parts
    pub describes : Describes c p parts group
    pub in_subnet : is_some group.subnet_ids ≡ not (c.subnet_name == "")
    pub shared : shared_diagnostics p.pod.uid (c.diagnostics w) ≡ ok diagnostics
    pub carried : group.diagnostics ≡ diagnostics
    pub created :
        c.create_container_group c.resource_group p.pod.namespace p.pod.name group
          (c.set_diagnostics diagnostics w)
        ≡ (ok tt, w')

  group_of-diagnostics :
      (p : NewPod) (parts : Parts) (d : Option Diagnostics) → (group_of c p parts d).diagnostics ≡ d
  unfolding group_of amend_vnet_resources plain_group
  group_of-diagnostics p parts d = ground arith

  kept_diagnostics-eq :
      (r : Result (Option Diagnostics)) (w w1 : W) (d : Option Diagnostics)
      → kept_diagnostics c r w ≡ (ok d, w1)
      → (r ≡ ok d) × (c.set_diagnostics d w ≡ w1)
  unfolding kept_diagnostics
  kept_diagnostics-eq (ok d1) w w1 d h =
      let same = ok-injective _ _ (ap (λ x. x.0) h) in
      (ap ok same, ap (λ d. c.set_diagnostics d w) (sym same) ∙ ap (λ x. x.1) h)
  kept_diagnostics-eq (err e) w w1 d h = cc
  kept_diagnostics-eq panics w w1 d h = cc

  get_diagnostics-eq :
      (uid : String) (w w1 : W) (d : Option Diagnostics)
      → get_diagnostics c uid w ≡ (ok d, w1)
      → (shared_diagnostics uid (c.diagnostics w) ≡ ok d) × (c.set_diagnostics d w ≡ w1)
  unfolding get_diagnostics
  get_diagnostics-eq uid w w1 d h = kept_diagnostics-eq _ w w1 d h

  sent_with :
      (p : NewPod) (w w' : W) (parts : Parts)
      → PartsOf c p parts
      → (get_diagnostics c p.pod.uid >>= λ d.
            c.create_container_group c.resource_group p.pod.namespace p.pod.name
              (group_of c p parts d))
          w
        ≡ (ok tt, w')
      → SentFor p w w'
  sent_with p w w' parts of_pod h =
      let (d, w1, at_d, h1) = Io.>>=-eq-ok (get_diagnostics c p.pod.uid) _ w h in
      let (shared, stored) = get_diagnostics-eq p.pod.uid w w1 d at_d in
      record {
        parts = parts;
        diagnostics = d;
        group = group_of c p parts d;
        of_pod = of_pod;
        describes = group_of-Describes c p parts d;
        in_subnet = group_of-in_subnet c p parts d;
        shared = shared;
        carried = group_of-diagnostics p parts d;
        created = rw stored h1;
      }

  -- When CreatePod succeeds, there are parts of the pod (a built container for each container, the
  -- credentials of its pull secrets, its volumes converted) and none of its init containers has a port or a probe,
  -- and the call for the resource group, the namespace and the name of the pod had a group that describes
  -- the pod: its containers, the other parts, the tags that reading the pod relies on, a subnet if and only
  -- if the provider has one, and a public address if and only if it has none and a container has ports, with
  -- the ports of all containers. The group carries the diagnostics that share the map of the provider's, as stored before the call.
  pub create_pod-SentFor : (p : NewPod) (w w' : W) → create_pod c p w ≡ (ok tt, w') → SentFor p w w'
  unfolding create_pod
  create_pod-SentFor p w w' h =
      let (parts, at_parts, h1) = Io.lift->>=-eq-ok (parts_of c p) _ w h in
      sent_with p w w' parts (parts_of-PartsOf c p parts at_parts) h1
