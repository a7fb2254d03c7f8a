-- ===== src/Provider/Listing.antt =====
-- The list of the provider's pods, and what the cleanup makes of it.
use azure_aci.Prelude.{
  false, some, List, [], ◌∷◌, ◌≡◌, ◌≢◌, refl, All, arith, ok, panics, Result-cases, inl, inr, ap,
  ◌∙◌,
}
use azure_aci.Prelude.Io.{>>=-ok}
use azure_aci.Azure.{ContainerGroup}
use azure_aci.Validation.{validate_container_group}
use azure_aci.Validation.Checked.{validate_container_group_exact}
use azure_aci.K8s.{Time}
use azure_aci.Status.{tag}
use azure_aci.Tracker.{Reporter, cleanup_dangling_pods}
use azure_aci.Tracker.Cleanup.{cleanup_all-nil, cleanup_dangling_pods_exact}
use azure_aci.Provider.{
  AciProvider, is_pointer_to, recheck, pods_of, get_pods, list_active_pods, notify_pods,
}

module _ {W : Type 0} (p : AciProvider W) where
  -- A group that Azure has listed: the check does not panic on it, and its tag, which the SDK has
  -- decoded into memory of its own, is not the provider's field.
  pub record IsListed (cg : ContainerGroup) : Type 0 where
    pub checkable : validate_container_group (some cg) ≢ panics
    pub own_memory : is_pointer_to p.node_name_address (tag cg "NodeName") ≡ false

  recheck-listed :
      (cg : ContainerGroup)
      → IsListed cg
      → (checked : ContainerGroup) × (recheck p cg ≡ ok checked) × (checked.tags ≡ cg.tags)
  unfolding recheck
  recheck-listed cg h = elim (Result-cases (validate_container_group (some cg))) [
    | inl (checked, e) ↦ (
      checked,
      ground arith,
      ap (λ c. c.tags) ((validate_container_group_exact cg checked).0 e).1,
    )
    | inr (inl (x, e)) ↦ (cg, ground arith, refl)
    | inr (inr e) ↦ absurd (h.checkable e)
  ]

  pods_of_listed :
      (cgs : List ContainerGroup) (w : W) → All IsListed cgs → pods_of p cgs w ≡ (ok [], w)
  unfolding pods_of
  pods_of_listed [] w h = refl
  pods_of_listed (cg ∷ cgs) w h =
      let (checked, e, tags) = recheck-listed cg h.0 in ground (arith, pods_of_listed cgs w h.1)

  -- No pod is ever listed: the tag of a group is compared with the node's name by address.
  pub get_pods_empty :
      (cgs : List ContainerGroup) (w w' : W)
      → p.az_clients.get_container_group_list_result p.resource_group w ≡ (ok (some cgs), w')
      → All IsListed cgs
      → get_pods p w ≡ (ok [], w')
  unfolding get_pods
  get_pods_empty cgs w w' asked listed =
      >>=-ok (p.az_clients.get_container_group_list_result p.resource_group) _ asked
      ∙ pods_of_listed cgs w' listed

  -- So the cleanup of dangling pods deletes nothing, whatever groups Azure lists and whatever pods
  -- Kubernetes knows.
  pub cleanup_deletes_nothing :
      (now : Time) (reporter : Reporter W) (cgs : List ContainerGroup) (w w' : W)
      → p.az_clients.get_container_group_list_result p.resource_group w ≡ (ok (some cgs), w')
      → All IsListed cgs
      → cleanup_dangling_pods (notify_pods p now reporter) w ≡ (ok tt, w')
  unfolding notify_pods list_active_pods
  cleanup_deletes_nothing now reporter cgs w w' asked listed =
      cleanup_dangling_pods_exact (notify_pods p now reporter) [] w w'
        (>>=-ok (get_pods p) _ (get_pods_empty cgs w w' asked listed))
      ∙ cleanup_all-nil (notify_pods p now reporter) w'
