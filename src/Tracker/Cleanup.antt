-- ===== src/Tracker/Cleanup.antt =====
-- The cleanup of dangling pods, and updates posted by name.
use azure_aci.Prelude.{
  String, Bool, Option, none, some, List, [], ◌∷◌, ◌&&◌, ◌==◌, ◌≡◌, refl, ap, arith, In, inl, inr,
  eq_iff, keep, is_none, Error, not_found, Result, ok, err, if◌then◌else◌, ◌∙◌, Bool-cases,
  Option-cases,
}
use azure_aci.Prelude.Io.{
  Io, Answer, returned, failed_with, attempt, pure, ◌>>◌, attempt-ok, attempt-err, >>=-ok, Keeps,
  Keeps-pure, Keeps-attempt, Keeps->>=, Keeps->>,
}
use azure_aci.K8s.{Pod, PodStatus}
use azure_aci.Tracker.{
  PodIdentifier, Reporter, PodsTracker, get_pod_from_list, cleanup_one, cleanup_each,
  cleanup_listed, cleanup_dangling_pods, update_pod_status,
}

abbrev pub Names : Pod → String → String → Type 0
Names pod ns name = (pod.namespace ≡ ns) × (pod.name ≡ name)

-- The first pod of that name is found, and nothing is found exactly when no pod has it.
pub data Found (ns name : String) : List Pod → Option Pod → Type 0 where
  absent : Found ns name [] none
  first : {pod : Pod} {pods : List Pod} → Names pod ns name → Found ns name (pod ∷ pods) (some pod)
  later :
      {pod : Pod} {pods : List Pod} {found : Option Pod}
      → ¬ Names pod ns name
      → Found ns name pods found
      → Found ns name (pod ∷ pods) found

-- Looking a pod up by namespace and name finds the first pod of the list that has both, and finds
-- nothing only if no pod of the list has both.
pub get_pod_from_list-Found :
    (pods : List Pod) (ns name : String) → Found ns name pods (get_pod_from_list pods ns name)
unfolding get_pod_from_list
get_pod_from_list-Found [] ns name = absent
get_pod_from_list-Found (pod ∷ pods) ns name =
    elim (Bool-cases (pod.namespace == ns && pod.name == name)) [
      | inl e ↦ rw e (first (ground (arith, eq_iff pod.namespace ns, eq_iff pod.name name)))
      | inr e ↦ rw e (
          later (λ h. ground (arith, eq_iff pod.namespace ns, eq_iff pod.name name))
            (get_pod_from_list-Found pods ns name))
    ]

pub Found-none :
    {ns name : String} {pods : List Pod} {found : Option Pod}
    → Found ns name pods found
    → found ≡ none
    → (pod : Pod) → In pod pods
    → ¬ Names pod ns name
Found-none absent e pod i h = i
Found-none (first n) e pod i h = cc
Found-none (later m f) e pod (inl p) h = m (rw (← p) h)
Found-none (later m f) e pod (inr i) h = Found-none f e pod i h

-- Active in Azure, and unknown to Kubernetes.
abbrev pub is_dangling : List Pod → PodIdentifier → Bool
is_dangling pods active = is_none (get_pod_from_list pods active.namespace active.name)

module _ {W : Type 0} (pt : PodsTracker W) where
  -- Clean up each of these in order, whatever the calls return.
  pub cleanup_all : List PodIdentifier → Io W (Unit {0})
  cleanup_all [] = pure tt
  cleanup_all (active ∷ rest) = do cleanup_one pt active; cleanup_all rest

  pub cleanup_all-nil : (w : W) → cleanup_all [] w ≡ (ok tt, w)
  unfolding cleanup_all
  cleanup_all-nil w = refl

  cleanup_each-dangling :
      (pods : List Pod) (actives : List PodIdentifier)
      → cleanup_each pt pods actives ≡ cleanup_all (keep (is_dangling pods) actives)
  unfolding cleanup_each cleanup_all
  cleanup_each-dangling pods [] = refl
  cleanup_each-dangling pods (active ∷ rest) =
      elim (Option-cases (get_pod_from_list pods active.namespace active.name)) [
        | inl e ↦ rw (e, cleanup_each-dangling pods rest)
        | inr (pod, e) ↦ rw (e, cleanup_each-dangling pods rest)
      ]

  -- The cleanup asks Azure to delete, in the order of the list of active pods, exactly those that
  -- Kubernetes does not know, and goes on after a failed deletion.
  pub cleanup_dangling_pods_exact :
      (actives : List PodIdentifier) (w w' : W)
      → pt.handler.list_active_pods w ≡ (ok actives, w')
      → cleanup_dangling_pods pt w ≡ cleanup_all (keep (is_dangling (pt.get_pods w)) actives) w'
  unfolding cleanup_dangling_pods
  cleanup_dangling_pods_exact actives w w' h =
      >>=-ok (attempt pt.handler.list_active_pods) _ (attempt-ok pt.handler.list_active_pods h)
      ∙ ap (λ m. m w') (cleanup_each-dangling (pt.get_pods w) actives)

  -- Where the list of active pods cannot be had, nothing is deleted.
  cleanup_dangling_pods_unlisted :
      (e : Error) (w w' : W)
      → pt.handler.list_active_pods w ≡ (err e, w')
      → cleanup_dangling_pods pt w ≡ (ok tt, w')
  unfolding cleanup_dangling_pods
  cleanup_dangling_pods_unlisted e w w' h =
      >>=-ok (attempt pt.handler.list_active_pods) _ (attempt-err pt.handler.list_active_pods h)

module _ {W : Type 0} (pt : PodsTracker W) (Inv : W → Type 0) where
  -- The deletion of a pod that is not in the list keeps the invariant.
  pub record SparesKnown (pods : List Pod) : Type 0 where
    pub listing : Keeps Inv pt.handler.list_active_pods
    pub deletion :
        (active : PodIdentifier)
        → ((pod : Pod) → In pod pods → ¬ Names pod active.namespace active.name)
        → Keeps Inv (pt.handler.cleanup_pod active.namespace active.name)

  cleanup_one-Keeps :
      (active : PodIdentifier)
      → Keeps Inv (pt.handler.cleanup_pod active.namespace active.name)
      → Keeps Inv (cleanup_one pt active)
  unfolding cleanup_one
  cleanup_one-Keeps active k = Keeps->>= _ _ (Keeps-attempt _ k) (λ _. Keeps-pure tt)

  cleanup_each-Keeps :
      (pods : List Pod) (actives : List PodIdentifier)
      → SparesKnown pods
      → Keeps Inv (cleanup_each pt pods actives)
  unfolding cleanup_each
  cleanup_each-Keeps pods [] spares = Keeps-pure tt
  cleanup_each-Keeps pods (active ∷ rest) spares =
      let found = get_pod_from_list-Found pods active.namespace active.name in
      elim (Option-cases (get_pod_from_list pods active.namespace active.name)) [
        | inl e ↦ rw e (
            Keeps->> _ _ (cleanup_one-Keeps active (spares.deletion active (Found-none found e)))
              (cleanup_each-Keeps pods rest spares))
        | inr (pod, e) ↦ rw e (Keeps->> _ _ (Keeps-pure tt) (cleanup_each-Keeps pods rest spares))
      ]

  cleanup_listed-Keeps :
      (pods : List Pod) (answer : Answer (List PodIdentifier))
      → SparesKnown pods
      → Keeps Inv (cleanup_listed pt pods answer)
  unfolding cleanup_listed
  cleanup_listed-Keeps pods (returned actives) spares = cleanup_each-Keeps pods actives spares
  cleanup_listed-Keeps pods (failed_with e) spares = Keeps-pure tt

  -- Whatever is kept by listing the active pods, and by deleting any pod that Kubernetes does not
  -- know, is kept by a cleanup, also when it fails half-way: no pod that Kubernetes knows is
  -- deleted.
  pub cleanup_dangling_pods_spares :
      (w : W) → SparesKnown (pt.get_pods w) → Inv w → Inv (cleanup_dangling_pods pt w).1
  unfolding cleanup_dangling_pods
  cleanup_dangling_pods_spares w spares h =
      (Keeps->>= _ _ (Keeps-attempt _ spares.listing)
          (λ answer. cleanup_listed-Keeps (pt.get_pods w) answer spares)).at
        w h

-- Posting an update by name tells the API server of one pod, the first of that name, with the
-- changed status, and with the resource version cleared if the update is forced; where there is no
-- such pod it fails with "not found" and tells it nothing.
pub data Posted {W : Type 0} (rep : Reporter W) (update : PodStatus → PodStatus) (force : Bool)
    (ns name : String) (w : W) : Result (Unit {0}) × W → Type 0 where
  posted :
      (pod : Pod)
      → Found ns name (rep.get_pods w) (some pod)
      → Posted rep update force ns name w (
        ok tt,
        rep.update_cb
            (record pod {
              status = update pod.status;
              resource_version = if force then "" else pod.resource_version;
            })
            w,
      )
  unknown :
      ((pod : Pod) → In pod (rep.get_pods w) → ¬ Names pod ns name)
      → Posted rep update force ns name w (err (not_found "pod not found"), w)

pub update_pod_status-Posted :
    {W : Type 0} (rep : Reporter W) (update : PodStatus → PodStatus) (force : Bool)
    (ns name : String) (w : W)
    → Posted rep update force ns name w (update_pod_status rep ns name update force w)
unfolding update_pod_status
update_pod_status-Posted rep update force ns name w =
    let found = get_pod_from_list-Found (rep.get_pods w) ns name in
    elim (Option-cases (get_pod_from_list (rep.get_pods w) ns name)) [
      | inl e ↦ rw e (unknown (Found-none found e))
      | inr (pod, e) ↦ rw e (posted pod (rw e at found))
    ]
