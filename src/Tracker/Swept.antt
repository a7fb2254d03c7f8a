-- ===== src/Tracker/Swept.antt =====
-- What a cleanup does with each of the active pods.
use azure_aci.Prelude.{
  String, Option, some, List, [], ◌∷◌, ◌≡◌, ap, sym, subst, In, inl, inr, Error, Result, ok, err,
  panics, Result-cases, Option-cases,
}
use azure_aci.Prelude.Io.{Io, attempt, ◌>>◌, attempt-ok, >>=-ok}
use azure_aci.K8s.{Pod}
use azure_aci.Tracker.{
  PodIdentifier, PodsTracker, get_pod_from_list, cleanup_one, cleanup_each, cleanup_dangling_pods,
}
use azure_aci.Tracker.Cleanup.{Names, Found, first, later, get_pod_from_list-Found, Found-none}

Found-some :
    {ns name : String} {pods : List Pod} {found : Option Pod} {pod : Pod}
    → Found ns name pods found
    → found ≡ some pod
    → In pod pods × Names pod ns name
Found-some Found.absent e = cc
Found-some (first n) e = (inl cc, (cc, cc))
Found-some (later m f) e = let (i, n) = Found-some f e in (inr i, n)

module _ {W : Type 0} (pt : PodsTracker W) (pods : List Pod) where
  -- The calls for the active pods, one after the other: none for a pod that is among `pods`, by namespace and name;
  -- for any other the call of CleanupPod, after which the next pod's turn comes whether or not the call
  -- failed. A call that panics ends it all.
  pub data Swept : List PodIdentifier → W → Result (Unit {0}) × W → Type 0 where
    finished : (w : W) → Swept [] w (ok tt, w)
    spared :
        {active : PodIdentifier} {rest : List PodIdentifier} {w : W} {out : Result (Unit {0}) × W}
        (pod : Pod)
        → In pod pods
        → Names pod active.namespace active.name
        → Swept rest w out
        → Swept (active ∷ rest) w out
    deleted :
        {active : PodIdentifier} {rest : List PodIdentifier} {w : W} {out : Result (Unit {0}) × W}
        (w' : W)
        → ((pod : Pod) → In pod pods → ¬ Names pod active.namespace active.name)
        → pt.handler.cleanup_pod active.namespace active.name w ≡ (ok tt, w')
        → Swept rest w' out
        → Swept (active ∷ rest) w out
    refused :
        {active : PodIdentifier} {rest : List PodIdentifier} {w : W} {out : Result (Unit {0}) × W}
        (e : Error) (w' : W)
        → ((pod : Pod) → In pod pods → ¬ Names pod active.namespace active.name)
        → pt.handler.cleanup_pod active.namespace active.name w ≡ (err e, w')
        → Swept rest w' out
        → Swept (active ∷ rest) w out
    broken :
        {active : PodIdentifier} {rest : List PodIdentifier} {w : W} (w' : W)
        → ((pod : Pod) → In pod pods → ¬ Names pod active.namespace active.name)
        → pt.handler.cleanup_pod active.namespace active.name w ≡ (panics, w')
        → Swept (active ∷ rest) w (panics, w')

  cleanup_one-Swept :
      (active : PodIdentifier) (rest : List PodIdentifier) (w : W) (next : Io W (Unit {0}))
      → ((pod : Pod) → In pod pods → ¬ Names pod active.namespace active.name)
      → ((w' : W) → Swept rest w' (next w'))
      → Swept (active ∷ rest) w ((cleanup_one pt active >> next) w)
  unfolding cleanup_one
  cleanup_one-Swept active rest w next absent after =
      let m : Io W (Unit {0}) = pt.handler.cleanup_pod active.namespace active.name in
      let at : (r : Result (Unit {0})) → (m w).0 ≡ r → m w ≡ (r, (m w).1) =
        λ r e. ap (λ r. (r, (m w).1)) e in
      elim (Result-cases (m w).0) [
        | inl (u, e) ↦ rw e (deleted (m w).1 absent (at (ok u) e) (after (m w).1))
        | inr (inl (error, e)) ↦
            rw e (refused error (m w).1 absent (at (err error) e) (after (m w).1))
        | inr (inr e) ↦ rw e (broken (m w).1 absent (at panics e))
      ]

  cleanup_each-Swept :
      (actives : List PodIdentifier) (w : W) → Swept actives w (cleanup_each pt pods actives w)
  unfolding cleanup_each
  cleanup_each-Swept [] w = finished w
  cleanup_each-Swept (active ∷ rest) w =
      let found = get_pod_from_list-Found pods active.namespace active.name in
      elim (Option-cases (get_pod_from_list pods active.namespace active.name)) [
        | inl e ↦ rw e (
            cleanup_one-Swept active rest w (cleanup_each pt pods rest) (Found-none found e)
              (cleanup_each-Swept rest))
        | inr (pod, e) ↦
            let (among, named) = Found-some found e in
            rw e (spared pod among named (cleanup_each-Swept rest w))
      ]

-- If the active pods are listed, the cleanup goes through them in order: of a pod that Kubernetes knows by
-- namespace and name it asks nothing, and for any other it calls CleanupPod, and goes on after a failure.
pub cleanup_dangling_pods-Swept :
    {W : Type 0} (pt : PodsTracker W) (actives : List PodIdentifier) (w w' : W)
    → pt.handler.list_active_pods w ≡ (ok actives, w')
    → Swept pt (pt.get_pods w) actives w' (cleanup_dangling_pods pt w)
unfolding cleanup_dangling_pods
cleanup_dangling_pods-Swept pt actives w w' h =
    subst (Swept pt (pt.get_pods w) actives w')
      (sym
        (>>=-ok (attempt pt.handler.list_active_pods) _ (attempt-ok pt.handler.list_active_pods h)))
      (cleanup_each-Swept pt (pt.get_pods w) actives w')
