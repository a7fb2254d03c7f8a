-- ===== src/Tracker/Loop.antt =====
-- The loop of StartTracking, over the signals that its `select` receives.
use azure_aci.Prelude.{
  ◌≡◌, refl, List, [], ◌∷◌, ◌++◌, Bool, true, false, Option, Bool-cases, inl, inr,
}
use azure_aci.Prelude.Io.{
  Answer, Keeps, Keeps-pure, Keeps-attempt, Keeps->>, Keeps-map->>=, attempt, act,
}
use azure_aci.K8s.{Time, Pod, PodStatus}
use azure_aci.Tracker.{
  PodsTracker, Signal, done, status_updates, cleanup, should_skip_pod_status_update,
  process_pod_updates, report, update_one, update_each, update_pods_loop, start_tracking,
  apply_fetched,
}
use azure_aci.Tracker.Cleanup.{SparesKnown, cleanup_dangling_pods_spares}
use azure_aci.Tracker.Outcome.{Processed, apply_fetched-Processed}

module _ {W : Type 0} (pt : PodsTracker W) where
  -- Once the context is done the loop has returned: no signal after it is served.
  pub start_tracking_done :
      (before after : List Signal)
      → start_tracking pt (before ++ done ∷ after) ≡ start_tracking pt before
  unfolding start_tracking
  start_tracking_done [] after = refl
  start_tracking_done (done ∷ before) after = refl
  start_tracking_done (status_updates now ∷ before) after = rw (start_tracking_done before after)
  start_tracking_done (cleanup ∷ before) after = rw (start_tracking_done before after)

module _ {W : Type 0} (pt : PodsTracker W) (Inv : W → Type 0) where
  -- What the world must keep: asking for a pod's status, reporting a pod that was due and was
  -- refreshed or lost, and the calls of a cleanup.
  pub record Serves : Type 0 where
    pub asking : (pod : Pod) → Keeps Inv (pt.handler.fetch_pod_status pod.namespace pod.name)
    pub reporting :
        (now : Time) (pod p : Pod) (answer : Answer (Option PodStatus))
        → should_skip_pod_status_update pod ≡ false
        → Processed now pod answer (p, true)
        → Keeps Inv (act (pt.update_cb p))
    pub cleaning : (w : W) → SparesKnown pt Inv (pt.get_pods w)

  report-Keeps :
      (now : Time) (pod : Pod) (answer : Answer (Option PodStatus)) (out : Pod × Bool)
      → Serves
      → should_skip_pod_status_update pod ≡ false
      → Processed now pod answer out
      → Keeps Inv (report pt out)
  unfolding report
  report-Keeps now pod answer (p, true) s due h = s.reporting now pod p answer due h
  report-Keeps now pod answer (p, false) s due h = Keeps-pure tt

  unreported-Keeps : (pod : Pod) → Keeps Inv (report pt (pod, false))
  unfolding report
  unreported-Keeps pod = Keeps-pure tt

  update_one-Keeps : (now : Time) (pod : Pod) → Serves → Keeps Inv (update_one pt now pod)
  unfolding update_one process_pod_updates
  update_one-Keeps now pod s = elim (Bool-cases (should_skip_pod_status_update pod)) [
    | inl skip ↦ rw skip (unreported-Keeps pod)
    | inr due ↦ rw due (
        Keeps-map->>= (attempt (pt.handler.fetch_pod_status pod.namespace pod.name))
          (apply_fetched now pod) (report pt) (Keeps-attempt _ (s.asking pod))
          (λ answer. report-Keeps now pod answer _ s due (apply_fetched-Processed now pod answer)))
  ]

  update_each-Keeps : (now : Time) (pods : List Pod) → Serves → Keeps Inv (update_each pt now pods)
  unfolding update_each
  update_each-Keeps now [] s = Keeps-pure tt
  update_each-Keeps now (pod ∷ pods) s =
      Keeps->> _ _ (update_one-Keeps now pod s) (update_each-Keeps now pods s)

  -- An invariant of the world that is kept by asking for a pod's status, by reporting a pod that
  -- was due and was refreshed or lost, and by deleting pods that Kubernetes does not know, holds
  -- after any sequence of signals, whatever the calls return.
  pub start_tracking-Keeps :
      (signals : List Signal) → Serves → Keeps Inv (start_tracking pt signals)
  unfolding start_tracking update_pods_loop
  start_tracking-Keeps [] s = Keeps-pure tt
  start_tracking-Keeps (done ∷ rest) s = Keeps-pure tt
  start_tracking-Keeps (status_updates now ∷ rest) s =
      Keeps->> _ _ (record { at = λ w. (update_each-Keeps now (pt.get_pods w) s).at w })
        (start_tracking-Keeps rest s)
  start_tracking-Keeps (cleanup ∷ rest) s =
      Keeps->> _ _ (record { at = λ w. cleanup_dangling_pods_spares pt Inv w (s.cleaning w) })
        (start_tracking-Keeps rest s)
