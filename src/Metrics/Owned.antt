-- ===== src/Metrics/Owned.antt =====
-- The statistics that are returned for a pod are those of this pod, whichever cache they come from.
use azure_aci.Prelude.{
  String, Bool, true, false, Option, none, some, ◌≡◌, refl, ◌∙◌, sym, subst, ◌⊎◌, inl, inr, ap,
  OnOk, OnOk-two, OnOk-trivial,
}
use azure_aci.Prelude.Io.{Answer, returned, failed_with, act}
use azure_aci.Prelude.Triples.{
  OnReturned, Ensures, Ensures-pure, Ensures-raise, Ensures-lift, Ensures->>=, Ensures-attempt,
  Ensures-of_Keeps, Ensures-if,
}
use azure_aci.K8s.{Pod}
use azure_aci.Tracker.{is_running}
use azure_aci.Metrics.{
  ExtensionPodStats, PodReport, MeasuredPod, extension_pod_stats_to_kubelet_pod_stats,
}
use azure_aci.Metrics.Usage.{populate_from, calculate_usage_nano_cores, populate_containers}
use azure_aci.Metrics.Getters.{
  ContainerGroupWrapper, Metering, wrapped_answer, uses_real_time,
  get_real_time_extension_pod_stats, populate_usage_nanocores, get_real_time_pod_stats,
  from_stats_cache, get_cached_pod_stats, from_cg_cache, get_container_group_from_pod, decided,
  get_pod_stats,
}

-- Every entry of the cache of statistics stands under the UID of its pod.
unfoldable pub IsOwned : {W : Type 0} → Metering W → W → Type 0
IsOwned m w = (uid : String) (r : PodReport) → m.stats_cache.get uid w ≡ some r → r.uid ≡ uid

-- The caches do not share entries, an entry that is found was set, and what Azure and the extension are
-- asked leaves the cache of statistics alone.
pub record MeteringLaws {W : Type 0} (m : Metering W) : Type 0 where
  pub stats_set :
      (k j : String) (v x : PodReport) (w : W)
      → m.stats_cache.get j (m.stats_cache.set k v w) ≡ some x
      → ((j ≡ k) × (x ≡ v)) ⊎ (m.stats_cache.get j w ≡ some x)
  pub cg_set :
      (k j : String) (v : ContainerGroupWrapper) (w : W)
      → m.stats_cache.get j (m.cg_cache.set k v w) ≡ m.stats_cache.get j w
  pub cpu_set :
      (k j : String) (v : ExtensionPodStats) (w : W)
      → m.stats_cache.get j (m.cpu_stats_cache.set k v w) ≡ m.stats_cache.get j w
  pub asked :
      (j rg name : String) (w : W)
      → m.stats_cache.get j (m.get_container_group rg name w).1 ≡ m.stats_cache.get j w
  pub fetched :
      (j url : String) (w : W) → m.stats_cache.get j (m.fetch url w).1 ≡ m.stats_cache.get j w

extension_pod_stats-uid :
    (pod : Pod) (s : ExtensionPodStats)
    → (extension_pod_stats_to_kubelet_pod_stats pod s).uid ≡ pod.uid
unfolding extension_pod_stats_to_kubelet_pod_stats
extension_pod_stats-uid pod s = refl

-- Filling in the usage does not change whose statistics they are.
populate_from-uid :
    (last : Option ExtensionPodStats) (s : ExtensionPodStats) (report : PodReport)
    → OnOk (λ r. r.uid ≡ report.uid) (populate_from last s report)
unfolding populate_from
populate_from-uid none s report = refl
populate_from-uid (some last) s report =
    OnOk-two _ _ (calculate_usage_nano_cores none (some last) (some s))
      (populate_containers last s report.containers) (λ usage containers. refl)

module _ {W : Type 0} (m : Metering W) (laws : MeteringLaws m) where
  unchanged-IsOwned :
      (w w' : W)
      → ((j : String) → m.stats_cache.get j w' ≡ m.stats_cache.get j w)
      → IsOwned m w
      → IsOwned m w'
  unfolding IsOwned
  unchanged-IsOwned w w' same h uid r found = h uid r (sym (same uid) ∙ found)

  set-IsOwned :
      (k : String) (v : PodReport) (w : W)
      → v.uid ≡ k
      → IsOwned m w
      → IsOwned m (m.stats_cache.set k v w)
  unfolding IsOwned
  set-IsOwned k v w own h uid r found = elim (laws.stats_set k uid v r w found) [
    | inl new ↦ ap (λ (x : PodReport). x.uid) new.1 ∙ own ∙ sym new.0
    | inr old ↦ h uid r old
  ]

  Ensures-wrapped_answer :
      {A : Type 0} {P : A → Type 0} (text : String) (answer : Answer A)
      → OnReturned P answer
      → Ensures (IsOwned m) P (wrapped_answer text answer)
  Ensures-wrapped_answer text (returned a) p = Ensures-pure a p
  Ensures-wrapped_answer text (failed_with e) p = Ensures-raise _

  extension-Ensures :
      (p : MeasuredPod) → Ensures (IsOwned m) (λ _. Unit) (get_real_time_extension_pod_stats m p)
  unfolding get_real_time_extension_pod_stats
  extension-Ensures p =
      Ensures-if (is_running p.pod.status.phase) _ _
        (Ensures->>= (λ _. Unit) (m.fetch _) _
          (Ensures-of_Keeps (m.fetch _) (record {
            at = λ w h. unchanged-IsOwned w (m.fetch _ w).1 (λ j. laws.fetched j _ w) h;
          }))
          (λ s u. Ensures-pure _ tt))
        (Ensures-raise _)

  populate-Ensures :
      (pod : Pod) (s : ExtensionPodStats) (report : PodReport)
      → report.uid ≡ pod.uid
      → Ensures (IsOwned m) (λ r. r.uid ≡ pod.uid) (populate_usage_nanocores m pod s report)
  unfolding populate_usage_nanocores
  populate-Ensures pod s report e = record {
    at = λ w h. (
      unchanged-IsOwned w _ (λ j. laws.cpu_set pod.uid j s w) h,
      subst
          (λ (uid : String).
            OnOk (λ r. r.uid ≡ uid) (populate_from (m.cpu_stats_cache.get pod.uid w) s report))
          e (populate_from-uid (m.cpu_stats_cache.get pod.uid w) s report),
    );
  }

  real_time-Ensures :
      (p : MeasuredPod) → Ensures (IsOwned m) (λ r. r.uid ≡ p.pod.uid) (get_real_time_pod_stats m p)
  unfolding get_real_time_pod_stats
  real_time-Ensures p =
      Ensures->>= (OnReturned (λ _. Unit)) _ _ (Ensures-attempt (λ _. Unit) _ (extension-Ensures p))
        (λ answer a.
          Ensures->>= (λ _. Unit) _ _ (Ensures-wrapped_answer _ answer a)
            (λ s u.
              populate-Ensures p.pod s (extension_pod_stats_to_kubelet_pod_stats p.pod s)
                (extension_pod_stats-uid p.pod s)))

  act_set-Ensures :
      (k : String) (v : PodReport)
      → v.uid ≡ k
      → Ensures (IsOwned m) (λ _. Unit) (act (m.stats_cache.set k v))
  act_set-Ensures k v e = record { at = λ w h. (set-IsOwned k v w e h, tt) }

  act_cg-Ensures :
      (k : String) (cg : ContainerGroupWrapper)
      → Ensures (IsOwned m) (λ _. Unit) (act (m.cg_cache.set k cg))
  act_cg-Ensures k cg = record {
    at = λ w h. (unchanged-IsOwned w _ (λ j. laws.cg_set k j cg w) h, tt);
  }

  from_stats_cache-Ensures :
      (p : MeasuredPod) (found : Option PodReport)
      → ((r : PodReport) → found ≡ some r → r.uid ≡ p.pod.uid)
      → Ensures (IsOwned m) (λ r. r.uid ≡ p.pod.uid) (from_stats_cache m p found)
  unfolding from_stats_cache
  from_stats_cache-Ensures p (some report) h = Ensures-pure report (h report refl)
  from_stats_cache-Ensures p none h =
      Ensures->>= (λ r. r.uid ≡ p.pod.uid) _ _ (real_time-Ensures p)
        (λ report e.
          Ensures->>= (λ _. Unit) _ _ (act_set-Ensures p.pod.uid report e)
            (λ u t. Ensures-pure report e))

  cached-Ensures :
      (p : MeasuredPod) → Ensures (IsOwned m) (λ r. r.uid ≡ p.pod.uid) (get_cached_pod_stats m p)
  unfolding get_cached_pod_stats IsOwned
  cached-Ensures p = record {
    at = λ w h. (from_stats_cache-Ensures p (m.stats_cache.get p.pod.uid w) (h p.pod.uid)).at w h;
  }

  from_cg_cache-Ensures :
      (pod : Pod) (found : Option ContainerGroupWrapper)
      → Ensures (IsOwned m) (λ _. Unit) (from_cg_cache m pod found)
  unfolding from_cg_cache
  from_cg_cache-Ensures pod (some cg) = Ensures-pure cg tt
  from_cg_cache-Ensures pod none =
      Ensures->>= (OnReturned (λ _. Unit)) _ _
        (Ensures-attempt (λ _. Unit) _
          (Ensures-of_Keeps (m.get_container_group m.rg_name _)
            (record { at = λ w h. unchanged-IsOwned w _ (λ j. laws.asked j m.rg_name _ w) h })))
        (λ answer a.
          Ensures->>= (λ _. Unit) _ _ (Ensures-wrapped_answer _ answer a)
            (λ cg u.
              Ensures->>= (λ _. Unit) _ _ (act_cg-Ensures pod.uid cg) (λ u t. Ensures-pure cg tt)))

  from_pod-Ensures :
      (pod : Pod) → Ensures (IsOwned m) (λ _. Unit) (get_container_group_from_pod m pod)
  unfolding get_container_group_from_pod
  from_pod-Ensures pod = record {
    at = λ w h. (from_cg_cache-Ensures pod (m.cg_cache.get pod.uid w)).at w h;
  }

  -- No statistics, or those of the pod.
  abbrev pub OfPod : MeasuredPod → Option PodReport → Type 0
  OfPod p none = Unit
  OfPod p (some r) = r.uid ≡ p.pod.uid

  decided-Ensures : (p : MeasuredPod) (b : Bool) → Ensures (IsOwned m) (OfPod p) (decided m p b)
  unfolding decided
  decided-Ensures p true =
      Ensures->>= (λ r. r.uid ≡ p.pod.uid) _ _ (cached-Ensures p) (λ r e. Ensures-pure (some r) e)
  decided-Ensures p false = Ensures-pure none tt

  pub get_pod_stats-Ensures : (p : MeasuredPod) → Ensures (IsOwned m) (OfPod p) (get_pod_stats m p)
  unfolding get_pod_stats
  get_pod_stats-Ensures p =
      Ensures->>= (OnReturned (λ _. Unit)) _ _
        (Ensures-attempt (λ _. Unit) _ (from_pod-Ensures p.pod))
        (λ answer a.
          Ensures->>= (λ _. Unit) _ _ (Ensures-wrapped_answer _ answer a)
            (λ cg u.
              Ensures->>= (λ _. Unit) _ _
                (Ensures-lift (uses_real_time cg) (OnOk-trivial (uses_real_time cg)))
                (λ b t. decided-Ensures p b)))
