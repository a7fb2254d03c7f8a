-- ===== src/Metrics/OneEach.antt =====
-- The summary has the statistics of every running pod, once.
use azure_aci.Prelude.{
  String, Option, none, some, List, [], ◌∷◌, ◌≡◌, refl, ◌∙◌, sym, subst, Error, ok, panics,
  Bool-cases, inl, inr, map, ap, OnOk,
}
use mathlib.Core.List.{Perm}
use mathlib.Core.List.Perm
use azure_aci.Prelude.Io.{Io, ◌>>=◌, Answer, returned, failed_with}
use azure_aci.Prelude.Triples.{
  OnReturned, Ensures, Ensures-pure, Ensures-raise, Ensures-lift, Ensures->>=, Ensures-attempt,
}
use azure_aci.Metrics.{PodReport, MeasuredPod}
use azure_aci.Metrics.Getters.{Metering}
use azure_aci.Metrics.Owned.{IsOwned, MeteringLaws, OfPod, get_pod_stats-Ensures}
use azure_aci.Metrics.Summary.{
  Summary, Surroundings, Collected, measure, noted, collect, running_pods, get_stats_summary,
  summarize,
}

abbrev pub uid_of : MeasuredPod → String
uid_of p = p.pod.uid

abbrev pub report_uid : PodReport → String
report_uid r = r.uid

-- Without an error there are the statistics of the pods, in the order in which they were measured.
Complete : List MeasuredPod → Collected → Type 0
Complete ps c = c.first_error ≡ none → map report_uid c.reports ≡ map uid_of ps

abbrev Summarized : List MeasuredPod → Summary → Type 0
Summarized ps s = map report_uid s.pods ≡ map uid_of ps

module _ {W : Type 0} (m : Metering W) (laws : MeteringLaws m) (o : Surroundings W) where
  measure-Ensures : (p : MeasuredPod) → Ensures (IsOwned m) (OfPod m laws p) (measure m o p)
  unfolding measure
  measure-Ensures p = record {
    at = λ w h. elim (Bool-cases (o.gives_up p w)) [
      | inl e ↦ rw e (h, tt)
      | inr e ↦ rw e ((get_pod_stats-Ensures m laws p).at w h)
    ];
  }

  noted-Ensures :
      (p : MeasuredPod) (ps : List MeasuredPod) (answer : Answer (Option PodReport))
      (rest : Io W Collected)
      → OnReturned (OfPod m laws p) answer
      → Ensures (IsOwned m) (Complete ps) rest
      → Ensures (IsOwned m) (Complete (p ∷ ps)) (noted m o p answer rest)
  unfolding noted Complete
  noted-Ensures p ps (returned none) rest a r = Ensures-lift panics tt
  noted-Ensures p ps (returned (some report)) rest a r =
      Ensures->>= (Complete ps) _ _ r (λ c complete. Ensures-pure _ (λ fine.
        ap (λ uid. uid ∷ map report_uid c.reports) a
        ∙ ap (λ uids. p.pod.uid ∷ uids) (complete fine)))
  noted-Ensures p ps (failed_with e) rest a r =
      Ensures->>= (Complete ps) _ _ r (λ c complete. Ensures-pure _ (λ fine. cc))

  collect-Ensures : (ps : List MeasuredPod) → Ensures (IsOwned m) (Complete ps) (collect m o ps)
  unfolding collect Complete
  collect-Ensures [] = Ensures-pure _ (λ fine. refl)
  collect-Ensures (p ∷ ps) =
      Ensures->>= (OnReturned (OfPod m laws p)) _ _
        (Ensures-attempt (OfPod m laws p) _ (measure-Ensures p))
        (λ answer a. noted-Ensures p ps answer (collect m o ps) a (collect-Ensures ps))

  summarize-Ensures :
      (ps : List MeasuredPod) (e : Option Error) (reports : List PodReport)
      → (e ≡ none → map report_uid reports ≡ map uid_of ps)
      → Ensures (IsOwned m) (Summarized ps) (summarize m o e reports)
  unfolding summarize
  summarize-Ensures ps (some e) reports complete = Ensures-raise _
  summarize-Ensures ps none reports complete = Ensures-pure _ (complete refl)

  summary-Ensures :
      (ps : List MeasuredPod)
      → Ensures
          (IsOwned m)
          (Summarized ps)
          (collect m o ps >>= λ c. summarize m o c.first_error c.reports)
  unfolding Complete
  summary-Ensures ps =
      Ensures->>= (Complete ps) _ _ (collect-Ensures ps)
        (λ c complete. summarize-Ensures ps c.first_error c.reports complete)

  get_stats_summary-measured :
      (w : W)
      → IsOwned m w
      → OnOk (Summarized (o.schedule (running_pods m o (o.get_pods w)))) (get_stats_summary m o w).0
  unfolding get_stats_summary
  get_stats_summary-measured w own = elim (Bool-cases (o.is_done w)) [
    | inl e ↦ rw e tt
    | inr e ↦ rw e (((summary-Ensures (o.schedule (running_pods m o (o.get_pods w)))).at w own).1)
  ]

  -- If the goroutines run in any order, and every cached entry is that of its pod, then a summary that is
  -- returned has the statistics of each running pod once, and of no other.
  pub get_stats_summary-running :
      ((ps : List MeasuredPod) → Perm (o.schedule ps) ps)
      → (w : W) (s : Summary) → IsOwned m w
      → (get_stats_summary m o w).0 ≡ ok s
      → Perm (map report_uid s.pods) (map uid_of (running_pods m o (o.get_pods w)))
  get_stats_summary-running any_order w s own returned_s =
      let uids =
        subst (OnOk (Summarized (o.schedule (running_pods m o (o.get_pods w))))) returned_s
          (get_stats_summary-measured w own) in
      subst (λ us. Perm us (map uid_of (running_pods m o (o.get_pods w)))) (sym uids)
        (Perm.map uid_of (any_order (running_pods m o (o.get_pods w))))
