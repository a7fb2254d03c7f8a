-- ===== src/Old/Listed.antt =====
-- What GetPods of the old provider lists.
use azure_aci.Prelude.{
  ℕ, String, ◌==◌, ◌<>◌, ◌≡◌, refl, ap, ◌∙◌, sym, subst, Bool, true, false, ◌≢◌, ◌⊎◌, inl, inr,
  if◌then◌else◌, Option, none, some, List, [], ◌∷◌, keep, Error, Result, ok, err, panics,
  ok-injective, deref,
}
use azure_aci.Prelude
use azure_aci.Prelude.Io.{Io, attempt, lift, pure, returned, failed_with, ◌>>=◌, >>=-eq-ok}
use azure_aci.K8s.{Pod}
use azure_aci.Status.{Outside}
use azure_aci.Old.{
  RestContainer, RestGroup, rest_tag, rest_pod_status, rest_group_to_pod, resources_of, limits_of,
  ComputeResources, amounts, gpu_amount,
}
use azure_aci.Old.Reading.{OldProvider, rest_pods_of, get_rest_pods}

-- The pods are made from the groups, one from each, in their order.
abbrev pub AllConverted : (String → Option ℕ) → Outside → List RestGroup → List Pod → Type 0
AllConverted parse out [] [] = Unit
AllConverted parse out (cg ∷ cgs) (pod ∷ pods) =
    (rest_group_to_pod parse out cg ≡ ok pod) × AllConverted parse out cgs pods
AllConverted parse out [] (pod ∷ pods) = ⊥
AllConverted parse out (cg ∷ cgs) [] = ⊥

>>=-ne-err :
    {A B : Type 0} (r : Result A) (next : A → Result B) (e : Error)
    → r ≢ err e
    → ((a : A) → next a ≢ err e)
    → Prelude.◌>>=◌ r next ≢ err e
>>=-ne-err panics next e first rest h = cc
>>=-ne-err (err d) next e first rest h = first cc
>>=-ne-err (ok a) next e first rest h = rest a h

deref-ne-err : {A : Type 0} (o : Option A) (e : Error) → deref o ≢ err e
deref-ne-err none e g = cc
deref-ne-err (some a) e g = cc

module _ (parse : String → Option ℕ) where
  gpu_amount-ne-err : (own gpus : Option String) (e : Error) → gpu_amount parse own gpus ≢ err e
  gpu_amount-ne-err none gpus e h = cc
  gpu_amount-ne-err (some own) gpus e h =
      >>=-ne-err (deref gpus) _ e (deref-ne-err gpus e)
        (λ text. >>=-ne-err (deref (parse text)) _ e (deref-ne-err (parse text) e) (λ count g. cc))
        h

  amounts-ne-err :
      (r : ComputeResources) (gpus : Option String) (e : Error) → amounts parse r gpus ≢ err e
  unfolding amounts
  amounts-ne-err r gpus e h =
      >>=-ne-err (deref (parse r.cpu)) _ e (deref-ne-err (parse r.cpu) e)
        (λ cpu.
          >>=-ne-err (deref (parse (r.memory_in_gb <> "G"))) _ e
            (deref-ne-err (parse (r.memory_in_gb <> "G")) e)
            (λ memory.
              >>=-ne-err (gpu_amount parse r.gpu gpus) _ e (gpu_amount-ne-err r.gpu gpus e)
                (λ gpu g. cc)))
        h

  limits_of-ne-err :
      (limits : Option ComputeResources) (gpus : Option String) (e : Error)
      → limits_of parse limits gpus ≢ err e
  limits_of-ne-err none gpus e h = cc
  limits_of-ne-err (some r) gpus e h =
      >>=-ne-err (amounts parse r gpus) _ e (amounts-ne-err r gpus e) (λ limits g. cc) h

  resources_of-ne-err : (cs : List RestContainer) (e : Error) → resources_of parse cs ≢ err e
  resources_of-ne-err [] e h = cc
  resources_of-ne-err (c ∷ cs) e h =
      >>=-ne-err (deref c.requests) _ e (deref-ne-err c.requests e)
        (λ r. >>=-ne-err (amounts parse r r.gpu) _ e (amounts-ne-err r r.gpu e) (λ requests.
          >>=-ne-err (limits_of parse c.limits r.gpu) _ e (limits_of-ne-err c.limits r.gpu e)
            (λ limits.
              >>=-ne-err (resources_of parse cs) _ e (resources_of-ne-err cs e) (λ rest g. cc))))
        h

rest_pod_status-ne-err :
    (out : Outside) (cg : RestGroup) (cs : List RestContainer) (e : Error)
    → rest_pod_status out cg cs ≢ err e
unfolding rest_pod_status
rest_pod_status-ne-err out cg [] e h = cc
rest_pod_status-ne-err out cg (c ∷ cs) e h = cc

-- A conversion makes a pod or panics.
pub rest_group_to_pod-ne-err :
    (parse : String → Option ℕ) (out : Outside) (cg : RestGroup) (e : Error)
    → rest_group_to_pod parse out cg ≢ err e
unfolding rest_group_to_pod
rest_group_to_pod-ne-err parse out cg e h =
    >>=-ne-err (resources_of parse cg.containers) _ e (resources_of-ne-err parse cg.containers e)
      (λ limits.
        >>=-ne-err (rest_pod_status out cg cg.containers) _ e
          (rest_pod_status-ne-err out cg cg.containers e) (λ status g. cc))
      h

if-at :
    {W A : Type 0} (b : Bool) (f g : W → A) (w : W) {z : A}
    → (if b then f else g) w ≡ z
    → ((b ≡ true) × (f w ≡ z)) ⊎ ((b ≡ false) × (g w ≡ z))
if-at true f g w h = inl (refl, h)
if-at false f g w h = inr (refl, h)

made_first :
    {W : Type 0} (made : Result Pod) (rest : Io W (List Pod)) (w w' : W) (pods : List Pod)
    → ((e : Error) → made ≢ err e)
    → (attempt (lift made) >>= λ pod. rest >>= λ others.
          pure (elim pod [ returned one ↦ one ∷ others | failed_with e ↦ others ]))
        w
      ≡ (ok pods, w')
    → (pod : Pod) × (others : List Pod) × (made ≡ ok pod)
      × (rest w ≡ (ok others, w'))
      × (pod ∷ others ≡ pods)
made_first panics rest w w' pods possible h = cc
made_first (err e) rest w w' pods possible h = absurd (possible e refl)
made_first (ok pod) rest w w' pods possible h =
    let (others, w1, got, same) = >>=-eq-ok rest _ w h in
    (
      pod,
      others,
      refl,
      got ∙ ap (λ v. (ok others, v)) (ap (λ x. x.1) same),
      ok-injective (pod ∷ others) pods (ap (λ x. x.0) same),
    )

module _ {W : Type 0} (p : OldProvider W) where
  abbrev own_tag : RestGroup → Bool
  own_tag cg = rest_tag cg "NodeName" == p.node_name

  rest_pods_of-AllConverted :
      (cgs : List RestGroup) (w w' : W) (pods : List Pod)
      → rest_pods_of p cgs w ≡ (ok pods, w')
      → AllConverted p.parse_quantity p.outside (keep own_tag cgs) pods × (w ≡ w')
  unfolding rest_pods_of
  rest_pods_of-AllConverted [] w w' [] h = (tt, ap (λ x. x.1) h)
  rest_pods_of-AllConverted [] w w' (pod ∷ pods) h = cc
  rest_pods_of-AllConverted (cg ∷ cgs) w w' pods h = elim (if-at (own_tag cg) _ _ w h) [
    | inr (other, h1) ↦ rw other (rest_pods_of-AllConverted cgs w w' pods h1)
    | inl (own, h1) ↦
        let (pod, others, made, got, all) =
          made_first (rest_group_to_pod p.parse_quantity p.outside cg) (rest_pods_of p cgs) w w'
            pods (rest_group_to_pod-ne-err p.parse_quantity p.outside cg) h1 in
        let (converted, same) = rest_pods_of-AllConverted cgs w w' others got in
        rw own (
          subst (AllConverted p.parse_quantity p.outside (cg ∷ keep own_tag cgs)) all
              (made, converted),
          same,
        )
  ]

  -- The listing of pods has those that are made from the groups of the resource group whose tag is the name of
  -- the node, one from each, in their order.
  pub get_rest_pods-AllConverted :
      (w w' : W) (pods : List Pod)
      → get_rest_pods p w ≡ (ok pods, w')
      → (cgs : List RestGroup) × (p.list_container_groups p.resource_group w ≡ (ok cgs, w'))
        × AllConverted p.parse_quantity p.outside
            (keep (λ cg. rest_tag cg "NodeName" == p.node_name) cgs)
            pods
  unfolding get_rest_pods
  get_rest_pods-AllConverted w w' pods h =
      let (cgs, w1, listed, h1) = >>=-eq-ok (p.list_container_groups p.resource_group) _ w h in
      let (converted, same) = rest_pods_of-AllConverted cgs w1 w' pods h1 in
      (cgs, listed ∙ ap (λ v. (ok cgs, v)) same, converted)
