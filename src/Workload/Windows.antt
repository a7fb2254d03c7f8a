-- ===== src/Workload/Windows.antt =====
-- filterWindowsServiceAccountSecretVolume of pkg/provider/aci.go. Of a container it reads the volume
-- mounts, of a volume its name; the pointers to them were set when the group was built.
use azure_aci.Prelude.{
  String, Bool, true, false, not, ◌&&◌, ◌||◌, List, [], ◌∷◌, map, ◌≡◌, refl, keep, contains,
  if◌then◌else◌, Bool-cases, inl, inr, arith, ◌==◌, ap, ◌∙◌, sym,
}
use azure_aci.Workload.{VolumeMount, is_empty}

abbrev pub service_account_secret_mount_path : String
service_account_secret_mount_path = "/var/run/secrets/kubernetes.io/serviceaccount"

-- strings.EqualFold is a parameter; a volume is a `V` with a name.
module _ (equal_fold : String → String → Bool) {V : Type 0} (name_of : V → String) where
  abbrev pub is_secret_mount : VolumeMount → Bool
  is_secret_mount m = equal_fold service_account_secret_mount_path m.mount_path

  -- The mounts of a container that stay, and the names of the secret volumes with its own.
  pub filter_mounts : List VolumeMount → List String → List VolumeMount × List String
  filter_mounts [] names = ([], names)
  filter_mounts (m ∷ mounts) names = elim (is_secret_mount m) [
    | true ↦ filter_mounts mounts (m.name ∷ names)
    | false ↦ let rest = filter_mounts mounts names in (m ∷ rest.0, rest.1)
  ]

  -- The mounts of all containers.
  pub filter_containers :
      List (List VolumeMount) → List String → List (List VolumeMount) × List String
  filter_containers [] names = ([], names)
  filter_containers (mounts ∷ containers) names =
      let first = filter_mounts mounts names in
      let rest = filter_containers containers first.1 in (first.0 ∷ rest.0, rest.1)

  -- The volumes that stay, beside the mounts.
  without_volumes :
      List String → List (List VolumeMount) → List V → List (List VolumeMount) × List V
  without_volumes names mounts volumes =
      if is_empty names
      then (mounts, volumes)
      else (mounts, keep (λ v. not (contains names (name_of v))) volumes)

  unfoldable pub filter_windows_service_account_secret_volume :
      String → List (List VolumeMount) → List V → List (List VolumeMount) × List V
  unfolding filter_mounts filter_containers without_volumes
  filter_windows_service_account_secret_volume os_type containers volumes =
      if equal_fold os_type "Windows"
      then (let (mounts, names) = filter_containers containers [] in
          without_volumes names mounts volumes)
      else (containers, volumes)

  -- Whether a container mounts the volume `name` where the secret of the service account belongs.
  abbrev pub mounts_secret : String → List VolumeMount → Bool
  mounts_secret name [] = false
  mounts_secret name (m ∷ mounts) =
      (is_secret_mount m && (m.name == name)) || mounts_secret name mounts

  abbrev pub some_mounts_secret : String → List (List VolumeMount) → Bool
  some_mounts_secret name [] = false
  some_mounts_secret name (mounts ∷ containers) =
      mounts_secret name mounts || some_mounts_secret name containers

  filter_mounts-kept :
      (mounts : List VolumeMount) (names : List String)
      → (filter_mounts mounts names).0 ≡ keep (λ m. not (is_secret_mount m)) mounts
  unfolding filter_mounts
  filter_mounts-kept [] names = refl
  filter_mounts-kept (m ∷ mounts) names = elim (Bool-cases (is_secret_mount m)) [
    | inl e ↦ rw (filter_mounts, e) (filter_mounts-kept mounts (m.name ∷ names))
    | inr e ↦ rw (filter_mounts, e) (ap (λ rest. m ∷ rest) (filter_mounts-kept mounts names))
  ]

  filter_mounts-names :
      (mounts : List VolumeMount) (names : List String) (name : String)
      → contains (filter_mounts mounts names).1 name
        ≡ (mounts_secret name mounts || contains names name)
  unfolding filter_mounts
  filter_mounts-names [] names name = refl
  filter_mounts-names (m ∷ mounts) names name = elim (Bool-cases (is_secret_mount m)) [
    | inl e ↦
        rw (filter_mounts, e) (ground (arith, filter_mounts-names mounts (m.name ∷ names) name))
    | inr e ↦ rw (filter_mounts, e) (ground (arith, filter_mounts-names mounts names name))
  ]

  filter_containers-kept :
      (containers : List (List VolumeMount)) (names : List String)
      → (filter_containers containers names).0
        ≡ map (keep (λ m. not (is_secret_mount m))) containers
  unfolding filter_containers
  filter_containers-kept [] names = refl
  filter_containers-kept (mounts ∷ containers) names =
      rw
        (
          filter_mounts-kept mounts names,
          filter_containers-kept containers (filter_mounts mounts names).1,
        )
        refl

  filter_containers-names :
      (containers : List (List VolumeMount)) (names : List String) (name : String)
      → contains (filter_containers containers names).1 name
        ≡ (some_mounts_secret name containers || contains names name)
  unfolding filter_containers
  filter_containers-names [] names name = refl
  filter_containers-names (mounts ∷ containers) names name = ground (
    arith,
    filter_containers-names containers (filter_mounts mounts names).1 name,
    filter_mounts-names mounts names name,
  )

  keep-ext : (p q : V → Bool) → ((v : V) → p v ≡ q v) → (vs : List V) → keep p vs ≡ keep q vs
  keep-ext p q h [] = refl
  keep-ext p q h (v ∷ vs) = rw (h v, keep-ext p q h vs) refl

  keep_all : (p : V → Bool) → ((v : V) → p v ≡ true) → (vs : List V) → keep p vs ≡ vs
  keep_all p h [] = refl
  keep_all p h (v ∷ vs) = rw (h v, keep_all p h vs) refl

  filtered_volumes :
      (containers mounts : List (List VolumeMount)) (volumes : List V) (names : List String)
      → ((name : String) → contains names name ≡ some_mounts_secret name containers)
      → without_volumes names mounts volumes
        ≡ (mounts, keep (λ v. not (some_mounts_secret (name_of v) containers)) volumes)
  unfolding without_volumes
  filtered_volumes containers mounts volumes [] h =
      ap (λ vs. (mounts, vs)) (sym (keep_all _ (λ v. ap not (sym (h (name_of v)))) volumes))
  filtered_volumes containers mounts volumes (n ∷ names) h =
      ap (λ vs. (mounts, vs)) (keep-ext _ _ (λ v. ap not (h (name_of v))) volumes)

  names-mounted :
      (containers : List (List VolumeMount)) (name : String)
      → contains (filter_containers containers []).1 name ≡ some_mounts_secret name containers
  names-mounted containers name = ground (arith, filter_containers-names containers [] name)

  -- For Windows exactly the mounts at the path of the service account's secret are dropped, and exactly
  -- the volumes that are mounted there; for another system nothing is.
  pub filter_windows_exact :
      (os_type : String) (containers : List (List VolumeMount)) (volumes : List V)
      → filter_windows_service_account_secret_volume os_type containers volumes ≡ (
          if equal_fold os_type "Windows"
          then (
            map (keep (λ m. not (is_secret_mount m))) containers,
            keep (λ v. not (some_mounts_secret (name_of v) containers)) volumes,
          )
          else (containers, volumes))
  unfolding filter_windows_service_account_secret_volume
  filter_windows_exact os_type containers volumes =
      elim (Bool-cases (equal_fold os_type "Windows")) [
        | inl e ↦
            rw (filter_windows_service_account_secret_volume, e)
              (filtered_volumes containers (filter_containers containers []).0 volumes
                  (filter_containers containers []).1 (names-mounted containers)
                ∙ ap
                    (λ mounts.
                      (mounts, keep (λ v. not (some_mounts_secret (name_of v) containers)) volumes))
                    (filter_containers-kept containers []))
        | inr e ↦ rw (filter_windows_service_account_secret_volume, e) refl
      ]
