-- ===== src/Volumes/Held.antt =====
-- The texts that a volume holds.
use azure_aci.Prelude.{
  String, false, Option, none, some, List, [], ◌∷◌, ◌++◌, map, In, In-append_left, In-append_right,
  ◌⊎◌, ◌↔◌, inl, inr, ◌&&◌, ◌≡◌, refl, ap, ok,
}
use azure_aci.Registry.{Base64}
use azure_aci.Volumes.{
  ConfigMap, encode_all, is_required, is_missing, Texts, ClusterSecret, Resources, ObjectSource,
  VolumeProjection, VolumesOf,
}
use azure_aci.Volumes.Sources.{secret_texts, config_map_texts}
use azure_aci.Volumes.Projected.{from_projected}

-- The bytes of a secret, and both kinds of texts of a config map; none of an object that is nil.
abbrev pub bytes_of : Option ClusterSecret → Texts
bytes_of none = []
bytes_of (some s) = s.bytes

abbrev pub all_texts_of : Option ConfigMap → Texts
all_texts_of none = []
all_texts_of (some m) = m.binary_data ++ m.texts

abbrev pub encoded : Base64 → Texts → Texts
encoded b m = map (λ e. (e.0, b.std_encode e.1)) m

abbrev pub SameEntries : Texts → Texts → Type 0
SameEntries xs ys = (entry : String × String) → In entry xs ↔ In entry ys

encode_all-In :
    (b : Base64) (m paths : Texts) (entry : String × String)
    → In entry (encode_all b m paths) ↔ (In entry (encoded b m) ⊎ In entry paths)
unfolding encode_all
encode_all-In b [] paths entry = (λ i. inr i, λ s. elim s [ inl i ↦ absurd i | inr i ↦ i ])
encode_all-In b (kv ∷ m) paths entry =
    let (forth, back) = encode_all-In b m ((kv.0, b.std_encode kv.1) ∷ paths) entry in
    (
      λ i. elim (forth i) [
        | inl j ↦ inl (inr j)
        | inr (inl same) ↦ inl (inl same)
        | inr (inr j) ↦ inr j
      ],
      λ s. elim s [
        | inl (inl same) ↦ back (inr (inl same))
        | inl (inr j) ↦ back (inl j)
        | inr j ↦ back (inr (inr j))
      ],
    )

pub secret_texts-SameEntries :
    (r : Resources) (o : Option ClusterSecret)
    → SameEntries (secret_texts r o) (encoded r.base64 (bytes_of o))
unfolding secret_texts
secret_texts-SameEntries r none entry = (λ i. i, λ i. i)
secret_texts-SameEntries r (some s) entry =
    let (forth, back) = encode_all-In r.base64 s.bytes [] entry in
    (λ i. elim (forth i) [ inl j ↦ j | inr j ↦ absurd j ], λ i. back (inl i))

encoded-append : (b : Base64) (xs ys : Texts) → encoded b (xs ++ ys) ≡ encoded b xs ++ encoded b ys
encoded-append b [] ys = refl
encoded-append b (x ∷ xs) ys = ap (λ rest. (x.0, b.std_encode x.1) ∷ rest) (encoded-append b xs ys)

In-append-cases :
    (entry : String × String) (xs ys : Texts) → In entry (xs ++ ys) → In entry xs ⊎ In entry ys
In-append-cases entry [] ys i = inr i
In-append-cases entry (x ∷ xs) ys (inl same) = inl (inl same)
In-append-cases entry (x ∷ xs) ys (inr i) = elim (In-append-cases entry xs ys i) [
  | inl j ↦ inl (inr j)
  | inr j ↦ inr j
]

pub config_map_texts-SameEntries :
    (r : Resources) (o : Option ConfigMap)
    → SameEntries (config_map_texts r o) (encoded r.base64 (all_texts_of o))
unfolding config_map_texts
config_map_texts-SameEntries r none entry = (λ i. i, λ i. i)
config_map_texts-SameEntries r (some m) entry =
    let b = r.base64 in
    let (forth, back) = encode_all-In b m.binary_data (encode_all b m.texts []) entry in
    let (forth', back') = encode_all-In b m.texts [] entry in
    rw (encoded-append b m.binary_data m.texts) (
      λ i. elim (forth i) [
        | inl j ↦ In-append_left entry (encoded b m.binary_data) (encoded b m.texts) j
        | inr j ↦ elim (forth' j) [
          | inl k ↦ In-append_right entry (encoded b m.binary_data) (encoded b m.texts) k
          | inr k ↦ absurd k
        ]
      ],
      λ i. elim (In-append-cases entry (encoded b m.binary_data) (encoded b m.texts) i) [
        | inl j ↦ back (inl j)
        | inr j ↦ back (inr (back' (inl j)))
      ],
    )

-- The texts of a volume, whose object is not both required and missing: those of the secret or of the config map,
-- each entry encoded, or those that the projected sources give.
pub data TextsOf (p : VolumesOf) (r : Resources)
    : Option ObjectSource
      → Option ObjectSource
      → Option (List VolumeProjection)
      → Texts
      → Type 0 where
  of_secret :
      {s : ObjectSource} {m : Option ObjectSource} {pr : Option (List VolumeProjection)}
      {paths : Texts}
      → (is_required s.optional && is_missing (r.get_secret s.name).error) ≡ false
      → SameEntries paths (encoded r.base64 (bytes_of (r.get_secret s.name).object))
      → TextsOf p r (some s) m pr paths
  of_config_map :
      {m : ObjectSource} {pr : Option (List VolumeProjection)} {paths : Texts}
      → (is_required m.optional && is_missing (r.get_config_map m.name).error) ≡ false
      → SameEntries paths (encoded r.base64 (all_texts_of (r.get_config_map m.name).object))
      → TextsOf p r none (some m) pr paths
  of_projected :
      {sources : List VolumeProjection} {paths : Texts}
      → from_projected p r sources [] ≡ ok paths
      → TextsOf p r none none (some sources) paths
