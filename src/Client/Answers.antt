-- ===== src/Client/Answers.antt =====
-- How the answers of the Azure SDK are read.
use azure_aci.Prelude.{
  String, Option, none, some, ◌≡◌, ◌≢◌, refl, Error, Result, ok, err, panics, arith, not_found,
  ◌<>◌, eqb, ◌==◌, eq_iff, Bool-cases, inl, inr,
}
use azure_aci.Azure.{ContainerGroup, Pointer}
use azure_aci.Validation.{validate_container_group}
use azure_aci.Status.{tag}
use azure_aci.Client.{
  Sdk, Got, container_group_name, check_node, answer_checked, answer_get, get_container_group_info,
}

-- What a lookup returns for the answer of the SDK.
pub data Looked (name node : String) (got : Got) : Result (Option ContainerGroup) → Type 0 where
  missing :
      {e : Error}
      → got.error ≡ some e
      → got.status_code ≡ 404
      → Looked name node got (err (not_found ("container group " <> name <> " is not found")))
  failed : {e : Error} → got.error ≡ some e → got.status_code ≢ 404 → Looked name node got (err e)
  invalid :
      {e : Error}
      → got.error ≡ none
      → validate_container_group (some got.group) ≡ err e
      → Looked name node got (err e)
  crashed :
      got.error ≡ none
      → validate_container_group (some got.group) ≡ panics
      → Looked name node got panics
  untagged :
      (cg : ContainerGroup)
      → got.error ≡ none
      → validate_container_group (some got.group) ≡ ok cg
      → tag cg "NodeName" ≡ none
      → Looked name node got panics
  found :
      (cg : ContainerGroup) (t : Pointer)
      → got.error ≡ none
      → validate_container_group (some got.group) ≡ ok cg
      → tag cg "NodeName" ≡ some t
      → t.value ≡ node
      → Looked name node got (ok (some cg))
  elsewhere :
      (cg : ContainerGroup) (t : Pointer)
      → got.error ≡ none
      → validate_container_group (some got.group) ≡ ok cg
      → tag cg "NodeName" ≡ some t
      → t.value ≢ node
      → Looked name node got (ok none)

check_node-Looked :
    (name node : String) (got : Got) (cg : ContainerGroup) (o : Option Pointer)
    → got.error ≡ none
    → validate_container_group (some got.group) ≡ ok cg
    → tag cg "NodeName" ≡ o
    → Looked name node got (check_node name node cg o)
unfolding check_node
check_node-Looked name node got cg none e v t = untagged cg e v t
check_node-Looked name node got cg (some p) e v t = elim (Bool-cases (p.value == node)) [
  | inl h ↦ rw h (found cg p e v t ((eq_iff p.value node).0 h))
  | inr h ↦ rw h (elsewhere cg p e v t (λ q. ground (arith, eq_iff p.value node)))
]

answer_checked-Looked :
    (name node : String) (got : Got) (r : Result ContainerGroup)
    → got.error ≡ none
    → validate_container_group (some got.group) ≡ r
    → Looked name node got (answer_checked name node r)
unfolding answer_checked
answer_checked-Looked name node got (ok cg) e v =
    check_node-Looked name node got cg (tag cg "NodeName") e v refl
answer_checked-Looked name node got (err x) e v = invalid e v
answer_checked-Looked name node got panics e v = crashed e v

answer_get-Looked :
    (name node : String) (got : Got) (o : Option Error)
    → got.error ≡ o
    → Looked name node got (answer_get name node got.status_code got.group o)
unfolding answer_get
answer_get-Looked name node got (some x) e = elim (Bool-cases (eqb got.status_code 404)) [
  | inl h ↦ rw h (missing e (ground arith))
  | inr h ↦ rw h (failed e (ground arith))
]
answer_get-Looked name node got none e =
    answer_checked-Looked name node got (validate_container_group (some got.group)) e refl

-- A lookup asks for the group "namespace-name" and reads the answer in one of seven ways: an error
-- with status 404 is "not found", any other is passed on; a group that fails the check is an error;
-- one that cannot be checked, or has no node tag, panics; a group of this node is returned; and for a
-- group of another node there is neither a group nor an error.
pub get_container_group_info-Looked :
    {W G : Type 0} (sdk : Sdk W G) (rg namespace name node : String) (w : W)
    → let (got, w') = sdk.get rg (container_group_name namespace name) w in
      (r : Result (Option ContainerGroup)) × (get_container_group_info sdk rg namespace name node w
        ≡ (r, w'))
      × Looked name node got r
unfolding get_container_group_info
get_container_group_info-Looked sdk rg namespace name node w = (
  _,
  refl,
  answer_get-Looked name node (sdk.get rg (container_group_name namespace name) w).0 _ refl,
)

-- A lookup that is answered with status 404 is "not found".
pub get_container_group_info_missing :
    {W G : Type 0} (sdk : Sdk W G) (rg namespace name node : String) (w : W) (e : Error)
    → let (got, w') = sdk.get rg (container_group_name namespace name) w in
      got.error ≡ some e
      → got.status_code ≡ 404
      → get_container_group_info sdk rg namespace name node w
        ≡ (err (not_found ("container group " <> name <> " is not found")), w')
unfolding get_container_group_info
get_container_group_info_missing sdk rg namespace name node w e failing code = ground arith
