-- ===== src/Client.antt =====
-- pkg/client/client_apis.go, the calls of CreateCG in pkg/client/client.go, and pkg/client/retry.go.
-- The Azure SDK is a parameter: each of its calls acts on the world `W`.
pub mod Answers
pub mod Accepted
pub mod Reads
pub mod Wire
use azure_aci.Prelude.{
  ℕ, String, Bool, true, false, Option, none, some, List, [], ◌∷◌, ◌==◌, ◌<>◌, ◌&&◌, not, lookup,
  eqb, ltb, if◌then◌else◌, zero, suc, is_some, Error, plain, not_found, Result, ok, err, panics,
}
use azure_aci.Prelude.Io.{
  Io, pure, raise, lift, attempt, Answer, returned, failed_with, ◌>>=◌, ◌>>◌,
}
use azure_aci.Azure.{ContainerGroup, Pointer}
use azure_aci.Status.{tag}
use azure_aci.Validation.{validate_container_group}

-- containerGroupName, which three packages define alike, and GetPodFullName.
unfoldable pub container_group_name : String → String → String
container_group_name pod_ns pod_name = pod_ns <> "-" <> pod_name

-- What `CGClient.Get` returns: the group, which carries the status code of the response also when
-- there is an error, and the error.
pub record Got : Type 0 where
  pub status_code : ℕ
  pub group : ContainerGroup
  pub error : Option Error

-- What `CreateOrUpdateSender` returns: an error, and the status code if there is a response.
pub record Sent : Type 0 where
  pub error : Option Error
  pub status_code : Option ℕ

-- The calls of the SDK. `G` is the group to be created.
pub record Sdk (W G : Type 0) : Type 0 where
  pub get : String → String → W → Got × W
  pub list_by_resource_group : String → Io W (List ContainerGroup)
  pub prepare : String → String → G → Result (Unit {0})
  pub send : String → String → G → W → Sent × W
  pub delete : String → String → Io W (Unit {0})
  pub wait_for_completion : Io W (Unit {0})
  pub list_logs : String → String → String → Option ℕ → Io W (Option String)
  pub show_code : ℕ → String  -- %d
  pub is_cancelled : W → Bool  -- ctx.Err() != nil
  -- retry.OnError with the default backoff
  pub on_error : (W → Bool) → Io W (Option String) → Io W (Option String)

-- GetContainerGroupInfo after the answer of the SDK. The error that is wrapped for a group of
-- another node is nil there, so what is returned is a nil group and a nil error.
check_node : String → String → ContainerGroup → Option Pointer → Result (Option ContainerGroup)
check_node name node_name cg none = panics
check_node name node_name cg (some node) = if node.value == node_name then ok (some cg) else ok none

answer_checked : String → String → Result ContainerGroup → Result (Option ContainerGroup)
unfolding check_node
answer_checked name node_name (err e) = err e
answer_checked name node_name panics = panics
answer_checked name node_name (ok cg) = check_node name node_name cg (tag cg "NodeName")

answer_get : String → String → ℕ → ContainerGroup → Option Error → Result (Option ContainerGroup)
unfolding answer_checked
answer_get name node_name status_code group (some e) =
    if eqb status_code 404
    then err (not_found ("container group " <> name <> " is not found"))
    else err e
answer_get name node_name status_code group none =
    answer_checked name node_name (validate_container_group (some group))

-- 200 and 201 are success; without a response there is nothing to test.
pub answer_status : (ℕ → String) → String → Option ℕ → Result (Unit {0})
answer_status show_code cg_name none = ok tt
answer_status show_code cg_name (some code) =
    if eqb code 200
    then ok tt
    else if eqb code 201
    then ok tt
    else err (
        plain (
          "failed to create container group "
          <> (cg_name <> (", status code " <> (show_code code <> " ")))))

pub answer_sent : (ℕ → String) → String → Sent → Result (Unit {0})
unfolding answer_status
answer_sent show_code cg_name sent = elim sent.error [
  | some e ↦ err e
  | none ↦ answer_status show_code cg_name sent.status_code
]

module _ {W G : Type 0} (sdk : Sdk W G) where
  unfoldable pub get_container_group_info :
      String → String → String → String → Io W (Option ContainerGroup)
  unfolding answer_get container_group_name
  get_container_group_info resource_group namespace name node_name w =
      let (got, w') = sdk.get resource_group (container_group_name namespace name) w in
      (answer_get name node_name got.status_code got.group got.error, w')

  -- ContainerGroupsClientWrapper.CreateCG; `result.Status()` is read before the error is tested.
  pub create_cg : String → String → G → Io W (Unit {0})
  unfolding answer_sent
  create_cg resource_group cg_name cg = do
    lift (sdk.prepare resource_group cg_name cg)
    (λ w.
        let (sent, w') = sdk.send resource_group cg_name cg w in
        (answer_sent sdk.show_code cg_name sent, w'))

  unfoldable pub create_container_group : String → String → String → G → Io W (Unit {0})
  unfolding create_cg container_group_name
  create_container_group resource_group pod_ns pod_name cg =
      create_cg resource_group (container_group_name pod_ns pod_name) cg

  unfoldable pub get_container_group_list_result : String → Io W (Option (List ContainerGroup))
  get_container_group_list_result resource_group = do
    cgs ← sdk.list_by_resource_group resource_group
    pure (some cgs)

  unfoldable pub delete_container_group : String → String → Io W (Unit {0})
  delete_container_group resource_group cg_name = do
    sdk.delete resource_group cg_name
    sdk.wait_for_completion

  -- A tail of 0 asks for the whole log.
  unfoldable pub list_logs : String → String → String → ℕ → Io W (Option String)
  list_logs resource_group cg_name container_name tail =
      sdk.on_error (λ w. not (sdk.is_cancelled w))
        (sdk.list_logs resource_group cg_name container_name
          (if eqb tail 0 then none else some tail))
