-- ===== src/Rest/Groups.antt =====
-- The client of container groups, client/aci: each operation as the call that it makes.
use azure_aci.Prelude.{
  ℕ, String, ◌==◌, if◌then◌else◌, Option, none, some, List, [], ◌∷◌, Result, ok, ◌>>=◌, wrapped,
}
use azure_aci.Prelude.Io
use azure_aci.Prelude.Io.{Io, lift, pure, raise, attempt, Answer, returned, failed_with}
use azure_aci.Rest.{Header}
use azure_aci.Rest.Api.{
  prefixed, Net, Reply, Call, check_response, decoded, send_call, exchange, fetch_answer,
}

abbrev pub container_group_url_path : String
container_group_url_path =
    "subscriptions/{{.subscriptionId}}/resourceGroups/{{.resourceGroup}}/providers/Microsoft.ContainerInstance/containerGroups/{{.containerGroupName}}"

abbrev pub container_group_list_url_path : String
container_group_list_url_path =
    "subscriptions/{{.subscriptionId}}/providers/Microsoft.ContainerInstance/containerGroups"

abbrev pub container_group_list_by_resource_group_url_path : String
container_group_list_by_resource_group_url_path =
    "subscriptions/{{.subscriptionId}}/resourceGroups/{{.resourceGroup}}/providers/Microsoft.ContainerInstance/containerGroups"

abbrev pub api_version : Header
api_version = ("api-version", "2021-07-01" ∷ []) ∷ []

abbrev pub expanding : String
expanding = "Expanding URL with parameters failed: "

-- The client: the packages that it uses, and from its authentication the endpoint and the subscription.
pub record GroupsClient (W S T : Type 0) : Type 0 where
  pub net : Net W S T
  pub resource_manager_endpoint : String
  pub subscription_id : String

module _ {W S T : Type 0} (c : GroupsClient W S T) where
  abbrev pub group_expansions : String → String → List (String × String)
  group_expansions resource_group container_group_name =
      ("subscriptionId", c.subscription_id)
      ∷ ("resourceGroup", resource_group)
      ∷ ("containerGroupName", container_group_name)
      ∷ []

  -- A call without a body.
  abbrev pub call_of : String → String → Header → List (String × String) → String → String → Call
  call_of verb url_path url_params expansions creating sending = record {
    verb = verb;
    endpoint = c.resource_manager_endpoint;
    url_path = url_path;
    url_params = url_params;
    expansions = ok (some expansions);
    encoded = ok none;
    creating = prefixed creating;
    expanding = expanding;
    sending = sending;
  }

  abbrev pub with_body : String → Result String → Call → Call
  with_body encoding body call = record call {
    encoded = wrapped encoding body >>= λ text. ok (some text);
  }

  module _ {G : Type 0} (encode : G → Result String) (decode : S → Result G) where
    abbrev pub create_call : String → String → G → Call
    create_call resource_group container_group_name container_group =
        with_body "Encoding create container group body request failed: " (encode container_group) (
          call_of "PUT" container_group_url_path api_version
            (group_expansions resource_group container_group_name)
            "Creating create/update container group uri request failed: "
            "Sending create container group request failed: ")

    unfoldable pub create_container_group : String → String → G → Io W G
    create_container_group resource_group container_group_name container_group =
        fetch_answer c.net (create_call resource_group container_group_name container_group) decode
          "Create container group returned an empty body in the response"
          "Decoding create container group response body failed: "

    unfoldable pub update_container_group : String → String → G → Io W G
    unfolding create_container_group
    update_container_group resource_group container_group_name container_group =
        create_container_group resource_group container_group_name container_group

  abbrev pub delete_call : String → String → Call
  delete_call resource_group container_group_name =
      call_of "DELETE" container_group_url_path api_version
        (group_expansions resource_group container_group_name)
        "Creating delete container group uri request failed: "
        "Sending delete container group request failed: "

  unfoldable pub delete_container_group : String → String → Io W (Unit {0})
  delete_container_group resource_group container_group_name =
      Io.◌>>=◌ (exchange c.net (delete_call resource_group container_group_name)) λ resp. pure tt

  abbrev pub get_call : String → String → Call
  get_call resource_group container_group_name =
      call_of "GET" container_group_url_path api_version
        (group_expansions resource_group container_group_name)
        "Creating get container group uri request failed: "
        "Sending get container group request failed: "

  module _ {G : Type 0} (decode : S → Result G) where
    abbrev pub answer_group : Answer (Reply S) → Io W (Option ℕ × Answer G)
    answer_group (failed_with e) = pure (none, failed_with e)
    answer_group (returned resp) =
        Io.◌>>=◌
          (attempt (
            lift (
              check_response c.net resp >>= λ checked.
              decoded c.net decode "Get container group returned an empty body in the response"
                "Decoding get container group response body failed: " resp.body)))
          λ group. pure (some resp.status_code, group)

    -- The group or the error, with the status code if there was a response.
    unfoldable pub get_container_group : String → String → Io W (Option ℕ × Answer G)
    get_container_group resource_group container_group_name =
        Io.◌>>=◌ (attempt (send_call c.net (get_call resource_group container_group_name)))
          answer_group

  -- Without a resource group, the groups of the subscription.
  abbrev pub list_call : String → Call
  list_call resource_group =
      call_of "GET"
        (if resource_group == ""
          then container_group_list_url_path
          else container_group_list_by_resource_group_url_path)
        api_version (("subscriptionId", c.subscription_id) ∷ ("resourceGroup", resource_group) ∷ [])
        "Creating get container group list uri request failed: "
        "Sending get container group list request failed: "

  unfoldable pub list_container_groups : {L : Type 0} → (S → Result L) → String → Io W L
  list_container_groups decode resource_group =
      fetch_answer c.net (list_call resource_group) decode
        "Create container group list returned an empty body in the response"
        "Decoding get container group response body failed: "
