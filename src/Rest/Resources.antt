-- ===== src/Rest/Resources.antt =====
-- The clients of resource groups and of subnets, client/resourcegroups and client/network/subnet.go.
use azure_aci.Prelude.{
  String, ◌<>◌, Bool, false, eqb, if◌then◌else◌, Option, none, some, List, [], ◌∷◌, plain, Result,
  ok, deref, wrapped, ◌>>=◌,
}
use azure_aci.Prelude.Io
use azure_aci.Prelude.Io.{Io, lift, pure, raise}
use azure_aci.Rest.Api.{
  prefixed, Net, Reply, Call, check_response, send_call, exchange, fetch_answer,
}
use azure_aci.Rest.Groups.{expanding}

pub record ResourcesClient (W S T : Type 0) : Type 0 where
  pub net : Net W S T
  pub resource_manager_endpoint : String
  pub subscription_id : String

module _ {W S T : Type 0} (c : ResourcesClient W S T) where
  abbrev pub resource_call : String → String → Result (Option String) → String → String → Call
  resource_call verb resource_group encoded creating sending = record {
    verb = verb;
    endpoint = c.resource_manager_endpoint;
    url_path = "subscriptions/{{.subscriptionId}}/resourcegroups/{{.resourceGroupName}}";
    url_params = ("api-version", "2017-08-01" ∷ []) ∷ [];
    expansions =
        ok (
          some
            (("subscriptionId", c.subscription_id) ∷ ("resourceGroupName", resource_group) ∷ []));
    encoded = encoded;
    creating = prefixed creating;
    expanding = expanding;
    sending = sending;
  }

  module _ {G : Type 0} (encode : G → Result String) (decode : S → Result G) where
    unfoldable pub create_resource_group : String → G → Io W G
    create_resource_group resource_group properties =
        fetch_answer c.net
          (resource_call "PUT" resource_group
            (wrapped "Encoding create resource group body request failed: " (encode properties)
              >>= λ text. ok (some text))
            "Creating create/update resource group uri request failed: "
            "Sending create resource group request failed: ")
          decode "Create resource group returned an empty body in the response"
          "Decoding create resource group response body failed: "

    unfoldable pub update_resource_group : String → G → Io W G
    unfolding create_resource_group
    update_resource_group resource_group properties =
        create_resource_group resource_group properties

  unfoldable pub get_resource_group : {G : Type 0} → (S → Result G) → String → Io W G
  get_resource_group decode resource_group =
      fetch_answer c.net
        (resource_call "GET" resource_group (ok none)
          "Creating get resource group uri request failed: "
          "Sending get resource group request failed: ")
        decode "Create resource group returned an empty body in the response"
        "Decoding get resource group response body failed: "

  -- 204 means that there is no such group.
  abbrev pub answer_delete : String → Reply S → Io W (Unit {0})
  answer_delete resource_group resp =
      if eqb resp.status_code 204
      then raise
          (plain ("Resource group with name " <> c.net.quote resource_group <> " was not found"))
      else pure tt

  unfoldable pub delete_resource_group : String → Io W (Unit {0})
  delete_resource_group resource_group =
      Io.◌>>=◌
        (exchange c.net (
          resource_call "DELETE" resource_group (ok none)
            "Creating delete resource group uri request failed: "
            "Sending delete resource group request failed: "))
        (answer_delete resource_group)

  -- 404 is no error here, and 204 means that there is such a group.
  unfoldable pub answer_exists : Reply S → Result Bool
  answer_exists resp =
      if eqb resp.status_code 404
      then ok false
      else check_response c.net resp >>= λ checked. ok (eqb resp.status_code 204)

  unfoldable pub resource_group_exists : String → Io W Bool
  unfolding answer_exists
  resource_group_exists resource_group =
      Io.◌>>=◌
        (send_call c.net (
          resource_call "HEAD" resource_group (ok none)
            "Creating resource group exists uri request failed: "
            "Sending resource group exists request failed: "))
        λ resp. lift (answer_exists resp)

  abbrev pub subnet_expansions : String → String → String → String → List (String × String)
  subnet_expansions subscription_id resource_group vnet name =
      ("subscriptionId", subscription_id)
      ∷ ("resourceGroupName", resource_group)
      ∷ ("subnetName", name)
      ∷ ("vnetName", vnet)
      ∷ []

  abbrev pub subnet_call :
      String → List (String × String) → Result (Option String) → String → String → Call
  subnet_call verb expansions encoded creating sending = record {
    verb = verb;
    endpoint = c.resource_manager_endpoint;
    url_path =
        "subscriptions/{{.subscriptionId}}/resourcegroups/{{.resourceGroupName}}/providers/Microsoft.Network/virtualNetworks/{{.vnetName}}/subnets/{{.subnetName}}";
    url_params = ("api-version", "2018-08-01" ∷ []) ∷ [];
    expansions = ok (some expansions);
    encoded = encoded;
    creating = prefixed creating;
    expanding = "expanding URL with parameters failed: ";
    sending = sending;
  }

  unfoldable pub get_subnet :
      {G : Type 0} → (S → Result G) → String → String → String → String → Io W G
  get_subnet decode subscription_id resource_group vnet name =
      Io.◌>>=◌
        (exchange c.net (
          subnet_call "GET" (subnet_expansions subscription_id resource_group vnet name) (ok none)
            "creating subnet get uri request failed: " "sending subnet get request failed: "))
        λ resp. lift (deref resp.body >>= decode)

  -- The name is read through its pointer when the address is expanded.
  abbrev pub create_subnet_call :
      String → String → String → Option String → Result (Option String) → Call
  create_subnet_call subscription_id resource_group vnet name encoded =
      record (subnet_call "PUT" [] encoded "" "sending create subnet request failed: ") {
        expansions =
            deref name >>= λ n. ok (some (subnet_expansions subscription_id resource_group vnet n));
        creating = λ e. "creating subnet create uri request failed";
      }

  -- `name_of` is the field Name of a subnet.
  unfoldable pub create_or_update_subnet :
      {G : Type 0}
      → (G → Option String)
      → (G → Result String)
      → (S → Result G)
      → String
      → String
      → String
      → G
      → Io W G
  create_or_update_subnet name_of encode decode subscription_id resource_group vnet s =
      Io.◌>>=◌
        (exchange c.net (
          create_subnet_call subscription_id resource_group vnet (name_of s) (
            wrapped "marshallig networking profile failed: " (encode s) >>= λ text.
            ok (some text))))
        λ resp. lift (deref resp.body >>= decode)
