-- ===== src/Provider/Examples.antt =====
-- A provider over an SDK whose world is the list of the deleted groups' names.
use azure_aci.Prelude.{
  String, ◌<>◌, true, false, Option, none, some, List, [], ◌∷◌, ◌≡◌, refl, Result, ok, err, plain,
  All,
}
use azure_aci.Prelude.Io.{Io, pure}
use azure_aci.K8s.{running, ContainerStatus, Pod}
use azure_aci.Azure.{ContainerGroup}
use azure_aci.Samples.{outside, web_group}
use azure_aci.Validation.{validate_container_group}
use azure_aci.Client.{
  Sdk, Got, container_group_name, get_container_group_info, get_container_group_list_result,
  delete_container_group,
}
use azure_aci.Client.Answers.{Looked, get_container_group_info-Looked}
use azure_aci.Tracker.{
  Reporter, should_skip_pod_status_update, process_pod_updates, cleanup_dangling_pods,
  lost_termination,
}
use azure_aci.Tracker.Outcome.{LostAll, lost_status}
use azure_aci.Provider.{AciProvider, get_pods, delete_pod, notify_pods}
use azure_aci.Provider.Listing.{IsListed, get_pods_empty, cleanup_deletes_nothing}
use azure_aci.Provider.Deleting.{delete_pod_refused}
use azure_aci.Provider.Lookup.{az_clients_apis, lost_in_azure}

abbrev World : Type 0
World = List String

-- Azure answers every lookup with `got`, lists one group, and deletes unless it is told to refuse.
abbrev sdk_of : Got → Io World (Unit {0}) → Sdk World (Unit {0})
sdk_of got wait = record {
  get = λ rg name w. (got, w);
  list_by_resource_group = λ rg. pure (web_group ∷ []);
  prepare = λ rg name g. ok tt;
  send = λ rg name g w. (record { error = none; status_code = some 201 }, w);
  delete = λ rg name w. (ok tt, name ∷ w);
  wait_for_completion = wait;
  list_logs = λ rg name c tail. pure (some "log");
  show_code = λ n. "";
  is_cancelled = λ w. false;
  on_error = λ retriable m. m;
}

abbrev got_missing : Got
got_missing = record { status_code = 404; group = web_group; error = some (plain "gone") }

abbrev sdk : Sdk World (Unit {0})
sdk = sdk_of got_missing (pure tt)

abbrev provider_of : Sdk World (Unit {0}) → String → AciProvider World
provider_of s node = record {
  az_clients = az_clients_apis s;
  get_pod = λ name namespace w. err (plain "unknown");
  outside = outside;
  resource_group = "rg";
  node_name = node;
  node_name_address = 1;
  internal_ip = "10.1.1.1";
  tracker = none;
}

abbrev provider : AciProvider World
provider = provider_of sdk "vk"

abbrev reporter : Reporter World
reporter = record { get_pods = λ _. []; update_cb = λ pod w. w }

abbrev web : Pod
web = record {
  name = "web";
  namespace = "ns";
  uid = "";
  cluster_name = "";
  resource_version = "12";
  creation_timestamp = 0;
  deletion_timestamp = none;
  annotations = [];
  status = record {
    phase = running;
    conditions = [];
    message = "";
    reason = "";
    host_ip = "";
    pod_ip = "";
    start_time = none;
    container_statuses = [];
  };
}

listed : All (IsListed provider) (web_group ∷ [])
unfolding validate_container_group
listed = (record { checkable = λ e. cc; own_memory = refl }, tt)

get_pods_empty_example : get_pods provider [] ≡ (ok [], [])
unfolding az_clients_apis get_container_group_list_result
get_pods_empty_example = get_pods_empty provider (web_group ∷ []) [] [] refl listed

cleanup_deletes_nothing_example :
    cleanup_dangling_pods (notify_pods provider 5 reporter) [] ≡ (ok tt, [])
unfolding az_clients_apis get_container_group_list_result
cleanup_deletes_nothing_example =
    cleanup_deletes_nothing provider 5 reporter (web_group ∷ []) [] [] refl listed

abbrev web_up : Pod
web_up = record web {
  status = record web.status {
    container_statuses =
        record {
          name = "nginx";
          state = record {
            waiting = none;
            running = some (record { started_at = 3 });
            terminated = none;
          };
          last_termination_state = record { waiting = none; running = none; terminated = none };
          ready = true;
          restart_count = 0;
          image = "nginx";
          image_id = "";
          container_id = "";
        }
        ∷ [];
  };
}

abbrev watching : Reporter World
watching = record { get_pods = λ _. web_up ∷ []; update_cb = λ pod w. ("posted " <> pod.name) ∷ w }

abbrev watched : AciProvider World
watched = record provider { tracker = some watching }

abbrev refusing : AciProvider World
refusing = provider_of (sdk_of got_missing (λ w. (err (plain "busy"), w))) "vk"

delete_pod_refused_example : delete_pod refusing 5 web [] ≡ (err (plain "busy"), "ns-web" ∷ [])
unfolding az_clients_apis delete_container_group container_group_name
delete_pod_refused_example =
    delete_pod_refused refusing 5 web [] ("ns-web" ∷ []) (plain "busy") refl

get_container_group_info-Looked_example :
    (r : Result (Option ContainerGroup)) × (get_container_group_info sdk "rg" "ns" "web" "vk" []
      ≡ (r, []))
    × Looked "web" "vk" got_missing r
get_container_group_info-Looked_example =
    get_container_group_info-Looked sdk "rg" "ns" "web" "vk" []

lost_in_azure_example :
    (cs : List ContainerStatus) × LostAll (lost_termination 5) [] cs
    × (process_pod_updates (notify_pods provider 5 reporter) 5 web []
        ≡ (ok (record web { status = lost_status web.status cs }, true), []))
unfolding should_skip_pod_status_update
lost_in_azure_example =
    lost_in_azure sdk provider 5 reporter web [] (plain "gone") refl refl refl refl refl
