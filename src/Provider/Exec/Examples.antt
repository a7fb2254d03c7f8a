-- ===== src/Provider/Exec/Examples.antt =====
-- A session in the group `web_group`: two inputs, two messages of which the copy of the second fails.
use azure_aci.Prelude.{
  String, true, false, none, some, List, [], ◌∷◌, ◌≡◌, refl, ok, err, plain, arith,
}
use azure_aci.Prelude.Io.{pure}
use azure_aci.Samples.{outside, web_group}
use azure_aci.Provider.{AciProvider, AzClients}
use azure_aci.Provider.Exec.{
  Session, Turn, cancel, input, output, take_turns, Terminal, open_terminal, run_in_container,
  execute_container_command, connect,
}
use azure_aci.Provider.Exec.Copied.{take_turns-delivered}
use azure_aci.Provider.Exec.Sent.{IsInOrder, take_turns-IsInOrder}
use azure_aci.Provider.Exec.Opened.{run_in_container-ends}

abbrev session : Session
session = record {
  is_done = false;
  inputs =
      record { bytes = 1 ∷ 2 ∷ []; failed = false; accepted = true }
      ∷ record { bytes = 3 ∷ []; failed = true; accepted = true }
      ∷ [];
  reading = true;
  sent = [];
  frames =
      record { bytes = 7 ∷ 8 ∷ []; cut = none } ∷ record { bytes = 9 ∷ 10 ∷ []; cut = some 1 } ∷ [];
  copying = true;
  written = [];
}

abbrev turns : List Turn
turns = output ∷ input ∷ input ∷ output ∷ output ∷ []

-- The byte that came with the failure of the second read is not sent.
only_first_read : (take_turns turns session).sent ≡ (1 ∷ 2 ∷ []) ∷ []
unfolding take_turns
only_first_read = refl

take_turns-delivered_example :
    ((take_turns (cancel ∷ turns) session).written ≡ 7 ∷ 8 ∷ 9 ∷ [])
    × ((take_turns (cancel ∷ turns) session).copying ≡ false)
take_turns-delivered_example = take_turns-delivered (cancel ∷ turns) session refl (omega arith)

take_turns-IsInOrder_example : IsInOrder (1 ∷ 2 ∷ 3 ∷ []) (take_turns turns session)
take_turns-IsInOrder_example = take_turns-IsInOrder turns session

-- The world is the texts that were sent.
abbrev World : Type 0
World = List String

abbrev clients : AzClients World
clients = record {
  get_container_group_info = λ rg ns name node. pure (some web_group);
  get_container_group_list_result = λ rg. pure none;
  delete_container_group = λ rg name. pure tt;
  list_logs = λ rg name c tail. pure none;
}

abbrev provider : AciProvider World
provider = record {
  az_clients = clients;
  get_pod = λ name namespace w. err (plain "unknown");
  outside = outside;
  resource_group = "rg";
  node_name = "vk";
  node_name_address = 1;
  internal_ip = "10.1.1.1";
  tracker = none;
}

abbrev terminal : Terminal World
terminal = record {
  context_error = plain "context canceled";
  execute_command =
      λ rg name c request. pure (record { web_socket_uri = some "ws"; password = some "key" });
  dial = λ uri. pure tt;
  write_text = λ text w. (ok tt, text ∷ w);
}

opened :
    open_terminal terminal provider "ns" "web" "app" ("ls" ∷ "-l" ∷ []) [] ≡ (ok tt, "key" ∷ [])
unfolding open_terminal execute_container_command connect
opened = refl

run_in_container-ends_example :
    run_in_container terminal provider "ns" "web" "app"
      ("ls" ∷ "-l" ∷ [])
      session
      (output ∷ cancel ∷ turns)
      []
    ≡ (err (plain "context canceled"), "key" ∷ [])
run_in_container-ends_example =
    run_in_container-ends terminal provider "ns" "web" "app" ("ls" ∷ "-l" ∷ []) session
      (output ∷ cancel ∷ turns) [] ("key" ∷ []) opened refl (omega arith)
