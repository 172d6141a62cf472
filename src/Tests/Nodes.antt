-- ===== src/Tests/Nodes.antt =====
-- The theorems on the nodes at concrete inputs.
use ops_system.Prelude.{◌≡◌, refl, List, [], ◌∷◌, none, some, Bool, true, false, string_key, inl}
use ops_system.Table.{find}
use ops_system.Float64.{float_zero, float_one}
use ops_system.Protocol.{NodeInfo, RegisterRequest}
use ops_system.Node.{
  NodeManager, first_row, get_node, get_all_nodes, handle_heartbeat, add_planned_node, delete_node,
  scan_node,
}
use ops_system.Node.Heartbeat.{get_node-handle_heartbeat, get_node-delete_node}
use ops_system.Node.Listing.{heartbeat_shown, kept_name, node_ip}
use ops_system.Node.Invariant.{
  heartbeat, plan, drop_node, rename, IsValid, run-IsValid, listed-status,
}
use ops_system.Node.Invariant
use ops_system.Node.Planned.{planned_hidden}

abbrev pub info : NodeInfo
info = record {
  ip = "10.0.0.1";
  port = 0;
  hostname = "host-a";
  name = "";
  mac_addr = "aa";
  os = "linux";
  arch = "amd64";
  cpu_cores = 4;
  mem_total = 8;
  disk_total = 100;
  status = "";
  last_heartbeat = 0;
  cpu_usage = float_zero;
  mem_usage = float_zero;
  net_in_speed = float_zero;
  net_out_speed = float_zero;
}

abbrev pub beat : RegisterRequest
beat = record {
  port = 8081;
  info = info;
  status = record {
    cpu_usage = float_one;
    mem_usage = float_one;
    disk_usage = float_zero;
    net_in_speed = float_one;
    net_out_speed = float_zero;
    uptime = 5;
    time = 50;
  };
}

abbrev pub cluster : NodeManager
cluster = record {
  rows = first_row 40 beat "10.0.0.1" ∷ [];
  metrics_cache = [];
  tsdb = none;
  offline_threshold = 30;
}

abbrev empty_cluster : NodeManager
empty_cluster = record { rows = []; metrics_cache = []; tsdb = none; offline_threshold = 30 }

get_node-handle_heartbeat_example :
    get_node false "10.0.0.2" (handle_heartbeat false false 50 50 50 beat "10.0.0.2" empty_cluster)
    ≡ some (record {
      ip = "10.0.0.2";
      port = 8081;
      hostname = "host-a";
      name = "host-a";
      mac_addr = "aa";
      status = "online";
    })
unfolding get_node find
get_node-handle_heartbeat_example =
    get_node-handle_heartbeat 50 50 50 beat "10.0.0.2" "10.0.0.2" empty_cluster

get_node-delete_node_example :
    (get_node false "10.0.0.1" (delete_node false false "10.0.0.1" cluster).0 ≡ none)
    × ((delete_node false false "10.0.0.1" cluster).1 ≡ none)
unfolding get_node find
get_node-delete_node_example = get_node-delete_node "10.0.0.1" "10.0.0.1" cluster

heartbeat_shown_example :
    let nm' = handle_heartbeat false false 50 50 50 beat "10.0.0.1" cluster in
    (n : NodeInfo) × (find node_ip "10.0.0.1" (get_all_nodes false 100 nm') ≡ some n)
    × (n.status ≡ "offline")
    × (n.cpu_usage ≡ float_zero)
    × (n.mem_usage ≡ float_zero)
    × (n.net_in_speed ≡ float_one)
    × (n.net_out_speed ≡ float_zero)
    × (n.name ≡ kept_name beat (get_node false "10.0.0.1" cluster))
unfolding find
heartbeat_shown_example = heartbeat_shown 50 50 50 100 beat "10.0.0.1" cluster (refl, tt)

abbrev history : List (Bool × Bool × Invariant.Call)
history =
    (false, false, plan "10.0.0.2" "b")
    ∷ (false, false, heartbeat 50 50 50 beat "10.0.0.2")
    ∷ (false, true, drop_node "10.0.0.2")
    ∷ []

run-IsValid_example : IsValid (Invariant.run history cluster).rows
unfolding find scan_node
run-IsValid_example =
    run-IsValid history cluster
      (record { distinct = (refl, tt); settled = (inl (refl, (_, _, refl, refl)), tt) })

abbrev quiet_history : List (Bool × Bool × Invariant.Call)
quiet_history =
    (false, false, rename "10.0.0.9" "renamed")
    ∷ (false, false, heartbeat 50 50 50 beat "10.0.0.1")
    ∷ []

planned_hidden_example :
    ((add_planned_node false false "10.0.0.9" "new" cluster).1 ≡ none)
    × (find node_ip "10.0.0.9" (
          get_all_nodes false 60
            (Invariant.run quiet_history (add_planned_node false false "10.0.0.9" "new" cluster).0))
        ≡ none)
unfolding get_node find
planned_hidden_example =
    planned_hidden "10.0.0.9" "new" quiet_history 60 cluster
      (record { distinct = (refl, tt); settled = (inl (refl, (_, _, refl, refl)), tt) }) refl
      (tt, (refl, tt))
