-- ===== src/Tests/Requests.antt =====
-- The theorems on the handlers at concrete inputs.
use ops_system.Prelude.{
  String, ◌≡◌, refl, List, [], ◌∷◌, none, some, Bool, true, false, ◌==◌, string_key, if◌then◌else◌,
  ◌&&◌, ◌||◌, not,
}
use ops_system.Assoc.{lookup}
use ops_system.Table.{find}
use ops_system.Protocol.{InstanceInfo, InstanceActionRequest}
use ops_system.Node.{NodeAddress, get_node}
use ops_system.Instance.{get_instance, to_row}
use ops_system.Alert.{new_alert_manager}
use ops_system.Master.{ServerHandler, reply_success, reply_error, done_counts, deploy, current_view}
use ops_system.Master.InstanceApi.{
  DeployReq, new_instance, deploy_instance, instance_action, after_command, send_instance_command,
}
use ops_system.Master.Batch.{SystemActionReq, system_action, is_target}
use ops_system.Master.Deploying.{deploy_instance_lem}
use ops_system.Master.Acting.{instance_action_lem, system_action_lem}
use ops_system.Master.Announced.{
  Call, deploying, deleting, IsAnnounced, announced, run, run-IsAnnounced,
}
use ops_system.Tests.Nodes.{cluster}
use ops_system.Code

abbrev web : InstanceInfo
web = new_instance "inst-1" "sys-1" "10.0.0.1" "web" "1.0" "stopped"

abbrev pub master : ServerHandler
master = record {
  node_mgr = cluster;
  inst_mgr = record { rows = to_row web ∷ []; metrics_cache = [] };
  sys_mgr = record {
    systems = record { id = "sys-1"; name = "shop"; description = ""; create_time = 1 } ∷ [];
    modules = [];
  };
  alert_mgr = new_alert_manager [] 0 [] 0;
  channel = [];
  posts = [];
  logs = [];
}

abbrev order : DeployReq
order = record {
  system_id = "sys-1";
  node_ip = "10.0.0.1";
  service_name = "db";
  service_version = "2.0";
}

abbrev address : NodeAddress
address = record {
  ip = "10.0.0.1";
  port = 8081;
  hostname = "host-a";
  name = "host-a";
  mac_addr = "aa";
  status = "online";
}

deploy_instance_lem_example :
    let (after, reply) =
      deploy_instance false false false true "client" "7" (some "http://pkg") (some order) master in
    (get_instance false "inst-7" after.inst_mgr
      ≡ some (new_instance "inst-7" "sys-1" "10.0.0.1" "db" "2.0" "error"))
    × ((j : String)
        → (if "inst-7" == j
            then get_instance false j master.inst_mgr
            else get_instance false j after.inst_mgr)
          ≡ get_instance false j master.inst_mgr)
    × (after.posts
        ≡ record {
          ip = "10.0.0.1";
          port = 8081;
          command = deploy (record {
            instance_id = "inst-7";
            system_name = "sys-1";
            service_name = "db";
            version = "2.0";
            download_url = "http://pkg";
          });
        }
          ∷ [])
    × (reply ≡ reply_error Code.deploy_failed)
unfolding get_node find lookup
deploy_instance_lem_example =
    deploy_instance_lem true "client" "7" "http://pkg" order address master refl refl

abbrev destroy : InstanceActionRequest
destroy = record { instance_id = "inst-1"; action = "destroy" }

instance_action_lem_example :
    let (after, reply) = instance_action false false false false "client" (some destroy) master in
    (reply.code ≡ Code.success) × (get_instance false "inst-1" after.inst_mgr ≡ none)
unfolding get_instance get_node find lookup instance_action after_command send_instance_command
instance_action_lem_example = instance_action_lem false false false "client" destroy "inst-1" master

abbrev start_all : SystemActionReq
start_all = record { system_id = "sys-1"; action = "start" }

abbrev never : InstanceInfo → Bool
never i = false

system_action_lem_example :
    let (after, reply) = system_action false never never "client" (some start_all) master in
    (after.inst_mgr ≡ master.inst_mgr)
    × (reply ≡ reply_success (done_counts 1 0))
    × ((i : InstanceInfo)
        → is_target start_all.action i ≡ (
            start_all.action == "start" && not (i.status == "running")
            || (start_all.action == "stop" && i.status == "running")))
unfolding get_node find lookup
system_action_lem_example = system_action_lem never never "client" start_all master

abbrev requests : List Call
requests =
    deploying false false false false "client" "7" (some "http://pkg") (some order)
    ∷ deleting "client" (some "sys-1")
    ∷ []

run-IsAnnounced_example : IsAnnounced (current_view master) (run requests master)
unfolding announced
run-IsAnnounced_example = run-IsAnnounced (current_view master) requests master refl
