-- ===== src/Master/NodeApi.antt =====
-- internal/master/api/node_handler.go. `now` is the clock that GetAllNodes reads and `list_fault`
-- the fault of its query.
use ops_system.Prelude.{
  ℕ, String, Option, none, some, Bool, ◌==◌, string_key, if◌then◌else◌, ◌&&◌, ◌||◌, not,
}
use ops_system.Protocol.{RegisterRequest}
use ops_system.Node.{
  NodeManager, NodeError, get_node, get_all_nodes, handle_heartbeat, add_planned_node, delete_node,
  rename_node, reset_node_name,
}
use ops_system.Master.{
  ServerHandler, Reply, reply_success, reply_error, no_data, pong, nodes_data, output_data, exec,
  post, record_log, broadcast_nodes,
}
use ops_system.Code

-- The address under which the heartbeat is stored: the connection's, or the one that the worker
-- names where the connection is local.
unfoldable pub heartbeat_ip : String → String → String
heartbeat_ip remote_ip info_ip =
    if (remote_ip == "127.0.0.1" || remote_ip == "::1")
      && (not (info_ip == "") && not (info_ip == "127.0.0.1"))
    then info_ip
    else remote_ip

-- The clocks and faults of the heartbeat itself are those of `handle_heartbeat`.
unfoldable pub receive_heartbeat :
    Bool
    → Bool
    → Bool
    → ℕ
    → ℕ
    → ℕ
    → ℕ
    → Bool
    → String
    → Option RegisterRequest
    → ServerHandler
    → ServerHandler × Reply
unfolding broadcast_nodes
receive_heartbeat query_fault fault list_fault cpu_now mem_now beat_now now is_post remote_ip
      request h =
    if not is_post then (h, reply_error Code.method_not_allowed) else elim request [
      | none ↦ (h, reply_error Code.invalid_json)
      | some req ↦ (
        broadcast_nodes list_fault now (record h {
          node_mgr =
              handle_heartbeat query_fault fault cpu_now mem_now beat_now req
                (heartbeat_ip remote_ip req.info.ip) h.node_mgr;
        }),
        reply_success pong,
      )
    ]

unfoldable pub list_nodes : Bool → ℕ → ServerHandler → Reply
list_nodes list_fault now h = reply_success (nodes_data (get_all_nodes list_fault now h.node_mgr))

-- what the four handlers below do with the manager's result
unfoldable pub finish :
    Bool
    → ℕ
    → ℕ
    → String
    → String
    → String
    → NodeManager × Option NodeError
    → ServerHandler
    → ServerHandler × Reply
unfolding broadcast_nodes
finish list_fault now error client action ip (nodes, err) h =
    let changed : ServerHandler = record h { node_mgr = nodes } in
    elim err [
      | none ↦ (
        broadcast_nodes list_fault now (record_log client action "node" ip "success" changed),
        reply_success no_data,
      )
      | some _ ↦ (changed, reply_error error)
    ]

-- the body of AddNode and RenameNode
pub record NamedNode : Type 0 where
  pub ip : String
  pub name : String

unfoldable pub add_node :
    Bool → Bool → Bool → ℕ → String → Option NamedNode → ServerHandler → ServerHandler × Reply
add_node query_fault fault list_fault now client request h = elim request [
  | none ↦ (h, reply_error Code.invalid_json)
  | some req ↦
      finish list_fault now Code.node_register_failed client "add_node" req.ip
        (add_planned_node query_fault fault req.ip req.name h.node_mgr) h
]

unfoldable pub remove_node :
    Bool → Bool → Bool → ℕ → String → Option String → ServerHandler → ServerHandler × Reply
remove_node query_fault fault list_fault now client request h = elim request [
  | none ↦ (h, reply_error Code.invalid_json)
  | some ip ↦
      finish list_fault now Code.database_error client "delete_node" ip
        (delete_node query_fault fault ip h.node_mgr) h
]

unfoldable pub change_name :
    Bool → Bool → ℕ → String → Option NamedNode → ServerHandler → ServerHandler × Reply
change_name fault list_fault now client request h = elim request [
  | none ↦ (h, reply_error Code.invalid_json)
  | some req ↦
      finish list_fault now Code.database_error client "rename_node" req.ip
        (rename_node fault req.ip req.name h.node_mgr) h
]

unfoldable pub reset_name :
    Bool → Bool → ℕ → String → Option String → ServerHandler → ServerHandler × Reply
reset_name fault list_fault now client request h = elim request [
  | none ↦ (h, reply_error Code.invalid_json)
  | some ip ↦
      finish list_fault now Code.database_error client "reset_node_name" ip
        (reset_node_name fault ip h.node_mgr) h
]

pub record TriggerReq : Type 0 where
  pub target_ip : String
  pub command : String

-- what the worker answers to a command: no answer, one that is not JSON, or output and error
pub data Answer : Type 0 where
  unreachable : Answer
  garbled : Answer
  answered : String → String → Answer

unfoldable pub conclude : String → String → Answer → ServerHandler → ServerHandler × Reply
conclude client ip unreachable h =
    (record_log client "exec_cmd" "node" ip "fail" h, reply_error Code.node_exec_failed)
conclude client ip garbled h = (h, reply_error Code.node_exec_failed)
conclude client ip (answered output error) h = (
  record_log client "exec_cmd" "node" ip (if not (error == "") then "fail" else "success") h,
  reply_success (output_data output error),
)

unfoldable pub trigger_cmd :
    Bool → String → Answer → Option TriggerReq → ServerHandler → ServerHandler × Reply
trigger_cmd offline client answer request h = elim request [
  | none ↦ (h, reply_error Code.invalid_json)
  | some trigger ↦ elim (get_node offline trigger.target_ip h.node_mgr) [
    | none ↦ (h, reply_error Code.node_not_found)
    | some node ↦
        conclude client trigger.target_ip answer
          (post node.ip node.port (exec (record { command = trigger.command })) h)
  ]
]
