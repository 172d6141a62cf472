-- ===== src/Master/InstanceApi.antt =====
-- internal/master/api/instance_handler.go
use ops_system.Prelude.{String, Option, none, some, Bool, true, ◌==◌, string_key, if◌then◌else◌}
use ops_system.Protocol.{InstanceInfo, InstanceActionRequest, InstanceStatusReport, ExternalConfig}
use ops_system.Float64.{float_zero}
use ops_system.Node.{get_node, NodeAddress}
use ops_system.Instance.{
  register_instance, update_instance_status, update_instance_full_status, remove_instance,
  get_instance,
}
use ops_system.Master.{
  ServerHandler, Reply, reply_success, reply_error, no_data, act, deploy, adopt, post, record_log,
  broadcast_update,
}
use ops_system.Code
use Prim.Native.String.{◌++◌ as append}

-- `offline` is the fault of the query for the node, `post_fails` what PostJSON reports. The Boolean
-- of the result is the error.
unfoldable pub send_instance_command :
    Bool → Bool → InstanceInfo → String → ServerHandler → ServerHandler × Bool
send_instance_command offline post_fails inst action h =
    elim (get_node offline inst.node_ip h.node_mgr) [
      | none ↦ (h, true)
      | some node ↦ (
        post node.ip node.port (act (record { instance_id = inst.id; action = action })) h,
        post_fails,
      )
    ]

pub record DeployReq : Type 0 where
  pub system_id : String
  pub node_ip : String
  pub service_name : String
  pub service_version : String

-- the fields that the handlers leave out are Go's zero values
abbrev pub new_instance : String → String → String → String → String → String → InstanceInfo
new_instance id system_id node_ip service_name service_version status = record {
  id = id;
  system_id = system_id;
  node_ip = node_ip;
  service_name = service_name;
  service_version = service_version;
  status = status;
  pid = 0;
  uptime = 0;
  cpu_usage = float_zero;
  mem_usage = 0;
  io_read = 0;
  io_write = 0;
}

abbrev pub store_instance : Bool → InstanceInfo → ServerHandler → ServerHandler
store_instance fault inst h = record h { inst_mgr = register_instance fault inst h.inst_mgr }

-- UpdateInstanceStatus(id, "error", 0); the clock is read on the other branch only
abbrev pub mark_error : Bool → String → ServerHandler → ServerHandler
mark_error fault id h = record h {
  inst_mgr = update_instance_status fault 0 id "error" 0 h.inst_mgr;
}

-- from the request on, with a node and a URL
unfoldable pub deploy_on :
    Bool
    → Bool
    → Bool
    → String
    → String
    → String
    → DeployReq
    → NodeAddress
    → ServerHandler
    → ServerHandler × Reply
unfolding broadcast_update
deploy_on fault mark_fault post_fails client nanos url req node h =
    let id = append "inst-" nanos in
    let stored =
      store_instance fault
        (new_instance id req.system_id req.node_ip req.service_name req.service_version "deploying")
        h in
    let sent =
      post node.ip node.port
        (deploy (record {
          instance_id = id;
          system_name = req.system_id;
          service_name = req.service_name;
          version = req.service_version;
          download_url = url;
        }))
        (broadcast_update stored) in
    let log = record_log client "deploy_instance" "instance" req.service_name in
    if post_fails
    then (
      broadcast_update (log "fail" (mark_error mark_fault id sent)),
      reply_error Code.deploy_failed,
    )
    else (log "success" sent, reply_success no_data)

-- `nanos` is the clock in the new id, `download` the URL from the package manager, `mark_fault` the
-- fault of the statement that marks the error.
unfoldable pub deploy_instance :
    Bool
    → Bool
    → Bool
    → Bool
    → String
    → String
    → Option String
    → Option DeployReq
    → ServerHandler
    → ServerHandler × Reply
deploy_instance offline fault mark_fault post_fails client nanos download body h = elim body [
  | none ↦ (h, reply_error Code.invalid_json)
  | some req ↦ elim (get_node offline req.node_ip h.node_mgr) [
    | none ↦ (h, reply_error Code.node_offline)
    | some node ↦ elim download [
      | none ↦ (h, reply_error Code.package_not_found)
      | some url ↦ deploy_on fault mark_fault post_fails client nanos url req node h
    ]
  ]
]

pub record RegExtReq : Type 0 where
  pub system_id : String
  pub node_ip : String
  pub config : ExternalConfig

unfoldable pub adopt_on :
    Bool
    → Bool
    → Bool
    → String
    → String
    → RegExtReq
    → NodeAddress
    → ServerHandler
    → ServerHandler × Reply
unfolding broadcast_update
adopt_on fault mark_fault post_fails client nanos req node h =
    let id = append "ext-" nanos in
    let stored =
      store_instance fault
        (new_instance id req.system_id req.node_ip req.config.name "external" "stopped") h in
    let sent =
      post node.ip node.port
        (adopt (record { instance_id = id; system_name = req.system_id; config = req.config }))
        (broadcast_update stored) in
    if post_fails
    then (broadcast_update (mark_error mark_fault id sent), reply_error Code.deploy_failed)
    else (
      record_log client "adopt_instance" "instance" req.config.name "success" sent,
      reply_success no_data,
    )

unfoldable pub register_external :
    Bool
    → Bool
    → Bool
    → Bool
    → String
    → String
    → Option RegExtReq
    → ServerHandler
    → ServerHandler × Reply
register_external offline fault mark_fault post_fails client nanos body h = elim body [
  | none ↦ (h, reply_error Code.invalid_json)
  | some req ↦ elim (get_node offline req.node_ip h.node_mgr) [
    | none ↦ (h, reply_error Code.node_offline)
    | some node ↦ adopt_on fault mark_fault post_fails client nanos req node h
  ]
]

-- after the command: destroy also removes the instance, `fault` is that of the DELETE
unfoldable pub after_command :
    Bool
    → String
    → InstanceActionRequest
    → InstanceInfo
    → ServerHandler × Bool
    → ServerHandler × Reply
unfolding broadcast_update
after_command fault client req inst (sent, err) =
    let log = record_log client (append req.action "_instance") "instance" inst.service_name in
    if err
    then (log "fail" sent, reply_error Code.action_failed)
    else if req.action == "destroy"
    then (
      log "success" (
          broadcast_update
            (record sent { inst_mgr = remove_instance fault req.instance_id sent.inst_mgr })),
      reply_success no_data,
    )
    else (log "success" sent, reply_success no_data)

-- `read_fault` is the fault of the query for the instance.
unfoldable pub instance_action :
    Bool
    → Bool
    → Bool
    → Bool
    → String
    → Option InstanceActionRequest
    → ServerHandler
    → ServerHandler × Reply
instance_action read_fault offline fault post_fails client body h = elim body [
  | none ↦ (h, reply_error Code.invalid_json)
  | some req ↦ elim (get_instance read_fault req.instance_id h.inst_mgr) [
    | none ↦ (h, reply_error Code.instance_not_found)
    | some inst ↦
        after_command fault client req inst
          (send_instance_command offline post_fails inst req.action h)
  ]
]

unfoldable pub worker_status_report :
    Bool → Option InstanceStatusReport → ServerHandler → ServerHandler × Reply
unfolding broadcast_update
worker_status_report fault body h = elim body [
  | none ↦ (h, reply_error Code.invalid_json)
  | some report ↦ (
    broadcast_update (record h { inst_mgr = update_instance_full_status fault report h.inst_mgr }),
    reply_success no_data,
  )
]
