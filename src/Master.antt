-- ===== src/Master.antt =====
-- internal/master/api: the HTTP handlers of the master. A handler's argument is the decoded body,
-- none where the JSON decoder reports an error; what it reads elsewhere (the method, the client's
-- address, clocks, what the worker answers, which statement SQLite refuses) are further arguments.
-- A reply is its code and data; the texts of replies and the detail of a log line are left out.
pub mod NodeApi
pub mod InstanceApi
pub mod Batch
pub mod SystemApi
pub mod AlertApi
pub mod Deploying
pub mod Acting
pub mod Announced
pub mod Reported
use ops_system.Prelude.{ℕ, zero, String, List, [], ◌∷◌, Option, none, some, Bool, true, false}
use ops_system.Protocol.{
  NodeInfo, SystemInfo, SystemView, AlertRule, AlertEvent, InstanceActionRequest, DeployRequest,
  RegisterExternalRequest, CommandRequest, InstanceInfo,
}
use ops_system.Hub.{WsMessage, nodes_message, systems_message}
use ops_system.Instance.{InstanceManager}
use ops_system.Node.{NodeManager, get_all_nodes}
use ops_system.System.{SystemManager, get_full_view}
use ops_system.Alert.{AlertManager}
use ops_system.Code

-- the `data` of a reply or of a message to the browsers
pub data Payload : Type 0 where
  no_data : Payload
  pong : Payload
  nodes_data : List NodeInfo → Payload
  systems_data : List SystemView → Payload
  system_data : SystemInfo → Payload
  nothing_to_do : Payload
  done_counts : ℕ → ℕ → Payload  -- successes and failures of a batch
  output_data : String → String → Payload  -- output and error of a command
  rules_data : List AlertRule → Payload
  alerts_data : List AlertEvent → List AlertEvent → Payload

-- pkg/response
pub record Reply : Type 0 where
  pub code : ℕ
  pub body : Payload

abbrev pub reply_success : Payload → Reply
reply_success d = record { code = Code.success; body = d }

abbrev pub reply_error : ℕ → Reply
reply_error c = record { code = c; body = no_data }

-- what the master posts to a worker
pub data WorkerCommand : Type 0 where
  act : InstanceActionRequest → WorkerCommand
  deploy : DeployRequest → WorkerCommand
  adopt : RegisterExternalRequest → WorkerCommand
  exec : CommandRequest → WorkerCommand

pub record Post : Type 0 where
  pub ip : String
  pub port : ℕ
  pub command : WorkerCommand

-- a call of RecordLog
pub record LogEntry : Type 0 where
  pub operator : String
  pub action : String
  pub target_type : String
  pub target_name : String
  pub status : String

-- The managers, the messages put into the hub's channel, the requests sent to workers and the
-- lines logged, the latest first.
pub record ServerHandler : Type 0 where
  pub node_mgr : NodeManager
  pub inst_mgr : InstanceManager
  pub sys_mgr : SystemManager
  pub alert_mgr : AlertManager
  pub channel : List (WsMessage Payload)
  pub posts : List Post
  pub logs : List LogEntry

abbrev pub record_log : String → String → String → String → String → ServerHandler → ServerHandler
record_log operator action target_type target_name status h = record h {
  logs =
      record {
        operator = operator;
        action = action;
        target_type = target_type;
        target_name = target_name;
        status = status;
      }
      ∷ h.logs;
}

abbrev pub post : String → ℕ → WorkerCommand → ServerHandler → ServerHandler
post ip port command h = record h {
  posts = record { ip = ip; port = port; command = command } ∷ h.posts;
}

abbrev pub current_view : ServerHandler → List SystemView
current_view h = get_full_view h.inst_mgr h.sys_mgr

unfoldable pub broadcast_update : ServerHandler → ServerHandler
broadcast_update h = record h {
  channel = systems_message (systems_data (current_view h)) ∷ h.channel;
}

-- ws.BroadcastNodes(h.nodeMgr.GetAllNodes())
unfoldable pub broadcast_nodes : Bool → ℕ → ServerHandler → ServerHandler
broadcast_nodes fault now h = record h {
  channel = nodes_message (nodes_data (get_all_nodes fault now h.node_mgr)) ∷ h.channel;
}
