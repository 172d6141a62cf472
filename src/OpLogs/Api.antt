-- ===== src/OpLogs/Api.antt =====
-- internal/master/api/log_handler.go: GetOpLogs and GetInstanceLogFiles. A reply is its code and its
-- data.
use ops_system.Prelude.{
  ℕ, String, List, Option, none, some, Bool, ◌==◌, string_key, if◌then◌else◌, eqb,
}
use ops_system.Protocol.{OpLog, LogQueryResp, InstanceInfo}
use ops_system.Instance.{InstanceManager, get_instance}
use ops_system.Node.{NodeManager, NodeAddress, get_node}
use ops_system.OpLogs.{LogManager, get_logs}
use ops_system.Code

pub record LogFilesResp : Type 0 where
  pub instance_id : String
  pub files : List String

pub record LogQueryReq : Type 0 where
  pub page : ℕ
  pub page_size : ℕ
  pub keyword : String

pub data LogData : Type 0 where
  no_log_data : LogData
  log_page : LogQueryResp → LogData
  log_file_names : LogFilesResp → LogData

pub record LogReply : Type 0 where
  pub code : ℕ
  pub body : LogData

abbrev pub fail : ℕ → LogReply
fail c = record { code = c; body = no_log_data }

abbrev pub succeed : LogData → LogReply
succeed b = record { code = Code.success; body = b }

abbrev pub page_reply : Option LogQueryResp → LogReply
page_reply none = fail Code.database_error
page_reply (some r) = succeed (log_page r)

-- `order` is the query's ORDER BY
unfoldable pub get_op_logs :
    (List OpLog → List OpLog) → Bool → String → Option LogQueryReq → LogManager → LogReply
unfolding get_logs
get_op_logs order fault method none lm =
    if method == "POST" then fail Code.invalid_json else fail Code.method_not_allowed
get_op_logs order fault method (some req) lm =
    if method == "POST"
    then page_reply (get_logs order fault req.page req.page_size req.keyword lm)
    else fail Code.method_not_allowed

-- what the worker answers: none for a failed connection, else a status code and a decoded body
abbrev pub WorkerAnswer : Type 0
WorkerAnswer = Option (ℕ × Option LogFilesResp)

abbrev pub forward : WorkerAnswer → LogReply
forward none = fail Code.network_error
forward (some (status, none)) = fail Code.server_error
forward (some (status, some r)) =
    if eqb status 200 then succeed (log_file_names r) else fail Code.server_error

abbrev pub ask_node : (String → ℕ → String → WorkerAnswer) → String → Option NodeAddress → LogReply
ask_node ask id none = fail Code.node_offline
ask_node ask id (some node) = forward (ask node.ip node.port id)

abbrev pub ask_instance :
    (String → ℕ → String → WorkerAnswer)
    → (String → Option NodeAddress)
    → String
    → Option InstanceInfo
    → LogReply
ask_instance ask nodes id none = fail Code.instance_not_found
ask_instance ask nodes id (some inst) = ask_node ask id (nodes inst.node_ip)

-- `ask` is the request to the worker at an address; the faults are statements that SQLite refuses
unfoldable pub get_instance_log_files :
    (String → ℕ → String → WorkerAnswer)
    → Bool
    → Bool
    → String
    → InstanceManager
    → NodeManager
    → LogReply
unfolding get_instance get_node
get_instance_log_files ask read_fault node_fault id im nm =
    if id == ""
    then fail Code.param_error
    else ask_instance ask (λ ip. get_node node_fault ip nm) id (get_instance read_fault id im)
