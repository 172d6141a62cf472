-- ===== src/Protocol.antt =====
-- pkg/protocol/types.go: the records that master, worker and front end exchange, and
-- pkg/config/config.go's one setting that the model reads. Times are Unix seconds; `int`,
-- `int64` and `uint64` fields hold the nonnegative values that the program stores in them.
use ops_system.Prelude.{ℕ, String, Bool, List, Option}
use ops_system.Float64.{Float64}

pub record NodeInfo : Type 0 where
  pub ip : String
  pub port : ℕ
  pub hostname : String
  pub name : String
  pub mac_addr : String
  pub os : String
  pub arch : String
  pub cpu_cores : ℕ
  pub mem_total : ℕ
  pub disk_total : ℕ
  pub status : String
  pub last_heartbeat : ℕ
  pub cpu_usage : Float64
  pub mem_usage : Float64
  pub net_in_speed : Float64
  pub net_out_speed : Float64

pub record NodeStatus : Type 0 where
  pub cpu_usage : Float64
  pub mem_usage : Float64
  pub disk_usage : Float64
  pub net_in_speed : Float64
  pub net_out_speed : Float64
  pub uptime : ℕ
  pub time : ℕ

pub record RegisterRequest : Type 0 where
  pub port : ℕ
  pub info : NodeInfo
  pub status : NodeStatus

pub record SystemInfo : Type 0 where
  pub id : String
  pub name : String
  pub description : String
  pub create_time : ℕ

pub record InstanceInfo : Type 0 where
  pub id : String
  pub system_id : String
  pub node_ip : String
  pub service_name : String
  pub service_version : String
  pub status : String
  pub pid : ℕ
  pub uptime : ℕ
  pub cpu_usage : Float64
  pub mem_usage : ℕ
  pub io_read : ℕ
  pub io_write : ℕ

pub record InstanceStatusReport : Type 0 where
  pub instance_id : String
  pub status : String
  pub pid : ℕ
  pub uptime : ℕ
  pub cpu_usage : Float64
  pub mem_usage : ℕ
  pub io_read : ℕ
  pub io_write : ℕ

pub record SystemModule : Type 0 where
  pub id : String
  pub system_id : String
  pub module_name : String
  pub package_name : String
  pub package_version : String
  pub description : String

pub record SystemView : Type 0 where
  pub info : SystemInfo
  pub modules : List SystemModule
  pub instances : List InstanceInfo

pub record InstanceActionRequest : Type 0 where
  pub instance_id : String
  pub action : String

pub record AlertRule : Type 0 where
  pub id : ℕ
  pub name : String
  pub target_type : String
  pub metric : String
  pub condition : String
  pub threshold : Float64
  pub duration : ℕ
  pub enabled : Bool

pub record AlertEvent : Type 0 where
  pub id : ℕ
  pub rule_id : ℕ
  pub rule_name : String
  pub target_type : String
  pub target_id : String
  pub target_name : String
  pub metric_val : Float64
  pub message : String
  pub status : String
  pub start_time : ℕ
  pub end_time : Option ℕ  -- NULL until the alert is resolved

pub record DeployRequest : Type 0 where
  pub instance_id : String
  pub system_name : String
  pub service_name : String
  pub version : String
  pub download_url : String

pub record ExternalConfig : Type 0 where
  pub name : String
  pub work_dir : String
  pub start_cmd : String
  pub stop_cmd : String
  pub pid_strategy : String
  pub process_name : String

pub record RegisterExternalRequest : Type 0 where
  pub instance_id : String
  pub system_name : String
  pub config : ExternalConfig

pub record CommandRequest : Type 0 where
  pub command : String

-- A Go map of texts is an association list.
pub record ServiceManifest : Type 0 where
  pub name : String
  pub version : String
  pub entrypoint : String
  pub args : List String
  pub stop_entrypoint : String
  pub stop_args : List String
  pub env : List (String × String)
  pub log_paths : List (String × String)
  pub is_external : Bool
  pub external_work_dir : String
  pub pid_strategy : String
  pub process_name : String
  pub description : String
  pub os : String

pub record PackageInfo : Type 0 where
  pub name : String
  pub versions : List String
  pub last_upload : ℕ

pub record BackupFile : Type 0 where
  pub name : String
  pub size : ℕ
  pub create_time : ℕ
  pub with_files : Bool

pub record OpLog : Type 0 where
  pub id : ℕ
  pub operator : String
  pub action : String
  pub target_type : String
  pub target_name : String
  pub detail : String
  pub status : String
  pub create_time : ℕ

pub record LogQueryResp : Type 0 where
  pub total : ℕ
  pub list : List OpLog
