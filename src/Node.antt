-- ===== src/Node.antt =====
-- internal/master/manager/node_manager.go: the table `node_infos`, the cache of live metrics and
-- the time series that heartbeats feed. `fault` arguments say which statement SQLite refuses.
pub mod Heartbeat
pub mod Listing
pub mod Invariant
pub mod Planned
use ops_system.Prelude.{
  ℕ, ◌+◌, String, List, [], ◌∷◌, Option, none, some, Bool, true, false, ◌&&◌, ◌==◌, string_key, ltb,
  leb, if◌then◌else◌,
}
use ops_system.Assoc.{Assoc}
use ops_system.Assoc
use ops_system.Table.{exec, find, delete, update, insert}
use ops_system.Float64.{Float64, float_zero}
use ops_system.Protocol.{NodeInfo, RegisterRequest}
use ops_system.Tsdb.{MemoryTsdb, write}
use mathlib.Core.Option

-- a row of `node_infos`; none is NULL, in the columns that AddPlannedNode leaves out
pub record NodeRow : Type 0 where
  pub ip : String
  pub port : ℕ
  pub hostname : String
  pub name : String
  pub mac_addr : Option String
  pub os : Option String
  pub arch : Option String
  pub cpu_cores : Option ℕ
  pub mem_total : Option ℕ
  pub disk_total : Option ℕ
  pub status : String
  pub last_heartbeat : Option ℕ

pub record NodeMetrics : Type 0 where
  pub cpu_usage : Float64
  pub mem_usage : Float64
  pub net_in_speed : Float64
  pub net_out_speed : Float64

pub record NodeManager : Type 0 where
  pub rows : List NodeRow
  pub metrics_cache : Assoc String NodeMetrics
  pub tsdb : Option MemoryTsdb
  pub offline_threshold : ℕ  -- seconds

pub data NodeError : Type 0 where
  db_error no_rows ip_exists : NodeError

abbrev pub row_ip : NodeRow → String
row_ip r = r.ip

unfoldable pub new_node_manager : List NodeRow → Option MemoryTsdb → ℕ → NodeManager
new_node_manager db tsdb threshold = record {
  rows = db;
  metrics_cache = [];
  tsdb = tsdb;
  offline_threshold = threshold;
}

abbrev pub request_metrics : RegisterRequest → NodeMetrics
request_metrics req = record {
  cpu_usage = req.status.cpu_usage;
  mem_usage = req.status.mem_usage;
  net_in_speed = req.status.net_in_speed;
  net_out_speed = req.status.net_out_speed;
}

-- both Write calls, each with the clock that it reads
abbrev pub record_usage : ℕ → ℕ → String → RegisterRequest → MemoryTsdb → MemoryTsdb
record_usage cpu_now mem_now ip req db =
    write mem_now ip "node_mem_usage" req.status.mem_usage
      (write cpu_now ip "node_cpu_usage" req.status.cpu_usage db)

-- the row of the INSERT: the name is the host name
abbrev pub first_row : ℕ → RegisterRequest → String → NodeRow
first_row now req ip = record {
  ip = ip;
  port = req.port;
  hostname = req.info.hostname;
  name = req.info.hostname;
  mac_addr = some req.info.mac_addr;
  os = some req.info.os;
  arch = some req.info.arch;
  cpu_cores = some req.info.cpu_cores;
  mem_total = some req.info.mem_total;
  disk_total = some req.info.disk_total;
  status = "online";
  last_heartbeat = some now;
}

-- the SET clause of the UPDATE: all columns but ip and name
abbrev pub refresh_row : ℕ → RegisterRequest → NodeRow → NodeRow
refresh_row now req r = record r {
  port = req.port;
  hostname = req.info.hostname;
  mac_addr = some req.info.mac_addr;
  os = some req.info.os;
  arch = some req.info.arch;
  cpu_cores = some req.info.cpu_cores;
  mem_total = some req.info.mem_total;
  disk_total = some req.info.disk_total;
  status = "online";
  last_heartbeat = some now;
}

-- INSERT where a violated key leaves the table as it was
abbrev pub insert_or_keep : NodeRow → List NodeRow → List NodeRow
insert_or_keep r rows = Option.get_or (insert row_ip r rows) rows

-- An error of the query other than "no rows" goes to the UPDATE.
unfoldable pub heartbeat_rows :
    Bool → Bool → ℕ → RegisterRequest → String → List NodeRow → List NodeRow
heartbeat_rows query_fault fault now req ip rows =
    if query_fault
    then exec fault (update row_ip ip (refresh_row now req)) rows
    else elim (find row_ip ip rows) [
      | none ↦ exec fault (insert_or_keep (first_row now req ip)) rows
      | some _ ↦ exec fault (update row_ip ip (refresh_row now req)) rows
    ]

unfoldable pub handle_heartbeat :
    Bool → Bool → ℕ → ℕ → ℕ → RegisterRequest → String → NodeManager → NodeManager
handle_heartbeat query_fault fault cpu_now mem_now now req ip nm = record nm {
  metrics_cache = Assoc.insert ip (request_metrics req) nm.metrics_cache;
  tsdb = Option.map (record_usage cpu_now mem_now ip req) nm.tsdb;
  rows = heartbeat_rows query_fault fault now req ip nm.rows;
}

abbrev pub planned_row : String → String → NodeRow
planned_row ip name = record {
  ip = ip;
  port = 0;
  hostname = "待接入";
  name = name;
  mac_addr = none;
  os = none;
  arch = none;
  cpu_cores = none;
  mem_total = none;
  disk_total = none;
  status = "planned";
  last_heartbeat = none;
}

-- A refused count query leaves `count` at 0.
unfoldable pub add_planned_node :
    Bool → Bool → String → String → NodeManager → NodeManager × Option NodeError
add_planned_node query_fault fault ip name nm =
    let insertion : Option (List NodeRow) =
      if fault then none else insert row_ip (planned_row ip name) nm.rows in
    let inserted : NodeManager × Option NodeError = elim insertion [
      | none ↦ (nm, some db_error)
      | some rows ↦ (record nm { rows = rows }, none)
    ] in
    if query_fault
    then inserted
    else elim (find row_ip ip nm.rows) [ none ↦ inserted | some _ ↦ (nm, some ip_exists) ]

-- The test on "online" has an empty body.
unfoldable pub delete_node : Bool → Bool → String → NodeManager → NodeManager × Option NodeError
delete_node query_fault fault ip nm =
    if query_fault then (nm, some db_error) else elim (find row_ip ip nm.rows) [
      | none ↦ (nm, some no_rows)
      | some _ ↦ (
        record nm {
          rows = exec fault (delete row_ip ip) nm.rows;
          metrics_cache = Assoc.erase ip nm.metrics_cache;
        },
        if fault then some db_error else none,
      )
    ]

unfoldable pub rename_node : Bool → String → String → NodeManager → NodeManager × Option NodeError
rename_node fault ip new_name nm = (
  record nm { rows = exec fault (update row_ip ip (λ r. record r { name = new_name })) nm.rows },
  if fault then some db_error else none,
)

unfoldable pub reset_node_name : Bool → String → NodeManager → NodeManager × Option NodeError
reset_node_name fault ip nm = (
  record nm { rows = exec fault (update row_ip ip (λ r. record r { name = r.hostname })) nm.rows },
  if fault then some db_error else none,
)

-- rows.Scan: a NULL fails at a Go string or int64; COALESCE takes care of five columns, and not of
-- `os` and `last_heartbeat`.
unfoldable pub scan_node : NodeRow → Option NodeInfo
scan_node r = elim r.os [
  | none ↦ none
  | some os ↦ elim r.last_heartbeat [
    | none ↦ none
    | some last_heartbeat ↦ some (record {
      ip = r.ip;
      port = r.port;
      hostname = r.hostname;
      name = r.name;
      mac_addr = Option.get_or r.mac_addr "";
      os = os;
      arch = Option.get_or r.arch "";
      cpu_cores = Option.get_or r.cpu_cores 0;
      mem_total = Option.get_or r.mem_total 0;
      disk_total = Option.get_or r.disk_total 0;
      status = r.status;
      last_heartbeat = last_heartbeat;
      cpu_usage = float_zero;
      mem_usage = float_zero;
      net_in_speed = float_zero;
      net_out_speed = float_zero;
    })
  ]
]

abbrev pub add_node_metrics : Option NodeMetrics → NodeInfo → NodeInfo
add_node_metrics none n = n
add_node_metrics (some m) n = record n {
  cpu_usage = m.cpu_usage;
  mem_usage = m.mem_usage;
  net_in_speed = m.net_in_speed;
  net_out_speed = m.net_out_speed;
}

-- now - last_heartbeat > threshold, on int64
abbrev pub is_stale : ℕ → ℕ → NodeInfo → Bool
is_stale now threshold n = ltb (n.last_heartbeat + threshold) now

unfoldable pub judge : ℕ → ℕ → NodeInfo → NodeInfo
judge now threshold n =
    if n.status == "online" && is_stale now threshold n
    then record n { status = "offline"; cpu_usage = float_zero; mem_usage = float_zero }
    else n

-- the body of the loop, after Scan
abbrev pub present : ℕ → NodeManager → NodeInfo → NodeInfo
present now nm n =
    judge now nm.offline_threshold (add_node_metrics (Assoc.lookup n.ip nm.metrics_cache) n)

unfoldable pub load_nodes : ℕ → NodeManager → List NodeRow → List NodeInfo
load_nodes now nm [] = []
load_nodes now nm (r ∷ rows) = elim (scan_node r) [
  | none ↦ load_nodes now nm rows
  | some n ↦ present now nm n ∷ load_nodes now nm rows
]

unfoldable pub get_all_nodes : Bool → ℕ → NodeManager → List NodeInfo
get_all_nodes fault now nm = if fault then [] else load_nodes now nm nm.rows

-- address, port, names, MAC and status: the columns that the query of GetNode reads
pub record NodeAddress : Type 0 where
  pub ip : String
  pub port : ℕ
  pub hostname : String
  pub name : String
  pub mac_addr : String
  pub status : String

unfoldable pub get_node : Bool → String → NodeManager → Option NodeAddress
get_node fault ip nm =
    if fault
    then none
    else Option.map
        (λ (r : NodeRow). record {
          ip = r.ip;
          port = r.port;
          hostname = r.hostname;
          name = r.name;
          mac_addr = Option.get_or r.mac_addr "";
          status = r.status;
        })
        (find row_ip ip nm.rows)

unfoldable pub index_nodes : List NodeInfo → Assoc String NodeInfo → Assoc String NodeInfo
index_nodes [] res = res
index_nodes (n ∷ ns) res = index_nodes ns (Assoc.insert n.ip n res)

unfoldable pub get_all_nodes_metrics : Bool → ℕ → NodeManager → Assoc String NodeInfo
get_all_nodes_metrics fault now nm = index_nodes (get_all_nodes fault now nm) []
