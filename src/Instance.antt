-- ===== src/Instance.antt =====
-- internal/master/manager/instance_manager.go: the table `instance_infos` and the cache of live
-- metrics. Each method holds `mu` for its statements, so a call is one step; `fault` says that
-- SQLite refuses the statement, an error that the methods without an error result drop.
pub mod Grouping
pub mod Laws
pub mod Invariant
pub mod Snapshot
use ops_system.Prelude.{
  ℕ, String, List, [], ◌∷◌, ◌++◌, map, Option, none, some, Bool, false, ◌==◌, string_key,
  if◌then◌else◌, keep,
}
use ops_system.Assoc.{Assoc, lookup, insert, erase}
use ops_system.Table.{exec, find, delete, update, replace}
use ops_system.Float64.{Float64, float_zero}
use ops_system.Protocol.{InstanceInfo, InstanceStatusReport}
use mathlib.Core.Option

-- a row of `instance_infos`
pub record InstanceRow : Type 0 where
  pub id : String
  pub system_id : String
  pub node_ip : String
  pub service_name : String
  pub service_version : String
  pub status : String
  pub pid : ℕ
  pub uptime : ℕ

pub record RealTimeMetrics : Type 0 where
  pub cpu_usage : Float64
  pub mem_usage : ℕ
  pub io_read : ℕ
  pub io_write : ℕ

pub record InstanceManager : Type 0 where
  pub rows : List InstanceRow
  pub metrics_cache : Assoc String RealTimeMetrics

abbrev pub row_id : InstanceRow → String
row_id r = r.id

unfoldable pub new_instance_manager : List InstanceRow → InstanceManager
new_instance_manager db = record { rows = db; metrics_cache = [] }

-- the columns that RegisterInstance writes
abbrev pub to_row : InstanceInfo → InstanceRow
to_row inst = record {
  id = inst.id;
  system_id = inst.system_id;
  node_ip = inst.node_ip;
  service_name = inst.service_name;
  service_version = inst.service_version;
  status = inst.status;
  pid = inst.pid;
  uptime = inst.uptime;
}

unfoldable pub register_instance : Bool → InstanceInfo → InstanceManager → InstanceManager
register_instance fault inst im = record im {
  rows = exec fault (replace row_id (to_row inst)) im.rows;
}

-- `now` is time.Now().Unix()
unfoldable pub update_instance_status :
    Bool → ℕ → String → String → ℕ → InstanceManager → InstanceManager
update_instance_status fault now id status pid im =
    if status == "running"
    then record im {
      rows =
          exec fault (update row_id id (λ r. record r { status = status; pid = pid; uptime = now }))
            im.rows;
    }
    else record {
      rows =
          exec fault (update row_id id (λ r. record r { status = status; pid = pid; uptime = 0 }))
            im.rows;
      metrics_cache = erase id im.metrics_cache;
    }

abbrev pub report_metrics : InstanceStatusReport → RealTimeMetrics
report_metrics r = record {
  cpu_usage = r.cpu_usage;
  mem_usage = r.mem_usage;
  io_read = r.io_read;
  io_write = r.io_write;
}

-- The statement runs under `mu`, the store into the cache after it.
unfoldable pub report_row : Bool → InstanceStatusReport → InstanceManager → InstanceManager
report_row fault report im = record im {
  rows =
      exec fault
        (update row_id report.instance_id
          λ r. record r { status = report.status; pid = report.pid; uptime = report.uptime })
        im.rows;
}

unfoldable pub report_cache : InstanceStatusReport → InstanceManager → InstanceManager
report_cache report im = record im {
  metrics_cache = insert report.instance_id (report_metrics report) im.metrics_cache;
}

unfoldable pub update_instance_full_status :
    Bool → InstanceStatusReport → InstanceManager → InstanceManager
unfolding report_row report_cache
update_instance_full_status fault report im = report_cache report (report_row fault report im)

unfoldable pub remove_instance : Bool → String → InstanceManager → InstanceManager
remove_instance fault id im = record {
  rows = exec fault (delete row_id id) im.rows;
  metrics_cache = erase id im.metrics_cache;
}

-- the record that Scan fills: no metrics yet
abbrev pub scan_row : InstanceRow → InstanceInfo
scan_row r = record {
  id = r.id;
  system_id = r.system_id;
  node_ip = r.node_ip;
  service_name = r.service_name;
  service_version = r.service_version;
  status = r.status;
  pid = r.pid;
  uptime = r.uptime;
  cpu_usage = float_zero;
  mem_usage = 0;
  io_read = 0;
  io_write = 0;
}

abbrev pub add_metrics : Option RealTimeMetrics → InstanceInfo → InstanceInfo
add_metrics none i = i
add_metrics (some m) i = record i {
  cpu_usage = m.cpu_usage;
  mem_usage = m.mem_usage;
  io_read = m.io_read;
  io_write = m.io_write;
}

-- the body of the loops over rows: Scan, then the cached metrics
abbrev pub load : InstanceManager → InstanceRow → InstanceInfo
load im r = add_metrics (lookup r.id im.metrics_cache) (scan_row r)

unfoldable pub get_instance : Bool → String → InstanceManager → Option InstanceInfo
get_instance fault id im =
    if fault
    then none
    else Option.map (λ r. add_metrics (lookup id im.metrics_cache) (scan_row r))
        (find row_id id im.rows)

-- none is the error of the query
unfoldable pub get_system_instances : Bool → String → InstanceManager → Option (List InstanceInfo)
get_system_instances fault system_id im =
    if fault then none else some (map (load im) (keep (λ r. r.system_id == system_id) im.rows))

abbrev pub or_empty {ℓ} : {A : Type ℓ} → Option (List A) → List A
or_empty none = []
or_empty (some xs) = xs

-- m[k] = append(m[k], v)
unfoldable pub push {ℓ} : {V : Type ℓ} → String → V → Assoc String (List V) → Assoc String (List V)
push k v m = insert k (or_empty (lookup k m) ++ v ∷ []) m

-- for rows.Next() { m[key(v)] = append(m[key(v)], v) }
unfoldable pub group {ℓ} :
    {V : Type ℓ} → (V → String) → List V → Assoc String (List V) → Assoc String (List V)
unfolding push
group key [] m = m
group key (v ∷ vs) m = group key vs (push (key v) v m)

unfoldable pub get_all_instances : InstanceManager → Assoc String (List InstanceInfo)
unfolding group
get_all_instances im = group (λ i. i.system_id) (map (load im) im.rows) []

-- for rows.Next() { cache.Delete(id) }
unfoldable pub erase_rows {ℓ} : {V : Type ℓ} → List InstanceRow → Assoc String V → Assoc String V
erase_rows [] cache = cache
erase_rows (r ∷ rs) cache = erase_rows rs (erase r.id cache)

unfoldable pub clean_cache_for_system : String → InstanceManager → InstanceManager
unfolding erase_rows
clean_cache_for_system system_id im = record im {
  metrics_cache = erase_rows (keep (λ r. r.system_id == system_id) im.rows) im.metrics_cache;
}

-- for _, inst := range list { res[inst.ID] = *inst }
unfoldable pub index_list :
    List InstanceInfo → Assoc String InstanceInfo → Assoc String InstanceInfo
index_list [] res = res
index_list (i ∷ is) res = index_list is (insert i.id i res)

unfoldable pub index_groups :
    Assoc String (List InstanceInfo) → Assoc String InstanceInfo → Assoc String InstanceInfo
unfolding index_list
index_groups [] res = res
index_groups ((s, list) ∷ groups) res = index_groups groups (index_list list res)

unfoldable pub get_all_instances_metrics : InstanceManager → Assoc String InstanceInfo
unfolding get_all_instances index_groups
get_all_instances_metrics im = index_groups (get_all_instances im) []
