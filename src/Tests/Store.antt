-- ===== src/Tests/Store.antt =====
-- The theorems on the time series, the instances and the systems at concrete inputs.
use ops_system.Prelude.{
  ◌≡◌, refl, List, [], ◌∷◌, map, none, some, false, arith, ◌==◌, string_key, keep, length, ◌≤◌, ◌⊎◌,
}
use ops_system.Assoc.{lookup}
use ops_system.Table.{find, order_desc}
use ops_system.Table.Order.{IsNewestFirst}
use ops_system.Float64.{float_zero, float_one}
use ops_system.Protocol.{InstanceInfo, InstanceStatusReport}
use ops_system.Tsdb.{new_memory_tsdb, series_key, series_at, write, query_range}
use ops_system.Tsdb.Pruning.{write-bounded, AllValid}
use ops_system.Tsdb.Range.{WriteCall, log, query_range-run, query_range-write_ne}
use ops_system.Tsdb.Range
use ops_system.Instance.{
  InstanceManager, get_instance, get_system_instances, get_all_instances, or_empty, to_row,
  report_metrics,
}
use ops_system.Instance.Grouping.{get_all_instances-get_system_instances}
use ops_system.Instance.Invariant.{
  register, report_begin, report_end, remove, run-IsKeyed, report-remove_leak, IsKeyed,
}
use ops_system.Instance.Invariant
use ops_system.Instance.Snapshot.{get_all_instances_metrics-get_instance}
use ops_system.Instance.{get_all_instances_metrics}
use ops_system.System.{SystemManager, system_key, delete_system, get_full_view, created}
use ops_system.System.View.{expected_view, get_full_view_lem}
use ops_system.System.Cascade.{delete_system-gone}
use mathlib.Core.List.{Perm}

abbrev two_writes : List WriteCall
two_writes =
    record { at = 10; ip = "10.0.0.1"; metric = "cpu"; val = float_one }
    ∷ record { at = 12; ip = "10.0.0.2"; metric = "cpu"; val = float_zero }
    ∷ []

write-bounded_example :
    let after =
      series_at (series_key "cpu" "10.0.0.1") (write 100 "10.0.0.1" "cpu" 7 new_memory_tsdb) in
    (length after ≤ 300) ⊎ AllValid 100 600 after
unfolding new_memory_tsdb lookup
write-bounded_example = write-bounded 100 "10.0.0.1" "cpu" 7 new_memory_tsdb tt tt

query_range-run_example :
    query_range "cpu" "10.0.0.1" 5 20 (Range.run two_writes new_memory_tsdb)
    ≡ record { time = 10; value = float_one } ∷ []
unfolding series_key
query_range-run_example =
    query_range-run two_writes 12 "cpu" "10.0.0.1" 5 20 (omega arith, (omega arith, tt))
      (omega arith)

abbrev web : InstanceInfo
web = record {
  id = "inst-1";
  system_id = "sys-1";
  node_ip = "10.0.0.1";
  service_name = "web";
  service_version = "1.0";
  status = "running";
  pid = 42;
  uptime = 100;
  cpu_usage = float_zero;
  mem_usage = 0;
  io_read = 0;
  io_write = 0;
}

abbrev store : InstanceManager
store = record { rows = to_row web ∷ []; metrics_cache = [] }

abbrev web_report : InstanceStatusReport
web_report = record {
  instance_id = "inst-1";
  status = "running";
  pid = 43;
  uptime = 120;
  cpu_usage = float_one;
  mem_usage = 64;
  io_read = 5;
  io_write = 6;
}

get_all_instances-get_system_instances_example :
    get_system_instances false "sys-1" store
    ≡ some (or_empty (lookup "sys-1" (get_all_instances store)))
get_all_instances-get_system_instances_example =
    get_all_instances-get_system_instances store "sys-1"

report-remove_leak_example :
    let after =
      Invariant.run
        ((false, report_begin web_report)
          ∷ (false, remove "inst-1")
          ∷ (false, report_end web_report)
          ∷ [])
        store in
    (get_instance false "inst-1" after ≡ none)
    × (lookup "inst-1" after.metrics_cache ≡ some (report_metrics web_report))
report-remove_leak_example = report-remove_leak web_report store

abbrev shop : SystemManager
shop = record {
  systems =
      record { id = "sys-1"; name = "shop"; description = ""; create_time = 1 }
      ∷ record { id = "sys-2"; name = "bank"; description = ""; create_time = 2 }
      ∷ [];
  modules =
      record {
        id = "mod-1";
        system_id = "sys-1";
        module_name = "web";
        package_name = "web";
        package_version = "1.0";
        description = "";
      }
      ∷ [];
}

get_full_view_lem_example :
    (get_full_view store shop ≡ map (expected_view store shop) (order_desc created shop.systems []))
    × Perm (order_desc created shop.systems []) shop.systems
    × IsNewestFirst created (order_desc created shop.systems [])
get_full_view_lem_example = get_full_view_lem store shop

delete_system-gone_example :
    let after = delete_system false "sys-1" shop store in
    (find system_key "sys-1" after.0.systems ≡ none)
    × (keep (λ m. m.system_id == "sys-1") after.0.modules ≡ [])
    × (get_system_instances false "sys-1" after.1 ≡ some [])
    × (lookup "inst-1" after.1.metrics_cache ≡ none)
    × (after.2 ≡ false)
delete_system-gone_example = delete_system-gone "sys-1" "inst-1" shop store

get_all_instances_metrics-get_instance_example :
    lookup "inst-1" (get_all_instances_metrics store) ≡ get_instance false "inst-1" store
unfolding find
get_all_instances_metrics-get_instance_example =
    get_all_instances_metrics-get_instance store "inst-1" (refl, tt)
