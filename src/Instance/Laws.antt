-- ===== src/Instance/Laws.antt =====
-- What GetInstance returns after each method.
use ops_system.Prelude.{
  ℕ, String, ◌≡◌, refl, List, [], ◌∷◌, none, some, Bool, true, false, arith, ◌==◌, string_key,
  if◌then◌else◌, keep, ◌||◌,
}
use ops_system.Assoc.{Assoc, lookup, lookup-insert, lookup-erase, erase}
use ops_system.Table.Laws.{find-replace, find-update, find-delete, find-key}
use ops_system.Float64.{float_zero}
use ops_system.Protocol.{InstanceInfo, InstanceStatusReport}
use ops_system.Instance.{
  InstanceManager, InstanceRow, row_id, to_row, add_metrics, scan_row, report_metrics,
  register_instance, update_instance_status, update_instance_full_status, remove_instance,
  get_instance, erase_rows, clean_cache_for_system,
}
use mathlib.Core.Option

-- After RegisterInstance the id reads as the new row with the metrics that the cache held under
-- it, and every other id reads as before.
pub get_instance-register_instance :
    (inst : InstanceInfo) (j : String) (im : InstanceManager)
    → get_instance false j (register_instance false inst im) ≡ (
        if inst.id == j
        then some (add_metrics (lookup j im.metrics_cache) (scan_row (to_row inst)))
        else get_instance false j im)
unfolding get_instance register_instance
get_instance-register_instance inst j im =
    ground (arith, find-replace row_id (to_row inst) j im.rows)

-- What a worker's report makes of the instance that it names.
abbrev pub reported : InstanceStatusReport → InstanceInfo → InstanceInfo
reported report i = record i {
  status = report.status;
  pid = report.pid;
  uptime = report.uptime;
  cpu_usage = report.cpu_usage;
  mem_usage = report.mem_usage;
  io_read = report.io_read;
  io_write = report.io_write;
}

-- After a worker's report the instance that it names, if there is one, reads with the report's
-- status, pid, uptime and metrics and its other columns as before; every other id reads as before,
-- and no instance is created.
pub get_instance-update_instance_full_status :
    (report : InstanceStatusReport) (j : String) (im : InstanceManager)
    → get_instance false j (update_instance_full_status false report im) ≡ (
        if report.instance_id == j
        then Option.map (reported report) (get_instance false j im)
        else get_instance false j im)
unfolding get_instance update_instance_full_status
get_instance-update_instance_full_status report j im = ground (
  arith,
  find-update row_id report.instance_id j
      (λ (r : InstanceRow). record r {
        status = report.status;
        pid = report.pid;
        uptime = report.uptime;
      })
      im.rows (λ r. refl),
  lookup-insert report.instance_id j (report_metrics report) im.metrics_cache,
)

-- the metrics of a report, which are cached also where SQLite refuses the statement
abbrev pub measured : InstanceStatusReport → InstanceInfo → InstanceInfo
measured report i = record i {
  cpu_usage = report.cpu_usage;
  mem_usage = report.mem_usage;
  io_read = report.io_read;
  io_write = report.io_write;
}

-- A report whose statement SQLite refuses changes the metrics that its instance shows, and no more.
pub get_instance-refused_report :
    (report : InstanceStatusReport) (j : String) (im : InstanceManager)
    → get_instance false j (update_instance_full_status true report im) ≡ (
        if report.instance_id == j
        then Option.map (measured report) (get_instance false j im)
        else get_instance false j im)
unfolding get_instance update_instance_full_status
get_instance-refused_report report j im = ground (
  arith,
  lookup-insert report.instance_id j (report_metrics report) im.metrics_cache,
  find-key row_id j im.rows,
)

-- After RemoveInstance the id reads as absent and has no cached metrics, also if SQLite refused the
-- statement as far as the cache goes; every other id reads as before.
pub get_instance-remove_instance :
    (id j : String) (im : InstanceManager)
    → (get_instance false j (remove_instance false id im)
        ≡ (if id == j then none else get_instance false j im))
      × ((fault : Bool)
          → lookup j (remove_instance fault id im).metrics_cache
            ≡ (if id == j then none else lookup j im.metrics_cache))
unfolding get_instance remove_instance
get_instance-remove_instance id j im = (
  ground (arith, find-delete row_id id j im.rows, lookup-erase id j im.metrics_cache),
  λ fault. lookup-erase id j im.metrics_cache,
)

-- What UpdateInstanceStatus makes of the instance that it names.
abbrev pub with_status : ℕ → String → ℕ → InstanceInfo → InstanceInfo
with_status now status pid i =
    if status == "running"
    then record i { status = status; pid = pid; uptime = now }
    else record i {
      status = status;
      pid = pid;
      uptime = 0;
      cpu_usage = float_zero;
      mem_usage = 0;
      io_read = 0;
      io_write = 0;
    }

-- After UpdateInstanceStatus the named instance reads with the new status and pid: at "running"
-- with the current time as its uptime and its metrics kept, at any other status with uptime and
-- metrics zero. Every other id reads as before.
pub get_instance-update_instance_status :
    (now : ℕ) (id status : String) (pid : ℕ) (j : String) (im : InstanceManager)
    → get_instance false j (update_instance_status false now id status pid im) ≡ (
        if id == j
        then Option.map (with_status now status pid) (get_instance false j im)
        else get_instance false j im)
unfolding get_instance update_instance_status
get_instance-update_instance_status now id status pid j im = ground (
  arith,
  find-update row_id id j
      (λ (r : InstanceRow). record r { status = status; pid = pid; uptime = now }) im.rows
      (λ r. refl),
  find-update row_id id j (λ (r : InstanceRow). record r { status = status; pid = pid; uptime = 0 })
      im.rows (λ r. refl),
  lookup-erase id j im.metrics_cache,
)

-- some row has the id
abbrev pub has_id : String → List InstanceRow → Bool
has_id j [] = false
has_id j (r ∷ rs) = r.id == j || has_id j rs

lookup-erase_rows {ℓ} :
    {V : Type ℓ} (j : String) (rs : List InstanceRow) (cache : Assoc String V)
    → lookup j (erase_rows rs cache) ≡ (if has_id j rs then none else lookup j cache)
unfolding erase_rows
lookup-erase_rows j [] cache = refl
lookup-erase_rows j (r ∷ rs) cache =
    ground (arith, lookup-erase_rows j rs (erase r.id cache), lookup-erase r.id j cache)

-- CleanCacheForSystem forgets the metrics of exactly the ids that the table has under the system,
-- and keeps the rows.
pub clean_cache_for_system_lem :
    (s j : String) (im : InstanceManager)
    → ((clean_cache_for_system s im).rows ≡ im.rows)
      × (lookup j (clean_cache_for_system s im).metrics_cache ≡ (
          if has_id j (keep (λ r. r.system_id == s) im.rows)
          then none
          else lookup j im.metrics_cache))
unfolding clean_cache_for_system
clean_cache_for_system_lem s j im =
    (refl, lookup-erase_rows j (keep (λ r. r.system_id == s) im.rows) im.metrics_cache)
