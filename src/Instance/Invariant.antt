-- ===== src/Instance/Invariant.antt =====
-- Histories of InstanceManager calls. UpdateInstanceFullStatus releases `mu` between its statement
-- and its store into the cache, so it is two calls here, and others may come between them.
use ops_system.Prelude.{
  ℕ, String, ◌≡◌, refl, List, [], ◌∷◌, none, some, Bool, true, false, arith, string_key, Bool-cases,
  inl, inr, ◌==◌, ==_refl,
}
use ops_system.Assoc.{lookup, lookup-insert_self}
use ops_system.Table.Laws.{
  DistinctKeys, DistinctKeys-update_key, DistinctKeys-replace, DistinctKeys-delete, find-delete,
}
use ops_system.Protocol.{InstanceInfo, InstanceStatusReport}
use ops_system.Instance.{
  InstanceManager, row_id, to_row, register_instance, update_instance_status, report_row,
  report_cache, report_metrics, remove_instance, clean_cache_for_system, get_instance,
}

pub data Call : Type 0 where
  register : InstanceInfo → Call
  set_status : ℕ → String → String → ℕ → Call
  report_begin : InstanceStatusReport → Call
  report_end : InstanceStatusReport → Call
  remove : String → Call
  clean : String → Call

-- The calls of a history, each with the fault that its statement met.
unfoldable pub call : Bool × Call → InstanceManager → InstanceManager
call (fault, register inst) im = register_instance fault inst im
call (fault, set_status now id status pid) im = update_instance_status fault now id status pid im
call (fault, report_begin report) im = report_row fault report im
call (fault, report_end report) im = report_cache report im
call (fault, remove id) im = remove_instance fault id im
call (fault, clean s) im = clean_cache_for_system s im

unfoldable pub run : List (Bool × Call) → InstanceManager → InstanceManager
unfolding call
run [] im = im
run (c ∷ cs) im = run cs (call c im)

abbrev pub IsKeyed : InstanceManager → Type 0
IsKeyed im = DistinctKeys row_id im.rows

call-IsKeyed : (c : Bool × Call) (im : InstanceManager) → IsKeyed im → IsKeyed (call c im)
unfolding call register_instance update_instance_status report_row report_cache remove_instance
    clean_cache_for_system
call-IsKeyed (true, register inst) im d = d
call-IsKeyed (false, register inst) im d = DistinctKeys-replace row_id (to_row inst) im.rows d
call-IsKeyed (true, set_status now id status pid) im d = ground arith
call-IsKeyed (false, set_status now id status pid) im d = elim (Bool-cases (status == "running")) [
  | inl e ↦ rw e (DistinctKeys-update_key row_id id _ im.rows (λ r. refl) d)
  | inr e ↦ rw e (DistinctKeys-update_key row_id id _ im.rows (λ r. refl) d)
]
call-IsKeyed (true, report_begin report) im d = d
call-IsKeyed (false, report_begin report) im d =
    DistinctKeys-update_key row_id report.instance_id _ im.rows (λ r. refl) d
call-IsKeyed (_, report_end report) im d = d
call-IsKeyed (true, remove id) im d = d
call-IsKeyed (false, remove id) im d = DistinctKeys-delete row_id id im.rows d
call-IsKeyed (_, clean s) im d = d

-- The ids of the table stay distinct through every history of calls and faults.
pub run-IsKeyed :
    (cs : List (Bool × Call)) (im : InstanceManager) → IsKeyed im → IsKeyed (run cs im)
unfolding run
run-IsKeyed [] im d = d
run-IsKeyed (c ∷ cs) im d = run-IsKeyed cs (call c im) (call-IsKeyed c im d)

-- A removal that comes between the two halves of a worker's report leaves the instance absent and
-- its metrics in the cache, whatever the table and the cache held.
pub report-remove_leak :
    (report : InstanceStatusReport) (im : InstanceManager)
    → let after =
        run
          ((false, report_begin report)
            ∷ (false, remove report.instance_id)
            ∷ (false, report_end report)
            ∷ [])
          im in
      (get_instance false report.instance_id after ≡ none)
      × (lookup report.instance_id after.metrics_cache ≡ some (report_metrics report))
unfolding run call report_row remove_instance report_cache get_instance
report-remove_leak report im = (
  rw (find-delete row_id report.instance_id report.instance_id, ==_refl report.instance_id),
  lookup-insert_self report.instance_id (report_metrics report) _,
)
