-- ===== src/System/View.antt =====
-- GetFullView against the tables.
use mathlib.Core.List.{Perm}
use mathlib.Core.Path.{fun_ext}
use ops_system.Prelude.{◌≡◌, ap, [], map, arith, ◌==◌, string_key, keep}
use ops_system.Assoc.{lookup}
use ops_system.Table.{order_desc}
use ops_system.Table.Order.{order_desc-perm, order_desc-IsNewestFirst, IsNewestFirst}
use ops_system.Protocol.{SystemInfo, SystemModule, SystemView}
use ops_system.Instance.{InstanceManager, group, get_all_instances, load, get_system_instances}
use ops_system.Instance.Grouping.{lookup-group, get_all_instances-get_system_instances}
use ops_system.System.{SystemManager, view_of, get_full_view, created}

-- The view of one system, straight from the tables.
abbrev pub expected_view : InstanceManager → SystemManager → SystemInfo → SystemView
expected_view im sm sys = record {
  info = sys;
  modules = keep (λ m. m.system_id == sys.id) sm.modules;
  instances = map (load im) (keep (λ r. r.system_id == sys.id) im.rows);
}

view_of_lem :
    (im : InstanceManager) (sm : SystemManager) (sys : SystemInfo)
    → view_of (group (λ m. m.system_id) sm.modules []) (get_all_instances im) sys
      ≡ expected_view im sm sys
unfolding get_system_instances lookup
view_of_lem im sm sys = ground (
  arith,
  lookup-group (λ (m : SystemModule). m.system_id) sys.id sm.modules [],
  get_all_instances-get_system_instances im sys.id,
)

-- The full view has one entry for each system of the table, the newest first, and each entry holds
-- exactly the modules and the instances, with their metrics, whose system it is, in the order of
-- their tables; what belongs to no system of the table does not appear.
pub get_full_view_lem :
    (im : InstanceManager) (sm : SystemManager)
    → (get_full_view im sm ≡ map (expected_view im sm) (order_desc created sm.systems []))
      × Perm (order_desc created sm.systems []) sm.systems
      × IsNewestFirst created (order_desc created sm.systems [])
unfolding get_full_view
get_full_view_lem im sm = (
  ap (λ f. map f (order_desc created sm.systems [])) (fun_ext (view_of_lem im sm)),
  order_desc-perm created sm.systems,
  order_desc-IsNewestFirst created sm.systems [] tt,
)
