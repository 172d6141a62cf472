-- ===== src/System.antt =====
-- internal/master/manager/system_manager.go: systems and their modules, and the view that joins
-- them with the instances. `fault` arguments say which statement SQLite refuses.
pub mod View
pub mod Cascade
use ops_system.Prelude.{
  ℕ, String, List, [], ◌∷◌, ◌++◌, map, Option, none, some, Bool, true, false, ◌==◌, string_key,
  if◌then◌else◌, leb, keep,
}
use ops_system.Assoc.{Assoc, lookup}
use ops_system.Table.{exec, find, insert, delete, delete_where, order_desc}
use ops_system.Protocol.{SystemInfo, SystemModule, SystemView, InstanceInfo}
use ops_system.Instance.{
  InstanceManager, clean_cache_for_system, get_all_instances, group, or_empty,
}
use mathlib.Core.Option

pub record SystemManager : Type 0 where
  pub systems : List SystemInfo  -- system_infos
  pub modules : List SystemModule  -- system_modules

abbrev pub system_key : SystemInfo → String
system_key s = s.id

abbrev pub module_key : SystemModule → String
module_key m = m.id

-- INSERT where a violated key or a fault leaves the table as it was
abbrev pub insert_or_keep {ℓ} : {A : Type ℓ} → Bool → (A → String) → A → List A → List A
insert_or_keep fault key r t = if fault then t else Option.get_or (insert key r t) t

-- `id` is "sys-" and the nanoseconds of the clock. The result is returned whatever the INSERT does.
unfoldable pub create_system :
    Bool → String → ℕ → String → String → SystemManager → SystemManager × SystemInfo
create_system fault id now name desc sm =
    let info : SystemInfo = record {
      id = id;
      name = name;
      description = desc;
      create_time = now;
    } in
    (record sm { systems = insert_or_keep fault system_key info sm.systems }, info)

-- The three deletions are one transaction, which the commit makes or not; each of them is taken to
-- succeed. The metrics of the system's instances are gone in both cases. The Boolean is the
-- commit's error.
unfoldable pub delete_system :
    Bool → String → SystemManager → InstanceManager → SystemManager × InstanceManager × Bool
delete_system commit_fault system_id sm im =
    let cleaned = clean_cache_for_system system_id im in
    (
      record {
        systems = exec commit_fault (delete system_key system_id) sm.systems;
        modules = exec commit_fault (delete_where (λ m. m.system_id == system_id)) sm.modules;
      },
      record cleaned {
        rows = exec commit_fault (delete_where (λ r. r.system_id == system_id)) cleaned.rows;
      },
      commit_fault,
    )

unfoldable pub add_module :
    Bool
    → String
    → String
    → String
    → String
    → String
    → String
    → SystemManager
    → SystemManager × Bool
add_module fault id sys_id name pkg_name pkg_ver desc sm =
    let row : SystemModule = record {
      id = id;
      system_id = sys_id;
      module_name = name;
      package_name = pkg_name;
      package_version = pkg_ver;
      description = desc;
    } in
    let inserted : Option (List SystemModule) =
      if fault then none else insert module_key row sm.modules in
    elim inserted [ none ↦ (sm, true) | some modules ↦ (record sm { modules = modules }, false) ]

unfoldable pub delete_module : Bool → String → SystemManager → SystemManager × Bool
delete_module fault mod_id sm =
    (record sm { modules = exec fault (delete module_key mod_id) sm.modules }, fault)

abbrev pub created : SystemInfo → ℕ
created s = s.create_time

-- a nil slice becomes an empty one
abbrev pub view_of :
    Assoc String (List SystemModule) → Assoc String (List InstanceInfo) → SystemInfo → SystemView
view_of mod_map inst_map sys = record {
  info = sys;
  modules = or_empty (lookup sys.id mod_map);
  instances = or_empty (lookup sys.id inst_map);
}

unfoldable pub get_full_view : InstanceManager → SystemManager → List SystemView
get_full_view im sm =
    map (view_of (group (λ m. m.system_id) sm.modules []) (get_all_instances im))
      (order_desc created sm.systems [])
