-- ===== src/Master/SystemApi.antt =====
-- internal/master/api/system_handler.go
use ops_system.Prelude.{ℕ, String, Option, none, some, Bool, if◌then◌else◌}
use ops_system.System.{SystemManager, create_system, delete_system, add_module, delete_module}
use ops_system.Master.{
  ServerHandler, Reply, reply_success, reply_error, no_data, systems_data, system_data, record_log,
  broadcast_update, current_view,
}
use ops_system.Code

unfoldable pub get_systems : ServerHandler → Reply
get_systems h = reply_success (systems_data (current_view h))

pub record SystemReq : Type 0 where
  pub name : String
  pub description : String

-- `id` and `now` are those of `create_system`. The decoder's error is no business error, so the
-- reply's code is the server error, here and below.
unfoldable pub post_system :
    Bool → String → ℕ → String → Option SystemReq → ServerHandler → ServerHandler × Reply
unfolding broadcast_update
post_system fault id now client request h = elim request [
  | none ↦ (h, reply_error Code.server_error)
  | some req ↦
      let (systems, sys) = create_system fault id now req.name req.description h.sys_mgr in
      (
        broadcast_update (
            record_log client "create_system" "system" req.name "success"
              (record h { sys_mgr = systems })),
        reply_success (system_data sys),
      )
]

unfoldable pub remove_system : Bool → String → Option String → ServerHandler → ServerHandler × Reply
unfolding broadcast_update
remove_system commit_fault client request h = elim request [
  | none ↦ (h, reply_error Code.server_error)
  | some id ↦
      let (systems, instances, err) = delete_system commit_fault id h.sys_mgr h.inst_mgr in
      let changed : ServerHandler = record h { sys_mgr = systems; inst_mgr = instances } in
      if err then (changed, reply_error Code.server_error) else (
        broadcast_update (record_log client "delete_system" "system" id "success" changed),
        reply_success no_data,
      )
]

-- what the two handlers below do with the manager's result
unfoldable pub finish_module :
    String → String → String → SystemManager × Bool → ServerHandler → ServerHandler × Reply
unfolding broadcast_update
finish_module client action target (systems, err) h =
    let changed : ServerHandler = record h { sys_mgr = systems } in
    if err then (changed, reply_error Code.server_error) else (
      broadcast_update (record_log client action "module" target "success" changed),
      reply_success no_data,
    )

pub record ModuleReq : Type 0 where
  pub system_id : String
  pub module_name : String
  pub package_name : String
  pub package_version : String
  pub description : String

unfoldable pub post_module :
    Bool → String → String → Option ModuleReq → ServerHandler → ServerHandler × Reply
post_module fault id client request h = elim request [
  | none ↦ (h, reply_error Code.server_error)
  | some req ↦
      finish_module client "add_module" req.module_name
        (add_module fault id req.system_id req.module_name req.package_name req.package_version
          req.description h.sys_mgr)
        h
]

unfoldable pub remove_module : Bool → String → Option String → ServerHandler → ServerHandler × Reply
remove_module fault client request h = elim request [
  | none ↦ (h, reply_error Code.server_error)
  | some id ↦ finish_module client "delete_module" id (delete_module fault id h.sys_mgr) h
]
