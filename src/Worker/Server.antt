-- ===== src/Worker/Server.antt =====
-- internal/worker/handler/server.go: the worker's HTTP handlers. A request's body is what its JSON
-- decodes to, none for an error. An answer is its status code and body, and the reports are what is
-- posted to the master.
use ops_system.Prelude.{
  ℕ, String, List, [], ◌∷◌, ◌++◌, Option, none, some, Bool, true, false, ◌==◌, string_key,
  if◌then◌else◌, not,
}
use ops_system.Float64.{float_zero}
use ops_system.Protocol.{
  DeployRequest, RegisterExternalRequest, InstanceActionRequest, CommandRequest,
  InstanceStatusReport,
}
use ops_system.Disk.{FilePath, Disk}
use ops_system.Worker.{Machine}
use ops_system.Worker.Scan.{find_instance_dir}
use ops_system.Worker.Install.{Download, deploy_instance, register_external}
use ops_system.Worker.Process.{Os, StartProcessResult, start_process}
use ops_system.Worker.Stopping.{stop_process, handle_action}
use ops_system.Worker.Monitor.{report_status, report_change}
use ops_system.Worker.Logs.{get_log_files}

pub data Body : Type 0 where
  message : Body
  status_ok : Body
  log_files : String → List String → Body
  command_result : String → String → Body

pub record Answer : Type 0 where
  pub code : ℕ
  pub body : Body

abbrev pub refuse : ℕ → Answer
refuse c = record { code = c; body = message }

abbrev pub accept : Body → Answer
accept b = record { code = 200; body = b }

abbrev pub registered : Disk × Bool → Answer × Disk
registered (d, true) = (accept status_ok, d)
registered (d, false) = (refuse 500, d)

unfoldable pub handle_register_external :
    Option FilePath → String → Option RegisterExternalRequest → Disk → Answer × Disk
unfolding register_external
handle_register_external base method none d =
    if method == "POST" then (refuse 400, d) else (refuse 405, d)
handle_register_external base method (some req) d =
    if method == "POST" then registered (register_external base req d) else (refuse 405, d)

-- the report that follows DeployInstance
abbrev pub deploy_outcome : Bool → String
deploy_outcome true = "stopped"
deploy_outcome false = "error"

-- the goroutine of handleDeploy
unfoldable pub deploy_job :
    Option FilePath → String → Download → DeployRequest → Disk → List InstanceStatusReport × Disk
unfolding deploy_instance report_change
deploy_job base master_url download req d =
    let (d', ok) = deploy_instance base download req d in
    (
      report_change master_url req.instance_id "deploying" 0 0
          ++ report_change master_url req.instance_id (deploy_outcome ok) 0 0,
      d',
    )

-- the answer, which goes out before the goroutine runs
unfoldable pub handle_deploy :
    Option FilePath
    → String
    → Download
    → Option DeployRequest
    → Disk
    → Answer × List InstanceStatusReport × Disk
unfolding deploy_job
handle_deploy base master_url download none d = (refuse 400, [], d)
handle_deploy base master_url download (some req) d =
    let (sent, d') = deploy_job base master_url download req d in (accept message, sent, d')

-- what the switch leaves in status, pid, uptime and execErr
pub record Acted : Type 0 where
  pub status : String
  pub pid : ℕ
  pub uptime : ℕ
  pub failed : Bool

abbrev pub unsuccessful : Acted
unsuccessful = record { status = ""; pid = 0; uptime = 0; failed = true }

abbrev pub started_as : StartProcessResult × Machine → Acted × Machine
started_as (r, s) =
    (record { status = r.status; pid = r.pid; uptime = r.uptime; failed = r.failed }, s)

abbrev pub destroyed_as : Bool × Machine → Acted × Machine
destroyed_as (ok, s) = (record { status = "destroyed"; pid = 0; uptime = 0; failed = not ok }, s)

abbrev pub stopped_as : Machine → Acted × Machine
stopped_as s = (record { status = "stopped"; pid = 0; uptime = 0; failed = false }, s)

-- the switch, with the directory that was found; a destroy looks for it again
abbrev pub performed :
    Os → ℕ → Option FilePath → InstanceActionRequest → Machine → Option FilePath → Acted × Machine
performed os now base req s none =
    if req.action == "destroy"
    then destroyed_as (handle_action os now base req s)
    else (unsuccessful, s)
performed os now base req s (some work_dir) =
    if req.action == "start"
    then started_as (start_process os now work_dir s)
    else if req.action == "stop"
    then stopped_as (stop_process os work_dir s)
    else if req.action == "destroy"
    then destroyed_as (handle_action os now base req s)
    else (unsuccessful, s)

unfoldable pub perform :
    Os → ℕ → Option FilePath → InstanceActionRequest → Machine → Acted × Machine
unfolding find_instance_dir start_process stop_process handle_action
perform os now base req s =
    performed os now base req s (find_instance_dir base req.instance_id s.disk)

abbrev pub answer_action : String → Acted × Machine → Answer × List InstanceStatusReport × Machine
answer_action id (a, s) =
    if a.failed
    then (refuse 500, [], s)
    else (accept status_ok, report_status id a.status a.pid a.uptime float_zero 0 0 0 ∷ [], s)

unfoldable pub handle_instance_action :
    Os
    → ℕ
    → Option FilePath
    → Option InstanceActionRequest
    → Machine
    → Answer × List InstanceStatusReport × Machine
unfolding perform report_status
handle_instance_action os now base none s = (refuse 400, [], s)
handle_instance_action os now base (some req) s =
    answer_action req.instance_id (perform os now base req s)

-- `run` is the output and the error's text of a command, given to sh -c
unfoldable pub handle_exec : (List String → String × String) → Option CommandRequest → Answer
handle_exec run none = refuse 400
handle_exec run (some req) =
    let (output, error) = run ("sh" ∷ "-c" ∷ req.command ∷ []) in
    accept (command_result output error)

unfoldable pub handle_get_log_files : Option FilePath → String → Disk → Answer
unfolding get_log_files
handle_get_log_files base id d = if id == "" then refuse 400 else elim (get_log_files base id d) [
  | none ↦ refuse 500
  | some files ↦ accept (log_files id files)
]
