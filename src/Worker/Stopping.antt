-- ===== src/Worker/Stopping.antt =====
-- internal/worker/executor/instance_manager.go: StopProcess and HandleAction.
use ops_system.Prelude.{
  ℕ, String, List, ◌∷◌, Option, none, some, Bool, true, ◌==◌, string_key, nat_key, if◌then◌else◌,
  ltb, not,
}
use ops_system.Protocol.{ServiceManifest, InstanceActionRequest}
use ops_system.Disk.{FilePath, path_key, join, remove_all, remove, or_same}
use ops_system.Worker.{Machine}
use ops_system.Worker.Scan.{find_instance_dir}
use ops_system.Worker.Process.{
  Os, StartProcessResult, read_manifest, exec_dir, cmd_path, resolve_executable, build_env, get_pid,
  after_run, start_process,
}

-- the program that stops the instance
unfoldable pub run_stop : Os → FilePath → ServiceManifest → Machine → Machine
unfolding resolve_executable join
run_stop os work_dir m s =
    if m.stop_entrypoint == ""
    then s
    else elim (resolve_executable (cmd_path (exec_dir work_dir m) m.stop_entrypoint) s.disk) [
      | none ↦ s
      | some path ↦
          after_run os
            (record {
              executable = path;
              args = m.stop_args;
              directory = exec_dir work_dir m;
              env = build_env os m.env;
            })
            s
    ]

abbrev pub stop_script : Os → FilePath → Option ServiceManifest → Machine → Machine
stop_script os work_dir none s = s
stop_script os work_dir (some m) s = run_stop os work_dir m s

-- proc.Kill, for a positive process id
abbrev pub kill : Os → ℕ → List ℕ → List ℕ
kill os pid alive = if ltb 0 pid then os.killed pid alive else alive

unfoldable pub end_process : Os → FilePath → Machine → Machine
unfolding get_pid remove
end_process os work_dir s = record {
  disk = or_same (remove ("pid" ∷ work_dir) s.disk) s.disk;
  alive = kill os (get_pid work_dir s.disk) s.alive;
  launched = s.launched;
}

-- The result is always "stopped", 0 and no error.
unfoldable pub stop_process : Os → FilePath → Machine → Machine
unfolding read_manifest run_stop end_process
stop_process os work_dir s =
    end_process os work_dir (stop_script os work_dir (read_manifest work_dir s.disk) s)

unfoldable pub destroy : Os → FilePath → Machine → Machine
unfolding stop_process remove_all
destroy os work_dir s =
    let stopped = stop_process os work_dir s in
    record {
      disk = remove_all work_dir stopped.disk;
      alive = stopped.alive;
      launched = stopped.launched;
    }

-- the Boolean is success
abbrev pub without_error : StartProcessResult × Machine → Bool × Machine
without_error (result, s) = (not result.failed, s)

unfoldable pub act_in : Os → ℕ → String → FilePath → Machine → Bool × Machine
unfolding start_process stop_process destroy
act_in os now action work_dir s =
    if action == "start"
    then without_error (start_process os now work_dir s)
    else if action == "stop"
    then (true, stop_process os work_dir s)
    else if action == "destroy"
    then (true, destroy os work_dir s)
    else (true, s)

unfoldable pub handle_action :
    Os → ℕ → Option FilePath → InstanceActionRequest → Machine → Bool × Machine
unfolding find_instance_dir act_in
handle_action os now base req s = elim (find_instance_dir base req.instance_id s.disk) [
  | none ↦ (req.action == "destroy", s)
  | some work_dir ↦ act_in os now req.action work_dir s
]
