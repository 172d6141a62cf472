-- ===== src/Tests/Worker.antt =====
-- The worker at a small disk, with a service "web" of the system "shop".
use ops_system.Prelude.{
  ltb, ◌≡◌, refl, ◌≢◌, ◌⊎◌, [], ◌∷◌, none, some, true, false, arith, All, ap, length, map,
  if◌then◌else◌,
}
use mathlib.Core.Option.{some_inj}
use ops_system.Assoc.{lookup, insert}
use ops_system.Words.{split_last, split, has_prefix}
use ops_system.Protocol.{ServiceManifest, DeployRequest, RegisterExternalRequest}
use ops_system.Disk.{
  FilePath, Disk, directory, file, Content, text, manifest, archive, sealed, packs_file, path_key,
  path_matches_iff, descend, join, is_within, read_file, write_file, mkdir_all,
}
use ops_system.Worker.{Machine}
use ops_system.Worker.Install.{
  arrived, virtual_dir, external_manifest, register_external, deploy_instance, unzip_entries,
}
use ops_system.Worker.Process.{
  Os, read_manifest, resolve_executable, get_pid, is_running, start_manifest, start_process,
  running, find_target, record_target, no_manifest,
}
use ops_system.Worker.Stopping.{stop_process, stop_script, destroy}
use ops_system.Worker.Scan.{instance_id_of, get_all_local_instances, find_instance_dir}
use ops_system.Worker.Monitor.{check_and_report}
use ops_system.Worker.Recorded.{IsReady}
use ops_system.Worker.Restart.{HasPids, start_process-start_process}
use ops_system.Worker.Lifecycle.{start_anew, stop_process-ends, lookup-destroy}
use ops_system.Worker.Finding.{find_instance_dir_lem, IsInstanceDir, is_found}
use ops_system.Worker.Scanning.{CanBeFound, get_all_local_instances-CanBeFound}
use ops_system.Worker.Reporting.{expected, identity, check_and_report_lem}
use ops_system.Worker.Registered.{register_external-unmonitored}
use ops_system.Worker.Separation.{lookup-deploy_instance}
use ops_system.Worker.Unpacking.{lookup-unzip_entries}

abbrev pub base : FilePath
base = "instances" ∷ []

abbrev web_dir : FilePath
web_dir = "web_i1" ∷ "shop" ∷ base

abbrev pub web : ServiceManifest
web = record no_manifest {
  name = "web";
  version = "1";
  entrypoint = "run.sh";
  stop_entrypoint = "stop.sh";
}

abbrev pub site : Disk
site =
    ([], directory)
    ∷ (base, directory)
    ∷ ("shop" ∷ base, directory)
    ∷ (web_dir, directory)
    ∷ ("service.json" ∷ web_dir, file (manifest web))
    ∷ ("run.sh" ∷ web_dir, file (text "exec web"))
    ∷ []

abbrev pub idle : Machine
idle = record { disk = site; alive = 1 ∷ []; launched = [] }

abbrev pub linux : Os
linux = record {
  started = λ l s. some 4242;
  ran = λ l s. s;
  begun = λ l s. s;
  killed = λ pid alive. [];
  environ = [];
  process_table = λ n s. none;
  lower = λ s. s;
}

linux-HasPids : HasPids linux
linux-HasPids l s pid e = (omega (arith, some_inj.0 e), omega (arith, some_inj.0 e))

idle-IsReady : IsReady web_dir site
unfolding lookup
idle-IsReady = record { is_made = refl; pid_free = refl }

abbrev busy : Machine
busy = (start_process linux 7 web_dir idle).1

-- one of the programs has ended, and another file was written
abbrev busy_later : Machine
busy_later = record {
  disk = ("out" ∷ web_dir, file (text "x")) ∷ busy.disk;
  alive = 4242 ∷ [];
  launched = busy.launched;
}

start_process-start_process_example :
    start_process linux 9 web_dir busy_later
    ≡ (running (start_process linux 7 web_dir idle).0.pid 9, busy_later)
unfolding start_process read_manifest lookup is_running get_pid read_file start_manifest
    resolve_executable join descend split has_prefix find_target record_target write_file
start_process-start_process_example =
    start_process-start_process linux 7 9 web_dir web idle busy_later linux-HasPids
      (λ l s. (refl, refl, refl)) idle-IsReady refl refl refl
      (record { same_manifest = refl; same_pid = refl; lives = refl })

stop_process-ends_example :
    let left = stop_script linux web_dir (read_manifest web_dir busy.disk) busy in
    let pid = get_pid web_dir left.disk in
    let stopped = stop_process linux web_dir busy in
    (is_running web_dir stopped ≡ false)
    × (read_file ("pid" ∷ web_dir) stopped.disk ≡ none)
    × (lookup ("run.sh" ∷ web_dir) stopped.disk ≡ lookup ("run.sh" ∷ web_dir) left.disk)
    × (stopped.alive ≡ (if ltb 0 pid then linux.killed pid left.alive else left.alive))
    × (start_process linux 9 web_dir stopped
        ≡ start_anew linux 9 web_dir stopped (read_manifest web_dir left.disk))
stop_process-ends_example =
    stop_process-ends linux 9 web_dir ("run.sh" ∷ web_dir) busy
      (λ e. ground (arith, (path_matches_iff ("pid" ∷ web_dir) ("run.sh" ∷ web_dir)).1 e))

lookup-destroy_example : lookup ("run.sh" ∷ web_dir) (destroy linux web_dir busy).disk ≡ (
    if is_within web_dir ("run.sh" ∷ web_dir)
    then none
    else lookup
        ("run.sh" ∷ web_dir)
        (stop_script linux web_dir (read_manifest web_dir busy.disk) busy).disk)
lookup-destroy_example = lookup-destroy linux web_dir ("run.sh" ∷ web_dir) busy

find_instance_dir_lem_example :
    ((p : FilePath)
      → find_instance_dir (some base) "i1" site ≡ some p
      → IsInstanceDir base "i1" site p ⊎ IsInstanceDir ("external" ∷ base) "i1" site p)
    × ((p : FilePath)
        → IsInstanceDir base "i1" site p ⊎ IsInstanceDir ("external" ∷ base) "i1" site p
        → is_found (find_instance_dir (some base) "i1" site) ≡ true)
find_instance_dir_lem_example = find_instance_dir_lem base "i1" site

get_all_local_instances-CanBeFound_example :
    All (CanBeFound base site) (get_all_local_instances (some base) site)
get_all_local_instances-CanBeFound_example = get_all_local_instances-CanBeFound base site

check_and_report_lem_example :
    map identity (check_and_report (λ a b. a) (λ pid. none) (some base) busy.disk []).0
    ≡ expected (λ pid. none) busy.disk (get_all_local_instances (some base) busy.disk)
check_and_report_lem_example =
    check_and_report_lem (λ a b. a) (λ pid. none) (some base) busy.disk []

abbrev pub db_order : DeployRequest
db_order = record {
  instance_id = "i2";
  system_name = "shop";
  service_name = "db";
  version = "2";
  download_url = "http://master/db";
}

abbrev pub db_package : Content
db_package = archive (packs_file "bin/db" (text "db") (packs_file "../../x" (text "x") sealed))

lookup-deploy_instance_example :
    lookup ("run.sh" ∷ web_dir) (deploy_instance (some base) (arrived db_package) db_order site).0
    ≡ lookup ("run.sh" ∷ web_dir) site
unfolding is_within join descend split
lookup-deploy_instance_example =
    lookup-deploy_instance base db_order (arrived db_package) ("run.sh" ∷ web_dir) site refl refl
      refl (λ e. absurd (omega (arith, ap length e))) (λ e. absurd (omega (arith, ap length e)))

lookup-unzip_entries_example :
    lookup ("shop" ∷ base) (unzip_entries web_dir (packs_file "../x" (text "x") sealed) site).0
    ≡ lookup ("shop" ∷ base) site
unfolding lookup is_within
lookup-unzip_entries_example =
    lookup-unzip_entries web_dir ("shop" ∷ base) (packs_file "../x" (text "x") sealed) site refl
      refl

abbrev adopted : RegisterExternalRequest
adopted = record {
  instance_id = "ext-7";
  system_name = "shop";
  config = record {
    name = "cache";
    work_dir = "/opt/cache";
    start_cmd = "bin/start --port 6379";
    stop_cmd = "bin/stop";
    pid_strategy = "spawn";
    process_name = "cache";
  };
}

register_external-unmonitored_example :
    (read_manifest (virtual_dir base adopted) (register_external (some base) adopted []).0
      ≡ some (external_manifest adopted))
    × (is_found (find_instance_dir (some base) "ext-7" (register_external (some base) adopted []).0)
        ≡ true)
    × All
        (λ i. i.work_dir ≢ virtual_dir base adopted)
        (get_all_local_instances (some base) (register_external (some base) adopted []).0)
unfolding lookup join descend split split_last instance_id_of register_external mkdir_all insert
    write_file
register_external-unmonitored_example =
    register_external-unmonitored base adopted [] (register_external (some base) adopted []).0
      (λ n p e h. absurd (ground arith)) refl refl refl refl
