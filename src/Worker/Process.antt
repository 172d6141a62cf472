-- ===== src/Worker/Process.antt =====
-- internal/worker/executor/instance_manager.go: StartProcess and what it uses. What the operating
-- system and the started programs do is the parameter `os`; an external instance's directory is an
-- absolute path.
use ops_system.Prelude.{
  ℕ, zero, suc, String, List, [], ◌∷◌, ◌++◌, Option, none, some, Bool, true, false, ◌==◌,
  string_key, nat_key, if◌then◌else◌, ltb, ◌&&◌, ◌||◌,
}
use Prim.Native.String.{◌++◌ as append}
use ops_system.Assoc.{lookup}
use ops_system.Words.{split, contains, has_prefix, itoa, atoi}
use ops_system.Protocol.{ServiceManifest}
use ops_system.Disk.{
  FilePath, Disk, path_key, path_matches, Content, text, manifest, Entry, file, descend, join,
  read_file, write_file, or_same,
}
use ops_system.Worker.{Launch, Machine}

-- a row of the process table; none for a working directory that cannot be read
pub record ProcessRow : Type 0 where
  pub pid : ℕ
  pub name : String
  pub cmdline : String
  pub cwd : Option String

-- started: the process id of cmd.Start, none for its error. ran: the machine after a program that
-- is waited for, and begun: that after a program's start, with what it and others do until its pid
-- file is written. killed: the processes that are alive once proc.Kill has returned, an error of which
-- is dropped. environ: os.Environ. process_table: what process.Processes gives at a try. lower: strings.ToLower.
pub record Os : Type 0 where
  pub started : Launch → Machine → Option ℕ
  pub ran : Launch → Machine → Machine
  pub begun : Launch → Machine → Machine
  pub killed : ℕ → List ℕ → List ℕ
  pub environ : List String
  pub process_table : ℕ → Machine → Option (List ProcessRow)
  pub lower : String → String

pub record StartProcessResult : Type 0 where
  pub status : String
  pub pid : ℕ
  pub uptime : ℕ
  pub failed : Bool

-- the zero value, which a failing decoder leaves
abbrev pub no_manifest : ServiceManifest
no_manifest = record {
  name = "";
  version = "";
  entrypoint = "";
  args = [];
  stop_entrypoint = "";
  stop_args = [];
  env = [];
  log_paths = [];
  is_external = false;
  external_work_dir = "";
  pid_strategy = "";
  process_name = "";
  description = "";
  os = "";
}

abbrev pub decode_manifest : Option Entry → Option ServiceManifest
decode_manifest none = none
decode_manifest (some (file (manifest m))) = some m
decode_manifest (some other) = some no_manifest

unfoldable pub read_manifest : FilePath → Disk → Option ServiceManifest
read_manifest work_dir d = decode_manifest (lookup ("service.json" ∷ work_dir) d)

-- an absolute path, cleaned
abbrev pub absolute : String → FilePath
absolute path = descend [] (split 47 path)

abbrev pub exec_dir : FilePath → ServiceManifest → FilePath
exec_dir work_dir m = if m.is_external then absolute m.external_work_dir else work_dir

-- filepath.IsAbs
abbrev pub is_abs : String → Bool
is_abs path = has_prefix path "/"

abbrev pub cmd_path : FilePath → String → FilePath
cmd_path dir entry = if is_abs entry then absolute entry else join dir entry

abbrev pub is_there : Option Entry → Bool
is_there none = false
is_there (some e) = true

unfoldable pub resolve_executable : FilePath → Disk → Option FilePath
resolve_executable path d = if is_there (lookup path d) then some path else none

-- what is appended for the custom variables
abbrev pub assignments : List (String × String) → List String
assignments [] = []
assignments ((k, v) ∷ custom) = append k (append "=" v) ∷ assignments custom

abbrev pub build_env : Os → List (String × String) → List String
build_env os custom = os.environ ++ assignments custom

-- the number that data, _ := os.ReadFile and strconv.Atoi make of the file
abbrev pub pid_of : Option Content → ℕ
pid_of (some (text s)) = atoi s
pid_of other = 0

unfoldable pub get_pid : FilePath → Disk → ℕ
unfolding read_file
get_pid work_dir d = pid_of (read_file ("pid" ∷ work_dir) d)

abbrev pub is_alive : ℕ → List ℕ → Bool
is_alive pid [] = false
is_alive pid (p ∷ ps) = let later = is_alive pid ps in p == pid || later

unfoldable pub is_running : FilePath → Machine → Bool
unfolding get_pid
is_running work_dir s =
    ltb 0 (get_pid work_dir s.disk) && is_alive (get_pid work_dir s.disk) s.alive

abbrev pub in_dir : Option String → FilePath → Bool
in_dir none dir = false
in_dir (some cwd) dir = path_matches (absolute cwd) dir

-- the loop over the processes of findProcessPID
unfoldable pub find_process_pid : (String → String) → String → FilePath → List ProcessRow → Option ℕ
find_process_pid lower keyword dir [] = none
find_process_pid lower keyword dir (p ∷ ps) =
    let rest = find_process_pid lower keyword dir ps in
    if (contains (lower p.name) (lower keyword) || contains (lower p.cmdline) (lower keyword))
      && in_dir p.cwd dir
    then some p.pid
    else rest

-- err == nil && pid > 0
abbrev pub positive : Option ℕ → Bool
positive none = false
positive (some pid) = ltb 0 pid

abbrev pub or_zero : Option ℕ → ℕ
or_zero none = 0
or_zero (some n) = n

abbrev pub no_rows : Option (List ProcessRow) → List ProcessRow
no_rows none = []
no_rows (some rows) = rows

-- the tries that are left, and the target process, 0 for none
unfoldable pub match_process : Os → ServiceManifest → Machine → ℕ → ℕ
unfolding find_process_pid
match_process os m s zero = 0
match_process os m s (suc tries) =
    let rest = match_process os m s tries in
    let hit =
      find_process_pid os.lower m.process_name (absolute m.external_work_dir)
        (no_rows (os.process_table tries s)) in
    if positive hit then or_zero hit else rest

abbrev pub failure : StartProcessResult
failure = record { status = "error"; pid = 0; uptime = 0; failed = true }

abbrev pub running : ℕ → ℕ → StartProcessResult
running pid now = record { status = "running"; pid = pid; uptime = now; failed = false }

abbrev pub with_file : FilePath → Content → Machine → Machine
with_file p c s = record {
  disk = or_same (write_file p c s.disk) s.disk;
  alive = s.alive;
  launched = s.launched;
}

-- what the machine is when a program has been started, or has been started and waited for
abbrev pub after_start : Os → ℕ → Launch → Machine → Machine
after_start os pid l s =
    os.begun l (record { disk = s.disk; alive = pid ∷ s.alive; launched = l ∷ s.launched })

abbrev pub after_run : Os → Launch → Machine → Machine
after_run os l s = os.ran l (record { disk = s.disk; alive = s.alive; launched = l ∷ s.launched })

abbrev pub is_matched : ServiceManifest → Bool
is_matched m = m.is_external && m.pid_strategy == "match"

-- the target process and the machine, once cmd.Start has succeeded with a process id
unfoldable pub find_target : Os → ServiceManifest → Launch → ℕ → Machine → ℕ × Machine
unfolding match_process
find_target os m l pid s =
    if is_matched m
    then (match_process os m (after_run os l s) 5, after_run os l s)
    else (pid, after_start os pid l s)

-- the code from `var targetPID`
unfoldable pub record_target :
    ℕ → FilePath → ServiceManifest → ℕ × Machine → StartProcessResult × Machine
unfolding write_file
record_target now work_dir m (target, s) =
    if is_matched m && target == 0
    then (failure, s)
    else (running target now, with_file ("pid" ∷ work_dir) (text (itoa target)) s)

-- the result of cmd.Start, and what follows
abbrev pub launched_as :
    Os → ℕ → FilePath → ServiceManifest → Launch → Machine → Option ℕ → StartProcessResult × Machine
launched_as os now work_dir m l s none = (failure, s)
launched_as os now work_dir m l s (some pid) =
    record_target now work_dir m (find_target os m l pid s)

abbrev pub launch_of : Os → FilePath → ServiceManifest → FilePath → Launch
launch_of os work_dir m path = record {
  executable = path;
  args = m.args;
  directory = exec_dir work_dir m;
  env = build_env os m.env;
}

-- the result of resolveExecutable, and the creation of the log file and the start
abbrev pub start_resolved :
    Os → ℕ → FilePath → ServiceManifest → Machine → Option FilePath → StartProcessResult × Machine
start_resolved os now work_dir m s none = (failure, s)
start_resolved os now work_dir m s (some path) =
    let logged = with_file ("app.log" ∷ work_dir) (text "") s in
    launched_as os now work_dir m (launch_of os work_dir m path) logged
      (os.started (launch_of os work_dir m path) logged)

unfoldable pub start_manifest :
    Os → ℕ → FilePath → ServiceManifest → Machine → StartProcessResult × Machine
unfolding resolve_executable write_file find_target record_target join
start_manifest os now work_dir m s =
    start_resolved os now work_dir m s
      (resolve_executable (cmd_path (exec_dir work_dir m) m.entrypoint) s.disk)

-- the result of readManifest, and what follows; `now` is time.Now().Unix()
abbrev pub start_decoded :
    Os → ℕ → FilePath → Machine → Option ServiceManifest → StartProcessResult × Machine
start_decoded os now work_dir s none = (failure, s)
start_decoded os now work_dir s (some m) =
    let start = start_manifest os now work_dir m s in
    if is_running work_dir s then (running (get_pid work_dir s.disk) now, s) else start

unfoldable pub start_process : Os → ℕ → FilePath → Machine → StartProcessResult × Machine
unfolding read_manifest is_running start_manifest get_pid
start_process os now work_dir s = start_decoded os now work_dir s (read_manifest work_dir s.disk)
