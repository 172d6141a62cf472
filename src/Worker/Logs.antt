-- ===== src/Worker/Logs.antt =====
-- internal/worker/executor/log_helper.go: the logs of an instance and the paths of their files.
use ops_system.Prelude.{
  String, List, [], ◌∷◌, Option, none, some, ◌==◌, string_key, if◌then◌else◌, not, ◌&&◌, ◌||◌,
}
use ops_system.Assoc.{lookup}
use ops_system.Words.{sort_strings}
use ops_system.Protocol.{ServiceManifest}
use ops_system.Disk.{FilePath, Disk, join}
use ops_system.Worker.Scan.{find_instance_dir}
use ops_system.Worker.Process.{read_manifest, is_abs, absolute}

abbrev pub log_key_console : String
log_key_console = "Console Log"

abbrev pub keys_of : List (String × String) → List String
keys_of [] = []
keys_of ((k, v) ∷ rest) = k ∷ keys_of rest

abbrev pub log_names : Option ServiceManifest → List String
log_names none = log_key_console ∷ []
log_names (some m) = log_key_console ∷ sort_strings (keys_of m.log_paths)

unfoldable pub get_log_files : Option FilePath → String → Disk → Option (List String)
unfolding find_instance_dir read_manifest sort_strings
get_log_files base id d = elim (find_instance_dir base id d) [
  | none ↦ none
  | some work_dir ↦ some (log_names (read_manifest work_dir d))
]

abbrev pub log_base : FilePath → ServiceManifest → FilePath
log_base work_dir m =
    if m.is_external && not (m.external_work_dir == "")
    then absolute m.external_work_dir
    else work_dir

abbrev pub resolve_log : FilePath → ServiceManifest → Option String → Option FilePath
resolve_log work_dir m none = none
resolve_log work_dir m (some path) =
    if is_abs path then some (absolute path) else some (join (log_base work_dir m) path)

abbrev pub custom_log : FilePath → String → Option ServiceManifest → Option FilePath
custom_log work_dir key none = none
custom_log work_dir key (some m) = resolve_log work_dir m (lookup key m.log_paths)

unfoldable pub get_log_path : Option FilePath → String → String → Disk → Option FilePath
unfolding find_instance_dir read_manifest join
get_log_path base id key d = elim (find_instance_dir base id d) [
  | none ↦ none
  | some work_dir ↦
      if key == log_key_console || key == ""
      then some ("app.log" ∷ work_dir)
      else custom_log work_dir key (read_manifest work_dir d)
]
