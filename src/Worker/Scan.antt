-- ===== src/Worker/Scan.antt =====
-- internal/worker/executor/instance_manager.go: scanInstancesInDir, GetAllLocalInstances and
-- FindInstanceDir.
use ops_system.Prelude.{
  String, List, [], ◌∷◌, ◌++◌, Option, none, some, Bool, ◌==◌, string_key, if◌then◌else◌, ◌&&◌,
  ◌||◌, not,
}
use Prim.Native.String.{◌++◌ as append}
use ops_system.Assoc.{lookup}
use ops_system.Words.{split_last, has_suffix}
use ops_system.Disk.{FilePath, Disk, path_key, is_directory, read_dir}
use ops_system.Worker.{InstanceDirInfo}

abbrev pub is_dir : FilePath → Disk → Bool
is_dir p d = is_directory (lookup p d)

-- the directories of the executor's own
abbrev pub is_reserved : String → Bool
is_reserved name = name == "pkg_cache" || name == "external"

abbrev pub id_part : Option (String × String) → Option String
id_part none = none
id_part (some (before, after)) =
    if not (before == "") && not (after == "") then some after else none

-- the id in a directory's name: what follows the last underscore, if something stands on both sides
unfoldable pub instance_id_of : String → Option String
unfolding split_last
instance_id_of name = id_part (split_last 95 name)

abbrev pub onto_scanned : FilePath → Option String → List InstanceDirInfo → List InstanceDirInfo
onto_scanned p none rest = rest
onto_scanned p (some id) rest = record { instance_id = id; work_dir = p } ∷ rest

-- the loop over the entries of a system
unfoldable pub scan_names : FilePath → Disk → List String → List InstanceDirInfo
unfolding instance_id_of
scan_names dir d [] = []
scan_names dir d (name ∷ names) =
    let rest = scan_names dir d names in
    if not (is_dir (name ∷ dir) d)
    then rest
    else onto_scanned (name ∷ dir) (instance_id_of name) rest

abbrev pub or_no_names : Option (List String) → List String
or_no_names none = []
or_no_names (some names) = names

-- the loop over the systems; a directory that cannot be read counts as empty
unfoldable pub scan_systems : FilePath → Disk → List String → List InstanceDirInfo
unfolding scan_names read_dir
scan_systems dir d [] = []
scan_systems dir d (sys ∷ systems) =
    let rest = scan_systems dir d systems in
    if not (is_dir (sys ∷ dir) d) || is_reserved sys
    then rest
    else scan_names (sys ∷ dir) d (or_no_names (read_dir (sys ∷ dir) d)) ++ rest

unfoldable pub scan_instances_in_dir : FilePath → Disk → List InstanceDirInfo
unfolding scan_systems read_dir
scan_instances_in_dir dir d = scan_systems dir d (or_no_names (read_dir dir d))

unfoldable pub get_all_local_instances : Option FilePath → Disk → List InstanceDirInfo
unfolding scan_instances_in_dir
get_all_local_instances none d = []
get_all_local_instances (some base) d =
    scan_instances_in_dir base d ++ scan_instances_in_dir ("external" ∷ base) d

abbrev pub names_instance : String → String → Bool
names_instance id name = name == id || has_suffix name (append "_" id)

-- the loop over the entries of a system, up to a return
unfoldable pub find_name : String → FilePath → Disk → List String → Option FilePath
find_name id dir d [] = none
find_name id dir d (name ∷ names) =
    let rest = find_name id dir d names in
    if is_dir (name ∷ dir) d && names_instance id name then some (name ∷ dir) else rest

abbrev pub or_else {ℓ} : {A : Type ℓ} → Option A → Option A → Option A
or_else none b = b
or_else (some a) b = some a

-- the loop over the systems of searchInRoot, up to a return
unfoldable pub find_in_systems : String → FilePath → Disk → List String → Option FilePath
unfolding find_name read_dir
find_in_systems id dir d [] = none
find_in_systems id dir d (sys ∷ systems) =
    let rest = find_in_systems id dir d systems in
    if not (is_dir (sys ∷ dir) d) || is_reserved sys
    then rest
    else or_else (find_name id (sys ∷ dir) d (or_no_names (read_dir (sys ∷ dir) d))) rest

unfoldable pub search_in_root : String → FilePath → Disk → Option FilePath
unfolding find_in_systems read_dir
search_in_root id dir d = find_in_systems id dir d (or_no_names (read_dir dir d))

unfoldable pub find_instance_dir : Option FilePath → String → Disk → Option FilePath
unfolding search_in_root
find_instance_dir none id d = none
find_instance_dir (some base) id d =
    or_else (search_in_root id base d) (search_in_root id ("external" ∷ base) d)
