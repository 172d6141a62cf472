-- ===== src/Worker/Install.antt =====
-- internal/worker/executor/instance_manager.go: DeployInstance, ensurePackageCached and unzip, and
-- internal/worker/executor/external_manager.go. none is an error; the disk of a failed operation is
-- what it left.
use ops_system.Prelude.{
  String, List, [], ◌∷◌, Option, none, some, Bool, true, false, ◌==◌, string_key, if◌then◌else◌,
  ◌&&◌, not,
}
use Prim.Native.String.{◌++◌ as append}
use ops_system.Words.{fields}
use ops_system.Protocol.{ServiceManifest, DeployRequest, RegisterExternalRequest}
use ops_system.Disk.{
  FilePath, Disk, path_key, path_matches, Content, text, manifest, archive, Archive, sealed,
  packs_dir, packs_file, parent, join, is_within, read_file, write_file, mkdir_all, remove_all,
  remove, rename, or_same,
}

-- info.Size() > 0
abbrev pub has_size : Option Content → Bool
has_size none = false
has_size (some (text s)) = not (s == "")
has_size (some other) = true

abbrev pub cache_dir : FilePath → FilePath
cache_dir base = "pkg_cache" ∷ base

abbrev pub cache_path : FilePath → String → String → FilePath
cache_path base name version =
    join (cache_dir base) (append name (append "_" (append version ".zip")))

-- filepath: p + ".tmp"
abbrev pub tmp_file : FilePath → FilePath
tmp_file [] = ".tmp" ∷ []
tmp_file (n ∷ p) = append n ".tmp" ∷ p

-- the result of an operation: its disk, or the one before it and an error
abbrev pub attempt : Disk → Option Disk → Disk × Bool
attempt d none = (d, false)
attempt d (some d') = (d', true)

-- the result of os.Create and io.Copy, and the renaming
abbrev pub move_download : FilePath → Disk → Option Disk → Disk × Bool
move_download path d none = (d, false)
move_download path d (some d') = attempt d' (rename (tmp_file path) path d')

-- what http.Get gives: an error or a status other than 200, a body that breaks off, or a body
pub data Download : Type 0 where
  refused : Download
  broken_off : Download
  arrived : Content → Download

-- the result of os.Create, a failing io.Copy and os.Remove
abbrev pub drop_download : FilePath → Disk → Option Disk → Disk × Bool
drop_download path d none = (d, false)
drop_download path d (some d') = (or_same (remove (tmp_file path) d') d', false)

abbrev pub store_download : FilePath → Download → Disk → Disk × Bool
store_download path refused d = (d, false)
store_download path broken_off d = drop_download path d (write_file (tmp_file path) (text "") d)
store_download path (arrived body) d = move_download path d (write_file (tmp_file path) body d)

-- the result of os.MkdirAll, and what follows
abbrev pub in_cache_dir : FilePath → Download → Disk → Option Disk → Disk × Bool
in_cache_dir path download d none = (d, false)
in_cache_dir path download d (some d') = store_download path download d'

-- The lock lets one caller at a time download, so the second look at the cache is the first one
-- again. The Boolean is success.
unfoldable pub ensure_package_cached : FilePath → String → String → Download → Disk → Disk × Bool
unfolding join read_file write_file mkdir_all remove rename
ensure_package_cached base name version download d =
    if has_size (read_file (cache_path base name version) d)
    then (d, true)
    else in_cache_dir (cache_path base name version) download d (mkdir_all (cache_dir base) d)

-- the prefix of filepath.HasPrefix: strictly below dest
abbrev pub is_legal : FilePath → FilePath → Bool
is_legal dest p = is_within dest p && not (path_matches dest p)

-- The loop over the entries. Errors of MkdirAll, OpenFile and Copy are dropped. An entry that is
-- not below dest ends it with an error.
unfoldable pub unzip_entries : FilePath → Archive → Disk → Disk × Bool
unfolding join is_within write_file mkdir_all
unzip_entries dest sealed d = (d, true)
unzip_entries dest (packs_dir name rest) d =
    let after = unzip_entries dest rest (or_same (mkdir_all (join dest name) d) d) in
    if is_legal dest (join dest name) then after else (d, false)
unzip_entries dest (packs_file name c rest) d =
    let made = or_same (mkdir_all (parent (join dest name)) d) d in
    let after = unzip_entries dest rest (or_same (write_file (join dest name) c made) made) in
    if is_legal dest (join dest name) then after else (d, false)

abbrev pub unzip_content : Option Content → FilePath → Disk → Disk × Bool
unzip_content (some (archive a)) dest d = unzip_entries dest a d
unzip_content other dest d = (d, false)

unfoldable pub unzip : FilePath → FilePath → Disk → Disk × Bool
unfolding unzip_entries read_file
unzip src dest d = unzip_content (read_file src d) dest d

abbrev pub deploy_dir : FilePath → DeployRequest → FilePath
deploy_dir base req =
    join (join base req.system_name) (append req.service_name (append "_" req.instance_id))

-- the result of os.MkdirAll, and the unpacking
abbrev pub unpack_in : FilePath → FilePath → Disk → Option Disk → Disk × Bool
unpack_in src dest d none = (d, false)
unpack_in src dest d (some d') = unzip src dest d'

-- what follows the caching
unfoldable pub install : FilePath → DeployRequest → Disk → Disk × Bool
unfolding unzip join mkdir_all remove_all
install base req d =
    let emptied = remove_all (deploy_dir base req) d in
    unpack_in (cache_path base req.service_name req.version) (deploy_dir base req) emptied
      (mkdir_all (deploy_dir base req) emptied)

abbrev pub install_cached : FilePath → DeployRequest → Disk × Bool → Disk × Bool
install_cached base req (d, true) = install base req d
install_cached base req (d, false) = (d, false)

unfoldable pub deploy_instance : Option FilePath → Download → DeployRequest → Disk → Disk × Bool
unfolding ensure_package_cached install
deploy_instance none download req d = (d, false)
deploy_instance (some base) download req d =
    install_cached base req (ensure_package_cached base req.service_name req.version download d)

-- the first word and the others, "" and none where there is no word
unfoldable pub parse_cmd_string : String → String × List String
parse_cmd_string cmd = elim (fields cmd) [ [] ↦ ("", []) | bin ∷ args ↦ (bin, args) ]

abbrev pub virtual_dir : FilePath → RegisterExternalRequest → FilePath
virtual_dir base req = join (join ("external" ∷ base) req.system_name) req.instance_id

abbrev pub external_manifest : RegisterExternalRequest → ServiceManifest
external_manifest req =
    let (start_bin, start_args) = parse_cmd_string req.config.start_cmd in
    let (stop_bin, stop_args) = parse_cmd_string req.config.stop_cmd in
    record {
      name = req.config.name;
      version = "external";
      entrypoint = start_bin;
      args = start_args;
      stop_entrypoint = stop_bin;
      stop_args = stop_args;
      env = [];
      log_paths = [];
      is_external = true;
      external_work_dir = req.config.work_dir;
      pid_strategy = req.config.pid_strategy;
      process_name = req.config.process_name;
      description = "纳管外部服务";
      os = "";
    }

-- the result of os.MkdirAll, and the file
abbrev pub save_external : FilePath → ServiceManifest → Disk → Option Disk → Disk × Bool
save_external dir m d none = (d, false)
save_external dir m d (some d') = attempt d' (write_file ("service.json" ∷ dir) (manifest m) d')

unfoldable pub register_external : Option FilePath → RegisterExternalRequest → Disk → Disk × Bool
unfolding parse_cmd_string join mkdir_all write_file
register_external none req d = (d, false)
register_external (some base) req d =
    save_external (virtual_dir base req) (external_manifest req) d
      (mkdir_all (virtual_dir base req) d)
