-- ===== src/Backup.antt =====
-- internal/master/manager/backup_manager.go: backups are ZIP archives in a directory. `size` and
-- `mod_time` are what os.Stat says, `vacuum` is the snapshot that SQLite makes, none for its error,
-- and times are Unix seconds or their text.
pub mod Restoring
pub mod Making
pub mod Returning
pub mod Outside
pub mod Api
use ops_system.Prelude.{
  ℕ, String, List, [], ◌∷◌, Option, none, some, Bool, true, false, ◌==◌, string_key, if◌then◌else◌,
  not, ◌&&◌, ◌||◌, ltb, leb,
}
use Prim.Native.Char.{char}
use Prim.Native.String.{◌++◌ as append}
use ops_system.Assoc.{lookup}
use ops_system.Table.{order_desc}
use ops_system.Words.{contains, has_suffix, itoa, replace_char}
use ops_system.Protocol.{BackupFile}
use ops_system.Disk.{
  FilePath, Disk, Entry, directory, file, Content, text, manifest, archive, Archive, sealed,
  packs_dir, packs_file, path_key, path_matches, parent, join, is_within, read_file, write_file,
  mkdir_all, remove, rename, read_dir, or_same,
}
use ops_system.Packages.Local.{relative}
use ops_system.Worker.Install.{attempt}

pub record BackupManager : Type 0 where
  pub backup_dir : FilePath
  pub data_path : FilePath
  pub upload_dir : FilePath

-- NewBackupManager, for the directory of the executable; the directory of the backups is made apart
abbrev pub new_backup_manager : FilePath → FilePath → BackupManager
new_backup_manager app uploads = record {
  backup_dir = "backups" ∷ app;
  data_path = "ops_data.db" ∷ app;
  upload_dir = uploads;
}

module _ (size mod_time : FilePath → ℕ) where
  abbrev pub backup_file : FilePath → String → BackupFile
  backup_file dir name = record {
    name = name;
    size = size (name ∷ dir);
    create_time = mod_time (name ∷ dir);
    with_files = contains name "_full_";
  }

  abbrev pub is_file : Option Entry → Bool
  is_file none = false
  is_file (some directory) = false
  is_file (some (file c)) = true

  -- the loop over the entries
  unfoldable pub collect_backups : FilePath → Disk → List String → List BackupFile
  collect_backups dir d [] = []
  collect_backups dir d (name ∷ names) =
      let rest = collect_backups dir d names in
      if is_file (lookup (name ∷ dir) d) && has_suffix name ".zip"
      then backup_file dir name ∷ rest
      else rest

  -- with sort.Slice, which leaves the order of equal times open
  abbrev pub backups_of : FilePath → Disk → Option (List String) → Option (List BackupFile)
  backups_of dir d none = none
  backups_of dir d (some names) =
      some (order_desc (λ (b : BackupFile). b.create_time) (collect_backups dir d names) [])

  unfoldable pub list_backups : BackupManager → Disk → Option (List BackupFile)
  unfolding collect_backups order_desc read_dir
  list_backups bm d = backups_of bm.backup_dir d (read_dir bm.backup_dir d)

-- addDirToZip below a directory: the files that are below it, as entries of "uploads"
unfoldable pub add_files_below : FilePath → Disk → Archive
unfolding relative is_within
add_files_below dir [] = sealed
add_files_below dir ((p, directory) ∷ d) = add_files_below dir d
add_files_below dir ((p, file c) ∷ d) =
    let rest = add_files_below dir d in
    if is_within dir p && not (path_matches dir p)
    then packs_file (replace_char 92 (char 47 tt) (append "uploads/" (relative dir p))) c rest
    else rest

-- the entries and success; filepath.WalkDir reports a root that is not there
abbrev pub add_dir_to_zip : FilePath → Disk → Option Entry → Archive × Bool
add_dir_to_zip dir d none = (sealed, false)
add_dir_to_zip dir d (some (file c)) = (packs_file "uploads" c sealed, true)
add_dir_to_zip dir d (some directory) = (add_files_below dir d, true)

abbrev pub uploads_of : Bool → FilePath → Disk → Archive × Bool
uploads_of true dir d = add_dir_to_zip dir d (lookup dir d)
uploads_of false dir d = (sealed, true)

-- the entry of the database, and those of the uploads; an error leaves what was written before it
abbrev pub pack : Bool → FilePath → Disk → Option Content → Archive × Bool
pack with_files dir d none = (sealed, false)
pack with_files dir d (some db) =
    let (uploads, ok) = uploads_of with_files dir d in (packs_file "ops_data.db" db uploads, ok)

abbrev pub snapshot_path : BackupManager → FilePath
snapshot_path bm = "snapshot.db" ∷ bm.backup_dir

abbrev pub zip_name : Bool → String → String
zip_name with_files timestamp =
    append "backup_"
      (append (if with_files then "full" else "lite") (append "_" (append timestamp ".zip")))

-- the result of os.Create for the ZIP file, its closing and the removal of the snapshot
abbrev pub fill_zip : BackupManager → Bool → FilePath → Disk → Option Disk → Disk × Bool
fill_zip bm with_files zip d none = (or_same (remove (snapshot_path bm) d) d, false)
fill_zip bm with_files zip d (some created) =
    let (entries, ok) =
      pack with_files bm.upload_dir created (read_file (snapshot_path bm) created) in
    let filled = or_same (write_file zip (archive entries) created) created in
    (or_same (remove (snapshot_path bm) filled) filled, ok)

-- the result of the snapshot, and what follows
abbrev pub zip_snapshot : BackupManager → Bool → FilePath → Disk → Option Disk → Disk × Bool
zip_snapshot bm with_files zip d none = (d, false)
zip_snapshot bm with_files zip d (some d') =
    fill_zip bm with_files zip d' (write_file zip (archive sealed) d')

abbrev pub take_snapshot : FilePath → Option Content → Disk → Option Disk
take_snapshot path none d = none
take_snapshot path (some db) d = write_file path db d

unfoldable pub create_backup : BackupManager → Option Content → String → Bool → Disk → Disk × Bool
unfolding read_file write_file remove add_files_below
create_backup bm vacuum timestamp with_files d =
    let cleaned = or_same (remove (snapshot_path bm) d) d in
    zip_snapshot bm with_files (zip_name with_files timestamp ∷ bm.backup_dir) cleaned
      (take_snapshot (snapshot_path bm) vacuum cleaned)

unfoldable pub delete_backup : BackupManager → String → Disk → Disk × Bool
unfolding remove join
delete_backup bm filename d =
    if contains filename "/" || contains filename "\\"
    then (d, false)
    else attempt d (remove (join bm.backup_dir filename) d)

-- the file of an entry: os.OpenFile and io.Copy, and the loop goes on or ends with an error
abbrev pub restored : Disk → Option Disk → (Disk → Disk × Bool) → Disk × Bool
restored d none later = (d, false)
restored d (some d') later = later d'

abbrev pub restore_file :
    FilePath → Content → Disk → Option Disk → (Disk → Disk × Bool) → Disk × Bool
restore_file path c d none later = (d, false)
restore_file path c d (some d') later = restored d' (write_file path c d') later

-- the loop over the entries
unfoldable pub restore_entries : FilePath → Archive → Disk → Disk × Bool
unfolding join mkdir_all write_file
restore_entries dest sealed d = (d, true)
restore_entries dest (packs_dir name rest) d =
    restore_entries dest rest
      (if contains name ".." then d else or_same (mkdir_all (join dest name) d) d)
restore_entries dest (packs_file name c rest) d =
    let skipped = restore_entries dest rest d in
    if contains name ".."
    then skipped
    else restore_file (join dest name) c d (mkdir_all (parent (join dest name)) d)
        (restore_entries dest rest)

abbrev pub restore_content : FilePath → Option Content → Disk → Disk × Bool
restore_content dest (some (archive a)) d = restore_entries dest a d
restore_content dest other d = (d, false)

unfoldable pub unzip_restore : FilePath → FilePath → Disk → Disk × Bool
unfolding restore_entries read_file
unzip_restore src dest d = restore_content dest (read_file src d) d

abbrev pub rollback_path : FilePath → ℕ → FilePath
rollback_path [] now = []
rollback_path (n ∷ p) now = append n (append ".rollback." (itoa now)) ∷ p

-- the result of unzipRestore: an exit of the process, or the way back
abbrev pub roll_back : FilePath → FilePath → Disk × Bool → Disk × Bool
roll_back rollback data_path (d, true) = (d, true)
roll_back rollback data_path (d, false) = (or_same (rename rollback data_path d) d, false)

abbrev pub is_present : Option Entry → Bool
is_present none = false
is_present (some e) = true

-- `closed` is the success of db.CloseDB. True is the exit of the process.
unfoldable pub restore_backup : BackupManager → Bool → ℕ → String → Disk → Disk × Bool
unfolding join rename unzip_restore
restore_backup bm closed now filename d =
    if not (is_present (lookup (join bm.backup_dir filename) d)) || not closed
    then (d, false)
    else roll_back (rollback_path bm.data_path now) bm.data_path (
        unzip_restore (join bm.backup_dir filename) (parent bm.data_path)
          (or_same (rename bm.data_path (rollback_path bm.data_path now) d) d))
