-- ===== src/Backup/Api.antt =====
-- internal/master/api/backup_handler.go. A body is what its JSON decodes to, none for an error; a
-- reply is its code and its data.
use ops_system.Prelude.{
  ℕ, String, List, Option, none, some, Bool, true, false, ◌==◌, string_key, if◌then◌else◌,
}
use ops_system.Protocol.{BackupFile}
use ops_system.Disk.{FilePath, Disk, Content}
use ops_system.Backup.{BackupManager, list_backups, create_backup, delete_backup, restore_backup}
use ops_system.Code

pub data BackupData : Type 0 where
  no_backup_data : BackupData
  backups : List BackupFile → BackupData

pub record BackupReply : Type 0 where
  pub code : ℕ
  pub body : BackupData

abbrev pub fail : ℕ → BackupReply
fail c = record { code = c; body = no_backup_data }

abbrev pub succeed : BackupData → BackupReply
succeed b = record { code = Code.success; body = b }

abbrev pub list_reply : Option (List BackupFile) → BackupReply
list_reply none = fail Code.server_error
list_reply (some list) = succeed (backups list)

unfoldable pub get_backups : (FilePath → ℕ) → (FilePath → ℕ) → BackupManager → Disk → BackupReply
unfolding list_backups
get_backups size mod_time bm d = list_reply (list_backups size mod_time bm d)

abbrev pub finish : BackupData → Disk × Bool → Disk × BackupReply
finish b (d, true) = (d, succeed b)
finish b (d, false) = (d, fail Code.server_error)

unfoldable pub post_create_backup :
    BackupManager → Option Content → String → String → Option Bool → Disk → Disk × BackupReply
unfolding create_backup
post_create_backup bm vacuum timestamp method none d =
    if method == "POST" then (d, fail Code.invalid_json) else (d, fail Code.method_not_allowed)
post_create_backup bm vacuum timestamp method (some with_files) d =
    if method == "POST"
    then finish no_backup_data (create_backup bm vacuum timestamp with_files d)
    else (d, fail Code.method_not_allowed)

unfoldable pub post_delete_backup :
    BackupManager → String → Option String → Disk → Disk × BackupReply
unfolding delete_backup
post_delete_backup bm method none d =
    if method == "POST" then (d, fail Code.invalid_json) else (d, fail Code.method_not_allowed)
post_delete_backup bm method (some filename) d =
    if method == "POST"
    then finish no_backup_data (delete_backup bm filename d)
    else (d, fail Code.method_not_allowed)

-- none is the exit of the process, before any reply
abbrev pub unless_exited : Disk × Bool → Disk × Option BackupReply
unless_exited (d, true) = (d, none)
unless_exited (d, false) = (d, some (fail Code.server_error))

unfoldable pub post_restore_backup :
    BackupManager → Bool → ℕ → String → Option String → Disk → Disk × Option BackupReply
unfolding restore_backup
post_restore_backup bm closed now method none d =
    if method == "POST"
    then (d, some (fail Code.invalid_json))
    else (d, some (fail Code.method_not_allowed))
post_restore_backup bm closed now method (some filename) d =
    if method == "POST"
    then unless_exited (restore_backup bm closed now filename d)
    else (d, some (fail Code.method_not_allowed))
