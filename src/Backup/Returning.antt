-- ===== src/Backup/Returning.antt =====
-- A backup that was made is restored to the file ops_data.db beside the executable.
use ops_system.Prelude.{
  ℕ, String, ◌≡◌, refl, ◌≢◌, length, inl, inr, ◌∷◌, Option, none, some, Bool, true, false, arith,
  ap, sym, ◌∙◌, Bool-cases, subst, string_key,
}
use ops_system.Assoc.{lookup, erase, lookup-erase_self, lookup-insert_self}
use ops_system.Words.{contains, split, has_prefix}
use ops_system.Disk.{
  FilePath, Disk, Entry, directory, file, Content, sealed, packs_file, path_key, path_matches,
  path_matches_iff, descend, join, is_directory, read_file, write_file, or_same, rename, content,
}
use ops_system.Disk.Laws.{
  lookup-write_file_ne, lookup-write_file_self, lookup-rename_ne, mkdir_all-directory, below-ne,
}
use ops_system.Backup.{
  new_backup_manager, zip_name, create_backup, restore_entries, restore_content, unzip_restore,
  rollback_path, roll_back, restore_backup,
}
use ops_system.Backup.Making.{
  db_archive, write_file-done, not_directory_of_file, IsBackedUp, create_backup-IsBackedUp,
}

-- the way back: the disk on which the entry is written
module _ (app : FilePath) where
  abbrev data_file : FilePath
  data_file = "ops_data.db" ∷ app

  renamed_kept :
      (now : ℕ) (q : FilePath) (d : Disk)
      → data_file ≢ q
      → rollback_path data_file now ≢ q
      → lookup q (or_same (rename data_file (rollback_path data_file now) d) d) ≡ lookup q d
  renamed_kept now q d h k = by_result (rename data_file (rollback_path data_file now) d) refl
    where
      by_result :
          (o : Option Disk)
          → rename data_file (rollback_path data_file now) d ≡ o
          → lookup q (or_same o d) ≡ lookup q d
      by_result none e = refl
      by_result (some d') e = lookup-rename_ne data_file (rollback_path data_file now) q d d' e h k

  renamed_no_directory :
      (to : FilePath) (d : Disk)
      → is_directory (lookup data_file d) ≡ false
      → is_directory (lookup data_file (or_same (rename data_file to d) d)) ≡ false
  renamed_no_directory to d h = by_result (rename data_file to d) refl
    where
      by_write :
          (x : Content) (d' : Disk)
          → write_file to x (erase data_file d) ≡ some d'
          → is_directory (lookup data_file d') ≡ false
      by_write x d' k = elim (Bool-cases (path_matches to data_file)) [
        | inl same ↦
            ap (λ (r : FilePath). is_directory (lookup r d'))
              (sym ((path_matches_iff to data_file).0 same))
            ∙ not_directory_of_file to x d' (lookup-write_file_self to x (erase data_file d) d' k)
        | inr other ↦ ap is_directory (
            lookup-write_file_ne to data_file x (erase data_file d) d' k
              (λ e. ground (arith, (path_matches_iff to data_file).1 e))
            ∙ lookup-erase_self data_file d)
      ]

      by_content :
          (o : Option Content) (d' : Disk)
          → elim o as (λ x. Option Disk) [
            | none ↦ none
            | some x ↦ write_file to x (erase data_file d)
          ]
            ≡ some d'
          → is_directory (lookup data_file d') ≡ false
      by_content none d' k = ground arith
      by_content (some x) d' k = by_write x d' k

      by_result :
          (o : Option Disk)
          → rename data_file to d ≡ o
          → is_directory (lookup data_file (or_same o d)) ≡ false
      by_result none e = h
      by_result (some d') e = by_content (read_file data_file d) d' (unfold rename in e)

  restored_entry :
      (db : Content) (d : Disk)
      → lookup app d ≡ some directory
      → is_directory (lookup data_file d) ≡ false
      → (restore_entries app (packs_file "ops_data.db" db sealed) d).1 ≡ true
        × (read_file data_file (restore_entries app (packs_file "ops_data.db" db sealed) d).0
            ≡ some db)
  unfolding restore_entries contains has_prefix join descend split
  restored_entry db d e k =
      rw (mkdir_all-directory app d e, write_file-done "ops_data.db" app db d e k)
        (refl, unfold read_file in ap content (lookup-insert_self data_file (file db) d))

  -- success, with the database in ops_data.db
  abbrev pub HasDatabase : Content → Disk × Bool → Type 0
  HasDatabase db r = (r.1 ≡ true) × (read_file data_file r.0 ≡ some db)

  roll_back-HasDatabase :
      (db : Content) (rollback : FilePath) (r : Disk × Bool)
      → HasDatabase db r
      → HasDatabase db (roll_back rollback data_file r)
  roll_back-HasDatabase db rollback (d, true) h = h
  roll_back-HasDatabase db rollback (d, false) h = absurd (ground (arith, h.0))

  unzipped-HasDatabase :
      (src : FilePath) (db : Content) (d : Disk)
      → lookup src d ≡ some (file (db_archive db))
      → lookup app d ≡ some directory
      → is_directory (lookup data_file d) ≡ false
      → HasDatabase db (unzip_restore src app d)
  unfolding unzip_restore read_file
  unzipped-HasDatabase src db d z e k =
      subst (λ (o : Option Entry). HasDatabase db (restore_content app (content o) d)) (sym z)
        (restored_entry db d e k)

  -- RestoreBackup on a disk with the archive of the database, apart from the database's files
  restored_archive :
      (uploads : FilePath) (now : ℕ) (name : String) (db : Content) (d : Disk)
      → lookup (name ∷ "backups" ∷ app) d ≡ some (file (db_archive db))
      → join ("backups" ∷ app) name ≡ name ∷ "backups" ∷ app
      → lookup app d ≡ some directory
      → is_directory (lookup data_file d) ≡ false
      → HasDatabase db (restore_backup (new_backup_manager app uploads) true now name d)
  unfolding restore_backup
  restored_archive uploads now name db d z j e k =
      rw (j, z)
        (roll_back-HasDatabase db (rollback_path data_file now)
          (unzip_restore (name ∷ "backups" ∷ app) app renamed)
          (unzipped-HasDatabase (name ∷ "backups" ∷ app) db renamed
            (renamed_kept now (name ∷ "backups" ∷ app) d (λ q. absurd (omega (arith, ap length q)))
                (λ q. absurd (omega (arith, ap length q)))
              ∙ z)
            (renamed_kept now app d (below-ne "ops_data.db" app)
                (λ q. absurd (omega (arith, ap length q)))
              ∙ e)
            (renamed_no_directory (rollback_path data_file now) d k)))
    where
      renamed : Disk
      renamed = or_same (rename data_file (rollback_path data_file now) d) d

-- A backup of the database alone that was made can be restored to the file ops_data.db beside the
-- executable, which is the database's unless the option db_path names another: where CreateBackup
-- succeeds with a snapshot, RestoreBackup of that backup, at whatever later time, succeeds and puts
-- the snapshot into that file. The directory of the executable is there, the file is no directory,
-- the backup's name is a single name, and the database can be closed.
pub restore_backup-create_backup :
    (app uploads : FilePath) (ts : String) (db : Content) (now : ℕ) (d : Disk)
    → lookup app d ≡ some directory
    → is_directory (lookup ("ops_data.db" ∷ app) d) ≡ false
    → join ("backups" ∷ app) (zip_name false ts) ≡ zip_name false ts ∷ "backups" ∷ app
    → (create_backup (new_backup_manager app uploads) (some db) ts false d).1 ≡ true
    → HasDatabase app db (
        restore_backup
          (new_backup_manager app uploads)
          true
          now
          (zip_name false ts)
          (create_backup (new_backup_manager app uploads) (some db) ts false d).0)
restore_backup-create_backup app uploads ts db now d e k j h =
    restored_archive app uploads now (zip_name false ts) db made (backed.is_stored) j
      (backed.is_kept app (λ q. absurd (omega (arith, ap length q)))
          (λ q. absurd (omega (arith, ap length q)))
        ∙ e)
      (ap is_directory (
          backed.is_kept ("ops_data.db" ∷ app) (λ q. absurd (omega (arith, ap length q)))
            (λ q. absurd (omega (arith, ap length q))))
        ∙ k)
  where
    made : Disk
    made = (create_backup (new_backup_manager app uploads) (some db) ts false d).0

    backed : IsBackedUp app uploads ts db d made
    backed = create_backup-IsBackedUp app uploads ts db d h
