-- ===== src/Backup/Outside.antt =====
-- What a restore leaves alone: everything that is not below the directory of the executable.
use ops_system.Prelude.{
  ℕ, String, ◌≡◌, refl, ◌∷◌, Option, none, some, Bool, true, false, arith, inl, inr, not, ◌||◌,
  Bool-cases, string_key,
}
use ops_system.Assoc.{lookup}
use ops_system.Disk.{FilePath, Disk, path_key, path_matches_iff, is_within, join, or_same, rename}
use ops_system.Disk.Laws.{lookup-rename_ne, is_within_refl, below-ne}
use ops_system.Worker.Install.{is_legal}
use ops_system.Worker.Unpacking.{ne_of_legal}
use ops_system.Backup.{
  new_backup_manager, is_present, unzip_restore, rollback_path, roll_back, restore_backup,
}
use ops_system.Backup.Restoring.{IsPlace, Stays, Stays-trans, IsPlace-Stays, lookup-unzip_restore}

child-legal : (dir : FilePath) (n : String) → is_legal dir (n ∷ dir) ≡ true
unfolding is_within
child-legal dir n =
    ground (arith, is_within_refl dir, below-ne n dir, (path_matches_iff dir (n ∷ dir)).0)

-- a file of the directory is renamed in it
rename-Stays :
    (app : FilePath) (n m : String) (d : Disk)
    → Stays app d (or_same (rename (n ∷ app) (m ∷ app) d) d)
rename-Stays app n m d q out = by_result (rename (n ∷ app) (m ∷ app) d) refl
  where
    by_result :
        (o : Option Disk) → rename (n ∷ app) (m ∷ app) d ≡ o → lookup q (or_same o d) ≡ lookup q d
    by_result none e = refl
    by_result (some d') e =
        lookup-rename_ne (n ∷ app) (m ∷ app) q d d' e
          (ne_of_legal app (n ∷ app) q (child-legal app n) out)
          (ne_of_legal app (m ∷ app) q (child-legal app m) out)

roll_back-Stays :
    (app : FilePath) (n m : String) (d : Disk) (r : Disk × Bool)
    → Stays app d r.0
    → Stays app d (roll_back (m ∷ app) (n ∷ app) r).0
roll_back-Stays app n m d (d', true) f = f
roll_back-Stays app n m d (d', false) f =
    Stays-trans app d d' (or_same (rename (m ∷ app) (n ∷ app) d') d') f (rename-Stays app m n d')

-- RestoreBackup changes no path that is not strictly below the directory of the executable, whatever
-- the backup and its name are, whether it succeeds or fails and is rolled back, if that directory and
-- the one it stands in are there. So a database that the option db_path puts outside that directory is
-- never restored, also where RestoreBackup succeeds. (What SQLite does to its files when the database
-- is closed is left out.)
pub lookup-restore_backup :
    (app uploads : FilePath) (closed : Bool) (now : ℕ) (name : String) (q : FilePath) (d : Disk)
    → IsPlace app d
    → is_legal app q ≡ false
    → lookup q (restore_backup (new_backup_manager app uploads) closed now name d).0 ≡ lookup q d
unfolding restore_backup
lookup-restore_backup app uploads closed now name q d place out =
    elim (Bool-cases (not (is_present (lookup src d)) || not closed)) [
      | inl refused ↦ rw refused refl
      | inr goes ↦ rw goes (
          roll_back-Stays app "ops_data.db" _ d (unzip_restore src app renamed)
            (Stays-trans app d renamed (unzip_restore src app renamed).0 moved (λ p h.
              lookup-unzip_restore src app p renamed (IsPlace-Stays app d renamed moved place) h))
            q out)
    ]
  where
    src : FilePath
    src = join ("backups" ∷ app) name

    renamed : Disk
    renamed = or_same (rename ("ops_data.db" ∷ app) (rollback_path ("ops_data.db" ∷ app) now) d) d

    moved : Stays app d renamed
    moved = rename-Stays app "ops_data.db" _ d
