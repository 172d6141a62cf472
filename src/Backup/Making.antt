-- ===== src/Backup/Making.antt =====
-- What making a backup of the database leaves on the disk.
use ops_system.Prelude.{
  String, ◌≡◌, refl, ◌≢◌, [], ◌∷◌, Option, none, some, true, false, arith, ap, sym, ◌∙◌, subst,
  string_key,
}
use Prim.Native.String.{◌++◌ as append}
use Prim.Native.Char.{char}
use package.text.Mathlib.TextLemmas.{cons-append}
use ops_system.Assoc.{lookup, insert}
use ops_system.Words.{has_prefix}
use ops_system.Disk.{
  FilePath, Disk, directory, file, Content, text, archive, sealed, packs_file, path_key,
  path_matches_iff, parent, is_directory, read_file, write_file, or_same, remove, content,
}
use ops_system.Disk.Laws.{
  lookup-write_file_ne, lookup-write_file_self, lookup-write_file, lookup-written_ne,
  lookup-remove_ne, below-ne,
}
use ops_system.Disk.Tree.{of_is_directory}
use ops_system.Backup.{
  BackupManager, new_backup_manager, pack, snapshot_path, zip_name, fill_zip, zip_snapshot,
  create_backup,
}

abbrev pub db_archive : Content → Content
db_archive db = archive (packs_file "ops_data.db" db sealed)

-- what a file that was written says of the disk
written_in_dir :
    (p : FilePath) (c : Content) (d d' : Disk)
    → write_file p c d ≡ some d'
    → lookup (parent p) d ≡ some directory
unfolding write_file
written_in_dir p c d d' h = of_is_directory (lookup (parent p) d) (ground arith)

pub write_file-done :
    (n : String) (dir : FilePath) (c : Content) (d : Disk)
    → lookup dir d ≡ some directory
    → is_directory (lookup (n ∷ dir) d) ≡ false
    → write_file (n ∷ dir) c d ≡ some (insert (n ∷ dir) (file c) d)
unfolding write_file
write_file-done n dir c d e k = rw (e, k) refl

rewritten :
    (n : String) (dir : FilePath) (c : Content) (d : Disk)
    → lookup dir d ≡ some directory
    → is_directory (lookup (n ∷ dir) d) ≡ false
    → lookup (n ∷ dir) (or_same (write_file (n ∷ dir) c d) d) ≡ some (file c)
rewritten n dir c d e k =
    lookup-write_file (n ∷ dir) (n ∷ dir) c d (rw e refl) k
    ∙ rw ((path_matches_iff (n ∷ dir) (n ∷ dir)).1 refl) refl

pub not_directory_of_file :
    (p : FilePath) (c : Content) (d : Disk)
    → lookup p d ≡ some (file c)
    → is_directory (lookup p d) ≡ false
not_directory_of_file p c d e = rw e refl

-- a ZIP file other than the snapshot is not its name
zip_name-ne-snapshot : (ts : String) → zip_name false ts ≢ "snapshot.db"
unfolding has_prefix
zip_name-ne-snapshot ts e = false-ne-true (
    ap (λ (s : String). has_prefix s "b") (sym e)
    ∙ rw (cons-append (char 98 tt) "ackup_" (append "lite" (append "_" (append ts ".zip"))))
        (starts "ackup_"))
  where
    false-ne-true : false ≡ true → ⊥
    false-ne-true h = ground arith

    starts : (t : String) → has_prefix (String.◌∷◌ (char 98 tt) t) "b" ≡ true
    starts t = refl

module _ (app uploads : FilePath) (ts : String) (db : Content) where
  abbrev pub bm : BackupManager
  bm = new_backup_manager app uploads

  abbrev pub zip : FilePath
  zip = zip_name false ts ∷ "backups" ∷ app

  snapshot-ne-zip : snapshot_path bm ≢ zip
  snapshot-ne-zip e = zip_name-ne-snapshot ts (ap first (sym e))
    where
      first : FilePath → String
      first [] = ""
      first (n ∷ p) = n

  -- what CreateBackup leaves: the archive of the database, and the other paths as they were
  pub record IsBackedUp (before after : Disk) : Type 0 where
    pub is_stored : lookup zip after ≡ some (file (db_archive db))
    pub is_kept : (q : FilePath) → zip ≢ q → snapshot_path bm ≢ q → lookup q after ≡ lookup q before

  filled-IsBackedUp :
      (d created : Disk)
      → write_file zip (archive sealed) d ≡ some created
      → read_file (snapshot_path bm) created ≡ some db
      → IsBackedUp d (fill_zip bm false zip d (some created)).0
  filled-IsBackedUp d created w r =
      subst (λ (o : Option Content). IsBackedUp d (finished o)) (sym r)
        (record {
          is_stored =
              lookup-remove_ne (snapshot_path bm) zip filled snapshot-ne-zip
              ∙ rewritten (zip_name false ts) ("backups" ∷ app) (db_archive db) created
                  (lookup-write_file_ne zip ("backups" ∷ app) (archive sealed) d created w
                      (below-ne (zip_name false ts) ("backups" ∷ app))
                    ∙ written_in_dir zip (archive sealed) d created w)
                  (not_directory_of_file zip (archive sealed) created
                    (lookup-write_file_self zip (archive sealed) d created w));
          is_kept = λ q h k.
              lookup-remove_ne (snapshot_path bm) q filled k
              ∙ lookup-written_ne zip q (db_archive db) created h
              ∙ lookup-write_file_ne zip q (archive sealed) d created w h;
        })
    where
      filled : Disk
      filled = or_same (write_file zip (db_archive db) created) created

      finished : Option Content → Disk
      finished o =
          let (entries, ok) = pack false uploads created o in
          let f = or_same (write_file zip (archive entries) created) created in
          or_same (remove (snapshot_path bm) f) f

  -- the file of the ZIP, once the snapshot is there
  zipped-IsBackedUp :
      (d : Disk) (o : Option Disk)
      → read_file (snapshot_path bm) d ≡ some db
      → write_file zip (archive sealed) d ≡ o
      → (fill_zip bm false zip d o).1 ≡ true
      → IsBackedUp d (fill_zip bm false zip d o).0
  zipped-IsBackedUp d none r w h = absurd (ground arith)
  zipped-IsBackedUp d (some created) r w h = filled-IsBackedUp d created w (
      read_file-kept (
        lookup-write_file_ne zip (snapshot_path bm) (archive sealed) d created w
          (λ e. snapshot-ne-zip (sym e)))
      ∙ r)
    where
      read_file-kept :
          lookup (snapshot_path bm) created ≡ lookup (snapshot_path bm) d
          → read_file (snapshot_path bm) created ≡ read_file (snapshot_path bm) d
      read_file-kept e = unfold read_file in ap content e

  snapped-IsBackedUp :
      (d : Disk) (o : Option Disk)
      → write_file (snapshot_path bm) db d ≡ o
      → (zip_snapshot bm false zip d o).1 ≡ true
      → IsBackedUp d (zip_snapshot bm false zip d o).0
  snapped-IsBackedUp d none w h = absurd (ground arith)
  snapped-IsBackedUp d (some d') w h =
      let made =
        zipped-IsBackedUp d' (write_file zip (archive sealed) d')
          (unfold read_file in ap content (lookup-write_file_self (snapshot_path bm) db d d' w))
          refl h in
      record {
        is_stored = made.is_stored;
        is_kept =
            λ q k l. made.is_kept q k l ∙ lookup-write_file_ne (snapshot_path bm) q db d d' w l;
      }

  pub create_backup-IsBackedUp :
      (d : Disk)
      → (create_backup bm (some db) ts false d).1 ≡ true
      → IsBackedUp d (create_backup bm (some db) ts false d).0
  unfolding create_backup
  create_backup-IsBackedUp d h =
      let cleaned = or_same (remove (snapshot_path bm) d) d in
      let made = snapped-IsBackedUp cleaned (write_file (snapshot_path bm) db cleaned) refl h in
      record {
        is_stored = made.is_stored;
        is_kept = λ q k l. made.is_kept q k l ∙ lookup-remove_ne (snapshot_path bm) q d l;
      }
