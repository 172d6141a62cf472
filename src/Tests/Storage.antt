-- ===== src/Tests/Storage.antt =====
-- Packages, backups and the operation log at concrete inputs.
use ops_system.Prelude.{
  ℕ, List, ◌≡◌, ◌⊎◌, String, eq_iff, Bool-cases, ◌==◌, string_key, inl, inr, sym, ap, ◌∙◌, refl, [],
  ◌∷◌, none, some, true, false, arith, keep,
}
use mathlib.Core.List.{Perm, Memᴰ}
use mathlib.Core.List.Memᴰ
use mathlib.Core.Logic.{∥∥₁_elim}
use mathlib.Core.HLevel.{hedberg}
use ops_system.Assoc.{erase, lookup, insert}
use ops_system.Words.{split, has_prefix}
use ops_system.Protocol.{OpLog}
use ops_system.Disk.{
  remove, children, read_file, FilePath, Disk, directory, file, Content, text, manifest, archive,
  sealed, packs_dir, packs_file, path_key, descend, join, is_within, write_file, mkdir_all,
}
use ops_system.Packages.{
  Provider, clean_parts, rel_text, clean, package_key, equal_fold, manifest_in, save_package_stream,
  get_manifest,
}
use ops_system.Packages.Local.{save, get, delete, local_provider}
use ops_system.Packages.Roundtrip.{after, get_manifest-save_package_stream, local_provider_refines}
use ops_system.Backup.{unzip_restore, new_backup_manager, zip_name, create_backup, restore_backup}
use ops_system.Backup.Returning.{HasDatabase, restore_backup-create_backup}
use ops_system.Backup.Outside.{lookup-restore_backup}
use ops_system.Backup.Restoring.{IsPlace, lookup-unzip_restore}
use ops_system.Table.{order_desc}
use ops_system.Table.Order.{
  IsNewestFirst, HasDistinctTimes, order_desc-perm, order_desc-IsNewestFirst,
}
use ops_system.OpLogs.{LogManager, matches_keyword, get_logs}
use ops_system.OpLogs.Paging.{time_of, pages, get_logs-pages}
use ops_system.Tests.Worker.{web}

abbrev uploads : FilePath
uploads = "uploads" ∷ []

abbrev store : Provider Disk
store = local_provider (λ p. 10) (λ p. 20) uploads

abbrev web_zip : Content
web_zip = archive (packs_dir "bin/" (packs_file "Service.JSON" (manifest web) sealed))

get_manifest-save_package_stream_example :
    get_manifest store "web" "1" (save_package_stream store (some web_zip) []).0 ≡ some web
unfolding save_package_stream manifest_in equal_fold package_key clean clean_parts rel_text split
    has_prefix save join descend mkdir_all lookup insert write_file
get_manifest-save_package_stream_example =
    get_manifest-save_package_stream store web (some web_zip) [] refl

local_provider_refines_example :
    let made = (save uploads "web/1.zip" none (text "PK") []).1 in
    ((save uploads "web/1.zip" (some (text "PK")) web_zip []).1 ≡ false)
    × (get uploads "web/1.zip" (save uploads "web/1.zip" (some (text "PK")) web_zip []).0
        ≡ after
            (join uploads "web/1.zip")
            (some (text "PK"))
            made
            (join uploads "web/1.zip")
            (get uploads "web/1.zip" []))
    × (get uploads "web/1.zip" (delete uploads "web/1.zip" []).0
        ≡ after
            (join uploads "web/1.zip")
            none
            (delete uploads "web/1.zip" []).1
            (join uploads "web/1.zip")
            (get uploads "web/1.zip" []))
local_provider_refines_example =
    local_provider_refines uploads "web/1.zip" "web/1.zip" (some (text "PK")) web_zip []

abbrev server : Disk
server =
    ([], directory)
    ∷ ("app" ∷ [], directory)
    ∷ ("etc" ∷ [], directory)
    ∷ ("b.zip" ∷ "app" ∷ [], file (archive (packs_file "../etc/passwd" (text "x") sealed)))
    ∷ []

server-IsPlace : IsPlace ("app" ∷ []) server
unfolding lookup
server-IsPlace = record { is_made = refl; parent_made = refl }

lookup-unzip_restore_example :
    lookup ("etc" ∷ []) (unzip_restore ("b.zip" ∷ "app" ∷ []) ("app" ∷ []) server).0
    ≡ lookup ("etc" ∷ []) server
unfolding is_within
lookup-unzip_restore_example =
    lookup-unzip_restore ("b.zip" ∷ "app" ∷ []) ("app" ∷ []) ("etc" ∷ []) server server-IsPlace refl

abbrev moved_site : Disk
moved_site = ("ops.db" ∷ "etc" ∷ [], file (text "live")) ∷ server

moved_site-IsPlace : IsPlace ("app" ∷ []) moved_site
unfolding lookup
moved_site-IsPlace = record { is_made = refl; parent_made = refl }

lookup-restore_backup_example :
    lookup
      ("ops.db" ∷ "etc" ∷ [])
      (restore_backup (new_backup_manager ("app" ∷ []) uploads) true 9 "../b.zip" moved_site).0
    ≡ lookup ("ops.db" ∷ "etc" ∷ []) moved_site
unfolding is_within
lookup-restore_backup_example =
    lookup-restore_backup ("app" ∷ []) uploads true 9 "../b.zip" ("ops.db" ∷ "etc" ∷ []) moved_site
      moved_site-IsPlace refl

abbrev log_line : ℕ → ℕ → OpLog
log_line n time = record {
  id = n;
  operator = "10.0.0.9";
  action = "create_system";
  target_type = "system";
  target_name = "shop";
  detail = "";
  status = "success";
  create_time = time;
}

abbrev log_lines : LogManager
log_lines = record { last_id = 2; sys_op_logs = log_line 1 50 ∷ log_line 2 60 ∷ [] }

abbrev orders : ℕ → List OpLog → List OpLog
orders k logs = order_desc time_of logs []

string_set : IsSet String
string_set = hedberg (λ a b. elim (Bool-cases (a == b)) [
  | inl same ↦ yes ((eq_iff a b).0 same)
  | inr other ↦ no (λ e. ground (arith, (eq_iff a b).1 e))
])

log_lines-HasDistinctTimes :
    HasDistinctTimes time_of (keep (matches_keyword "") log_lines.sys_op_logs)
unfolding matches_keyword
log_lines-HasDistinctTimes l m p q e =
    ∥∥₁_elim p (hlevel (string_set))
      (λ a. ∥∥₁_elim q (hlevel (string_set)) (λ b. same (of_two a) (of_two b)))
  where
    of_two :
        {x : OpLog}
        → Memᴰ x (log_line 1 50 ∷ log_line 2 60 ∷ [])
        → (x ≡ log_line 1 50) ⊎ (x ≡ log_line 2 60)
    of_two a = elim (Memᴰ.cases_cons a) [
      | inl h ↦ inl h
      | inr k ↦ elim (Memᴰ.cases_cons k) [ inl h ↦ inr h | inr n ↦ absurd (Memᴰ.not-nil n) ]
    ]

    same :
        (l ≡ log_line 1 50) ⊎ (l ≡ log_line 2 60)
        → (m ≡ log_line 1 50) ⊎ (m ≡ log_line 2 60)
        → l ≡ m
    same (inl a) (inl b) = a ∙ sym b
    same (inl a) (inr b) = absurd (omega (arith, sym (ap time_of a) ∙ e ∙ ap time_of b))
    same (inr a) (inl b) = absurd (omega (arith, sym (ap time_of a) ∙ e ∙ ap time_of b))
    same (inr a) (inr b) = a ∙ sym b

get_logs-pages_example :
    Perm (pages orders 2 1 "" log_lines) (keep (matches_keyword "") log_lines.sys_op_logs)
    × IsNewestFirst time_of (pages orders 2 1 "" log_lines)
unfolding get_logs matches_keyword
get_logs-pages_example =
    get_logs-pages orders 2 1 "" log_lines
      (λ k rs. (order_desc-perm time_of rs, order_desc-IsNewestFirst time_of rs [] tt))
      log_lines-HasDistinctTimes (omega arith)

abbrev data_site : Disk
data_site =
    ([], directory)
    ∷ ("app" ∷ [], directory)
    ∷ ("backups" ∷ "app" ∷ [], directory)
    ∷ ("ops_data.db" ∷ "app" ∷ [], file (text "later"))
    ∷ []

restore_backup-create_backup_example : HasDatabase ("app" ∷ []) (text "tables") (
    restore_backup
      (new_backup_manager ("app" ∷ []) uploads)
      true
      99
      (zip_name false "20250101_000000")
      (create_backup
        (new_backup_manager ("app" ∷ []) uploads)
        (some (text "tables"))
        "20250101_000000"
        false
        data_site).0)
unfolding lookup join descend split create_backup remove children write_file insert erase read_file
restore_backup-create_backup_example =
    restore_backup-create_backup ("app" ∷ []) uploads "20250101_000000" (text "tables") 99 data_site
      refl refl refl refl
