-- ===== src/Worker/Separation.antt =====
-- Deploying an instance leaves the directories of the other instances alone.
use ops_system.Prelude.{
  String, ◌≡◌, refl, ◌≢◌, inl, inr, Option, none, some, Bool, true, false, arith, Bool-cases, ◌∙◌,
}
use ops_system.Assoc.{lookup}
use ops_system.Protocol.{DeployRequest}
use ops_system.Disk.{
  FilePath, Disk, directory, Content, text, manifest, archive, path_key, is_within, read_file,
  write_file, rename, mkdir_all, remove_all,
}
use ops_system.Disk.Laws.{
  lookup-mkdir_all_elsewhere, lookup-remove_ne, lookup-write_file_ne, lookup-rename_ne,
  lookup-remove_all, mkdir_all-made,
}
use ops_system.Worker.Install.{
  cache_dir, cache_path, tmp_file, has_size, attempt, move_download, in_cache_dir, unpack_in,
  install_cached, store_download, ensure_package_cached, is_legal, unzip, unzip_content, deploy_dir,
  install, deploy_instance, Download, refused, broken_off, arrived, drop_download,
}
use ops_system.Worker.Unpacking.{lookup-unzip_entries}

module _ (path q : FilePath) (h : path ≢ q) (t : tmp_file path ≢ q) where
  lookup-attempt :
      (d : Disk) (o : Option Disk)
      → rename (tmp_file path) path d ≡ o
      → lookup q (attempt d o).0 ≡ lookup q d
  lookup-attempt d none e = refl
  lookup-attempt d (some d') e = lookup-rename_ne (tmp_file path) path q d d' e t h

  lookup-move_download :
      (body : Content) (d : Disk) (o : Option Disk)
      → write_file (tmp_file path) body d ≡ o
      → lookup q (move_download path d o).0 ≡ lookup q d
  lookup-move_download body d none e = refl
  lookup-move_download body d (some d') e =
      lookup-attempt d' (rename (tmp_file path) path d') refl
      ∙ lookup-write_file_ne (tmp_file path) q body d d' e t

  lookup-drop_download :
      (d : Disk) (o : Option Disk)
      → write_file (tmp_file path) (text "") d ≡ o
      → lookup q (drop_download path d o).0 ≡ lookup q d
  lookup-drop_download d none e = refl
  lookup-drop_download d (some d') e =
      lookup-remove_ne (tmp_file path) q d' t
      ∙ lookup-write_file_ne (tmp_file path) q (text "") d d' e t

  lookup-store_download :
      (download : Download) (d : Disk) → lookup q (store_download path download d).0 ≡ lookup q d
  lookup-store_download refused d = refl
  lookup-store_download broken_off d =
      lookup-drop_download d (write_file (tmp_file path) (text "") d) refl
  lookup-store_download (arrived body) d =
      lookup-move_download body d (write_file (tmp_file path) body d) refl

  lookup-in_cache_dir :
      (dir : FilePath) (download : Download) (d : Disk) (o : Option Disk)
      → is_within q dir ≡ false
      → mkdir_all dir d ≡ o
      → lookup q (in_cache_dir path download d o).0 ≡ lookup q d
  lookup-in_cache_dir dir download d none w e = refl
  lookup-in_cache_dir dir download d (some d') w e =
      lookup-store_download download d' ∙ lookup-mkdir_all_elsewhere dir q d d' w e

-- Caching a package changes at most the cache's directory, what is above it, and the package's two
-- files.
lookup-ensure_package_cached :
    (base : FilePath) (name version : String) (download : Download) (q : FilePath) (d : Disk)
    → is_within q (cache_dir base) ≡ false
    → cache_path base name version ≢ q
    → tmp_file (cache_path base name version) ≢ q
    → lookup q (ensure_package_cached base name version download d).0 ≡ lookup q d
unfolding ensure_package_cached
lookup-ensure_package_cached base name version download q d w h t =
    elim (Bool-cases (has_size (read_file (cache_path base name version) d))) [
      | inl cached ↦ rw cached refl
      | inr missing ↦ rw missing (
          lookup-in_cache_dir (cache_path base name version) q h t (cache_dir base) download d
            (mkdir_all (cache_dir base) d) w refl)
    ]

lookup-unzip :
    (src dest q : FilePath) (d : Disk)
    → lookup dest d ≡ some directory
    → is_legal dest q ≡ false
    → lookup q (unzip src dest d).0 ≡ lookup q d
unfolding unzip
lookup-unzip src dest q d e h = by_content (read_file src d)
  where
    by_content : (c : Option Content) → lookup q (unzip_content c dest d).0 ≡ lookup q d
    by_content none = refl
    by_content (some (text s)) = refl
    by_content (some (manifest m)) = refl
    by_content (some (archive a)) = lookup-unzip_entries dest q a d e h

lookup-unpack_in :
    (src dest q : FilePath) (d : Disk) (o : Option Disk)
    → is_within dest q ≡ false
    → is_within q dest ≡ false
    → mkdir_all dest d ≡ o
    → lookup q (unpack_in src dest d o).0 ≡ lookup q d
lookup-unpack_in src dest q d none w u e = refl
lookup-unpack_in src dest q d (some d') w u e =
    lookup-unzip src dest q d' (mkdir_all-made dest d d' e) (rw w refl)
    ∙ lookup-mkdir_all_elsewhere dest q d d' u e

lookup-install :
    (base : FilePath) (req : DeployRequest) (q : FilePath) (d : Disk)
    → is_within (deploy_dir base req) q ≡ false
    → is_within q (deploy_dir base req) ≡ false
    → lookup q (install base req d).0 ≡ lookup q d
unfolding install
lookup-install base req q d w u =
    lookup-unpack_in (cache_path base req.service_name req.version) (deploy_dir base req) q
      (remove_all (deploy_dir base req) d)
      (mkdir_all (deploy_dir base req) (remove_all (deploy_dir base req) d)) w u refl
    ∙ ground (arith, lookup-remove_all (deploy_dir base req) q d)

lookup-install_cached :
    (base : FilePath) (req : DeployRequest) (q : FilePath) (cached : Disk × Bool)
    → is_within (deploy_dir base req) q ≡ false
    → is_within q (deploy_dir base req) ≡ false
    → lookup q (install_cached base req cached).0 ≡ lookup q cached.0
lookup-install_cached base req q (d, true) w u = lookup-install base req q d w u
lookup-install_cached base req q (d, false) w u = refl

-- Deploying an instance, whether it succeeds or not, changes no path q but those in the instance's
-- directory, the directories above it and above the cache, and the cached package with its
-- temporary file: if q is none of these, what stands at q is as it was.
pub lookup-deploy_instance :
    (base : FilePath) (req : DeployRequest) (download : Download) (q : FilePath) (d : Disk)
    → is_within (deploy_dir base req) q ≡ false
    → is_within q (deploy_dir base req) ≡ false
    → is_within q (cache_dir base) ≡ false
    → cache_path base req.service_name req.version ≢ q
    → tmp_file (cache_path base req.service_name req.version) ≢ q
    → lookup q (deploy_instance (some base) download req d).0 ≡ lookup q d
unfolding deploy_instance
lookup-deploy_instance base req download q d w u v h t =
    lookup-install_cached base req q
      (ensure_package_cached base req.service_name req.version download d) w u
    ∙ lookup-ensure_package_cached base req.service_name req.version download q d v h t
