-- ===== src/Packages.antt =====
-- internal/master/manager/pkg_manager.go over pkg/storage/provider.go: packages are ZIP archives
-- that a storage keeps under keys. An operation of the storage gives its error as none or false.
-- The temporary copies of an archive leave nothing behind and are left out.
pub mod Local
pub mod Api
pub mod Roundtrip
use ops_system.Prelude.{
  ℕ, ◌+◌, String, ◌≡◌, List, [], ◌∷◌, ◌++◌, ◌||◌, Option, none, some, Bool, true, false, ◌==◌,
  string_key, if◌then◌else◌, eqb, leb, ltb, ◌&&◌, not, map,
}
use Prim.Native.Char.{code, char}
use Prim.Native.String.{◌++◌ as append}
use ops_system.Assoc.{Assoc, lookup, insert}
use ops_system.Words.{split, has_prefix, trim_suffix, replace_char, sort_strings}
use ops_system.Protocol.{ServiceManifest, PackageInfo}
use ops_system.Disk.{Content, text, manifest, archive, Archive, sealed, packs_dir, packs_file}
use ops_system.Worker.Process.{no_manifest}

pub record FileInfo : Type 0 where
  pub name : String
  pub size : ℕ
  pub mod_time : ℕ

-- The interface, for a storage whose state is S. Its law is what Save and Get promise: what was
-- saved under a name is what is got under it.
pub record Provider {ℓ} (S : Type ℓ) : Type ℓ where
  pub save : String → Content → S → S × Bool
  pub get : String → S → Option Content
  pub delete : String → S → S × Bool
  pub get_download_url : String → String → S → Option String
  pub list_files : S → Option (List FileInfo)
  pub get-save :
      (name : String) (c : Content) (s : S)
      → (save name c s).1 ≡ true
      → get name (save name c s).0 ≡ some c

-- strings.EqualFold against a text of small ASCII letters and others that have no other case
abbrev pub fold_code : ℕ → ℕ
fold_code k =
    if leb 65 k && leb k 90
    then k + 32
    else if eqb k 0x17F
    then 115
    else if eqb k 0x212A
    then 107
    else k

unfoldable pub equal_fold : String → String → Bool
equal_fold String.[] String.[] = true
equal_fold String.[] (String.◌∷◌ d t) = false
equal_fold (String.◌∷◌ c s) String.[] = false
equal_fold (String.◌∷◌ c s) (String.◌∷◌ d t) =
    let rest = equal_fold s t in eqb (fold_code (code c)) (code d) && rest

-- an entry's content, decoded; the decoder's error is dropped
abbrev pub decode : Content → ServiceManifest
decode (manifest m) = m
decode (text s) = no_manifest
decode (archive a) = no_manifest

-- the loop over the entries, up to the first service.json; a directory's name ends in a slash
unfoldable pub manifest_in : Archive → Option ServiceManifest
unfolding equal_fold
manifest_in sealed = none
manifest_in (packs_dir name rest) = manifest_in rest
manifest_in (packs_file name c rest) =
    let later = manifest_in rest in
    if equal_fold name "service.json" then some (decode c) else later

-- zip.OpenReader and the loop
abbrev pub manifest_of : Option Content → Option ServiceManifest
manifest_of (some (archive a)) = manifest_in a
manifest_of other = none

-- filepath.Clean goes through the parts; those that are done have the last one first
abbrev pub step_up : Bool → List String → List String
step_up true [] = []
step_up false [] = ".." ∷ []
step_up rooted (last ∷ done) = if last == ".." then ".." ∷ last ∷ done else done

abbrev pub clean_part : Bool → List String → String → List String
clean_part rooted done part =
    if part == "" || part == "."
    then done
    else if part == ".."
    then step_up rooted done
    else part ∷ done

unfoldable pub clean_parts : Bool → List String → List String → List String
clean_parts rooted done [] = done
clean_parts rooted done (part ∷ parts) = clean_parts rooted (clean_part rooted done part) parts

-- the text of a relative path, its last part first
unfoldable pub rel_text : List String → String
rel_text [] = "."
rel_text (n ∷ []) = n
rel_text (n ∷ m ∷ p) = append (rel_text (m ∷ p)) (append "/" n)

abbrev pub rooted_text : List String → String
rooted_text [] = "/"
rooted_text (n ∷ p) = append "/" (rel_text (n ∷ p))

unfoldable pub clean : String → String
unfolding clean_parts rel_text
clean path =
    if has_prefix path "/"
    then rooted_text (clean_parts true [] (split 47 path))
    else rel_text (clean_parts false [] (split 47 path))

-- filepath.Join(name, version + ".zip")
unfoldable pub package_key : String → String → String
unfolding clean
package_key name version =
    if name == ""
    then clean (append version ".zip")
    else clean (append name (append "/" (append version ".zip")))

-- a package of the map, before its versions are sorted
abbrev pub PkgMap : Type 0
PkgMap = Assoc String PackageInfo

abbrev pub or_new : String → Option PackageInfo → PackageInfo
or_new name none = record { name = name; versions = []; last_upload = 0 }
or_new name (some p) = p

abbrev pub with_version : String → ℕ → PackageInfo → PackageInfo
with_version version time p = record {
  name = p.name;
  versions = p.versions ++ version ∷ [];
  last_upload = if ltb p.last_upload time then time else p.last_upload;
}

-- a file's service and version, where its name has two parts
abbrev pub package_parts : List String → Option (String × String)
package_parts (service ∷ zip ∷ []) = some (service, trim_suffix zip ".zip")
package_parts other = none

abbrev pub add_version : Option (String × String) → ℕ → PkgMap → PkgMap
add_version none time m = m
add_version (some (service, version)) time m =
    insert service (with_version version time (or_new service (lookup service m))) m

-- the body of the loop over the files
unfoldable pub add_file : FileInfo → PkgMap → PkgMap
add_file f m =
    add_version (package_parts (split 47 (replace_char 92 (char 47 tt) f.name))) f.mod_time m

unfoldable pub add_files : List FileInfo → PkgMap → PkgMap
unfolding add_file
add_files [] m = m
add_files (f ∷ files) m = add_files files (add_file f m)

abbrev pub sorted : String × PackageInfo → PackageInfo
sorted (k, p) = record {
  name = p.name;
  versions = sort_strings p.versions;
  last_upload = p.last_upload;
}

abbrev pub packages_of : Option (List FileInfo) → Option (List PackageInfo)
packages_of none = none
packages_of (some files) = some (map sorted (add_files files []))

module _ {ℓ} {S : Type ℓ} (store : Provider S) where
  -- the result of store.Save
  abbrev pub saved_as : ServiceManifest → S × Bool → S × Option ServiceManifest
  saved_as m (s, true) = (s, some m)
  saved_as m (s, false) = (s, none)

  abbrev pub save_manifest : Content → S → Option ServiceManifest → S × Option ServiceManifest
  save_manifest body s none = (s, none)
  save_manifest body s (some m) = saved_as m (store.save (package_key m.name m.version) body s)

  -- `body` is what was received, none where it could not be written to the temporary file
  unfoldable pub save_package_stream : Option Content → S → S × Option ServiceManifest
  unfolding manifest_in package_key
  save_package_stream none s = (s, none)
  save_package_stream (some body) s = save_manifest body s (manifest_of (some body))

  unfoldable pub list_packages : S → Option (List PackageInfo)
  unfolding add_files
  list_packages s = packages_of (store.list_files s)

  unfoldable pub delete_package : String → String → S → S × Bool
  unfolding package_key
  delete_package name version s = store.delete (package_key name version) s

  -- a storage's error, an archive that does not open and one without a manifest are all none
  unfoldable pub get_manifest : String → String → S → Option ServiceManifest
  unfolding manifest_in package_key
  get_manifest name version s = manifest_of (store.get (package_key name version) s)

  unfoldable pub get_download_url : String → String → String → S → Option String
  unfolding package_key
  get_download_url name version addr s = store.get_download_url (package_key name version) addr s
