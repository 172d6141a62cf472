-- ===== src/Packages/Api.antt =====
-- internal/master/api/package_handler.go, on a storage. A reply is its code and its data.
use ops_system.Prelude.{
  ℕ, String, List, Option, none, some, Bool, true, false, ◌==◌, string_key, if◌then◌else◌, ◌||◌,
}
use ops_system.Protocol.{ServiceManifest, PackageInfo}
use ops_system.Disk.{Content}
use ops_system.Packages.{Provider, save_package_stream, list_packages, delete_package, get_manifest}
use ops_system.Code

pub data PackageData : Type 0 where
  no_package_data : PackageData
  uploaded : String → String → String → PackageData
  packages : List PackageInfo → PackageData
  details : ServiceManifest → PackageData

pub record PackageReply : Type 0 where
  pub code : ℕ
  pub body : PackageData

abbrev pub fail : ℕ → PackageReply
fail c = record { code = c; body = no_package_data }

abbrev pub succeed : PackageData → PackageReply
succeed b = record { code = Code.success; body = b }

-- a part of the form: its name and its stream, none for a stream that breaks off
pub record Part : Type 0 where
  pub form_name : String
  pub stream : Option Content

-- what NextPart gives until the end of the stream: a part, or an error
pub data Parts : Type 0 where
  end_of_parts : Parts
  broken : Parts
  next_part : Part → Parts → Parts

pub record DeleteReq : Type 0 where
  pub name : String
  pub version : String

module _ {ℓ} {S : Type ℓ} (store : Provider S) where
  abbrev pub upload_reply : S × Option ServiceManifest → S × PackageReply
  upload_reply (s, none) = (s, fail Code.package_upload_failed)
  upload_reply (s, some m) = (s, succeed (uploaded m.name m.version m.os))

  -- the loop over the parts
  unfoldable pub upload_parts : Parts → S → S × PackageReply
  unfolding save_package_stream
  upload_parts end_of_parts s = (s, fail Code.param_error)
  upload_parts broken s = (s, fail Code.package_upload_failed)
  upload_parts (next_part part rest) s =
      let later = upload_parts rest s in
      if part.form_name == "file"
      then upload_reply (save_package_stream store part.stream s)
      else later

  -- none for a request that is no multipart form
  unfoldable pub upload_package : String → Option Parts → S → S × PackageReply
  unfolding upload_parts
  upload_package method none s =
      if method == "POST"
      then (s, fail Code.package_upload_failed)
      else (s, fail Code.method_not_allowed)
  upload_package method (some parts) s =
      if method == "POST" then upload_parts parts s else (s, fail Code.method_not_allowed)

  abbrev pub list_reply : Option (List PackageInfo) → PackageReply
  list_reply none = fail Code.server_error
  list_reply (some list) = succeed (packages list)

  unfoldable pub get_packages : S → PackageReply
  unfolding list_packages
  get_packages s = list_reply (list_packages store s)

  abbrev pub delete_reply : S × Bool → S × PackageReply
  delete_reply (s, true) = (s, succeed no_package_data)
  delete_reply (s, false) = (s, fail Code.package_delete_failed)

  unfoldable pub post_delete_package : String → Option DeleteReq → S → S × PackageReply
  unfolding delete_package
  post_delete_package method none s =
      if method == "POST" then (s, fail Code.invalid_json) else (s, fail Code.method_not_allowed)
  post_delete_package method (some req) s =
      if method == "POST"
      then delete_reply (delete_package store req.name req.version s)
      else (s, fail Code.method_not_allowed)

  abbrev pub manifest_reply : Option ServiceManifest → PackageReply
  manifest_reply none = fail Code.package_not_found
  manifest_reply (some m) = succeed (details m)

  unfoldable pub get_package_manifest : String → String → S → PackageReply
  unfolding get_manifest
  get_package_manifest name version s =
      if name == "" || version == ""
      then fail Code.param_error
      else manifest_reply (get_manifest store name version s)
