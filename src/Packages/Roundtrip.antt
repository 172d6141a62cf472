-- ===== src/Packages/Roundtrip.antt =====
-- A package that was saved is read back, and the local storage is a map from paths to contents.
use ops_system.Prelude.{
  String, ◌≡◌, refl, ◌≢◌, inl, inr, Option, none, some, Bool, true, false, arith, if◌then◌else◌, ap,
  sym, ◌∙◌, ◌&&◌, Bool-cases, subst,
}
use mathlib.Core.Option.{some_inj}
use ops_system.Assoc.{lookup}
use ops_system.Protocol.{ServiceManifest}
use ops_system.Disk.{
  FilePath, Disk, Content, path_key, path_matches, path_matches_iff, parent, join, read_file,
  write_file, mkdir_all, remove, content, or_same,
}
use ops_system.Disk.Laws.{
  read_file-mkdir_all, lookup-write_file_self, lookup-write_file_ne, lookup-remove_ne,
  read_file-removed,
}
use ops_system.Worker.Install.{attempt}
use ops_system.Packages.{
  Provider, package_key, manifest_of, saved_as, save_manifest, save_package_stream, get_manifest,
}
use ops_system.Packages.Local.{copied, break_off, save_in, save, get, delete}

module _ {ℓ} {S : Type ℓ} (store : Provider S) where
  get-saved :
      (m : ServiceManifest) (body : Content) (s : S) (r : S × Bool)
      → store.save (package_key m.name m.version) body s ≡ r
      → r.1 ≡ true
      → store.get (package_key m.name m.version) r.0 ≡ some body
  get-saved m body s r e h =
      ap (λ (x : S × Bool). store.get (package_key m.name m.version) x.0) (sym e)
      ∙ store.get-save (package_key m.name m.version) body s (ap (λ (x : S × Bool). x.1) e ∙ h)

  get-saved_as :
      (m₀ m : ServiceManifest) (body : Content) (s : S) (r : S × Bool)
      → store.save (package_key m₀.name m₀.version) body s ≡ r
      → manifest_of (some body) ≡ some m₀
      → (saved_as store m₀ r).1 ≡ some m
      → manifest_of (store.get (package_key m.name m.version) (saved_as store m₀ r).0) ≡ some m
  get-saved_as m₀ m body s (s', true) e k h =
      subst
        (λ (x : ServiceManifest).
          manifest_of (store.get (package_key x.name x.version) s') ≡ some x)
        (some_inj.0 h) (ap manifest_of (get-saved m₀ body s (s', true) e refl) ∙ k)
  get-saved_as m₀ m body s (s', false) e k h = absurd (none-ne-some h)
    where
      none-ne-some : ◌≡◌ {A = Option ServiceManifest} none (some m) → ⊥
      none-ne-some x = ground arith

  get-save_manifest :
      (m : ServiceManifest) (body : Content) (s : S) (o : Option ServiceManifest)
      → manifest_of (some body) ≡ o
      → (save_manifest store body s o).1 ≡ some m
      → manifest_of (store.get (package_key m.name m.version) (save_manifest store body s o).0)
        ≡ some m
  get-save_manifest m body s none k h = absurd (none-ne-some h)
    where
      none-ne-some : ◌≡◌ {A = Option ServiceManifest} none (some m) → ⊥
      none-ne-some x = ground arith
  get-save_manifest m body s (some m₀) k h =
      get-saved_as m₀ m body s (store.save (package_key m₀.name m₀.version) body s) refl k h

  -- Over any storage that gives back what was saved: when an upload succeeds with a manifest,
  -- GetManifest at the manifest's name and version gives that manifest.
  pub get_manifest-save_package_stream :
      (m : ServiceManifest) (body : Option Content) (s : S)
      → (save_package_stream store body s).1 ≡ some m
      → get_manifest store m.name m.version (save_package_stream store body s).0 ≡ some m
  unfolding get_manifest save_package_stream
  get_manifest-save_package_stream m none s h = ground arith
  get_manifest-save_package_stream m (some body) s h =
      get-save_manifest m body s (manifest_of (some body)) refl h

-- what a map from paths to contents holds after an update
abbrev pub after : FilePath → Option Content → Bool → FilePath → Option Content → Option Content
after p c ok q old = if ok && path_matches p q then c else old

ne_of_unmatched : (p q : FilePath) → path_matches p q ≡ false → p ≢ q
ne_of_unmatched p q h k = ground (arith, (path_matches_iff p q).1 k)

-- the copy was not broken off
abbrev pub is_whole : Option Content → Bool
is_whole none = true
is_whole (some part) = false

write_refines :
    (p q : FilePath) (c : Content) (d : Disk) (o : Option Disk)
    → write_file p c d ≡ o
    → read_file q (attempt d o).0 ≡ after p (some c) (attempt d o).1 q (read_file q d)
unfolding read_file
write_refines p q c d none e = refl
write_refines p q c d (some d') e = elim (Bool-cases (path_matches p q)) [
  | inl same ↦ rw same (
      ap (λ (r : FilePath). content (lookup r d')) (sym ((path_matches_iff p q).0 same))
      ∙ ap content (lookup-write_file_self p c d d' e))
  | inr other ↦
      rw other (ap content (lookup-write_file_ne p q c d d' e (ne_of_unmatched p q other)))
]

break_off-kept : (cut : Option Content) (r : Disk × Bool) → (break_off cut r).0 ≡ r.0
break_off-kept none r = refl
break_off-kept (some part) (d, ok) = refl

save_in-copied :
    (p : FilePath) (cut : Option Content) (c : Content) (d : Disk) (o : Option Disk)
    → ((save_in p cut c d o).0 ≡ (save_in p none (copied cut c) d o).0)
      × ((save_in p cut c d o).1 ≡ (is_whole cut && (save_in p none (copied cut c) d o).1))
save_in-copied p none c d o = (refl, refl)
save_in-copied p (some part) c d none = (refl, refl)
save_in-copied p (some part) c d (some d') =
    (break_off-kept (some part) (attempt d' (write_file p part d')), refl)

save_in_refines :
    (p q dir : FilePath) (c : Content) (d : Disk) (o : Option Disk)
    → mkdir_all dir d ≡ o
    → read_file q (save_in p none c d o).0
      ≡ after p (some c) (save_in p none c d o).1 q (read_file q d)
save_in_refines p q dir c d none e = refl
save_in_refines p q dir c d (some d') e =
    write_refines p q c d' (write_file p c d') refl
    ∙ ap (after p (some c) (attempt d' (write_file p c d')).1 q) (read_file-mkdir_all dir q d d' e)

remove_refines :
    (p q : FilePath) (d : Disk) (o : Option Disk)
    → remove p d ≡ o
    → read_file q (attempt d o).0 ≡ after p none (attempt d o).1 q (read_file q d)
unfolding read_file
remove_refines p q d none e = refl
remove_refines p q d (some d') e = elim (Bool-cases (path_matches p q)) [
  | inl same ↦ rw same (
      ap (λ (r : FilePath). read_file r d') (sym ((path_matches_iff p q).0 same))
      ∙ ap (λ (o : Option Disk). read_file p (or_same o d)) (sym e)
      ∙ read_file-removed p d)
  | inr other ↦ rw other (
      ap (λ (o : Option Disk). read_file q (or_same o d)) (sym e)
      ∙ ap content (lookup-remove_ne p q d (ne_of_unmatched p q other)))
]

-- The local storage refines a map from paths to contents. A Save whose directory and file can be
-- made puts at its name's path what its reader gives, all of it if the reader comes to its end and
-- else the part before the error, and it succeeds exactly in the first case: a Save that breaks off
-- has lost the content from before. Delete, where it succeeds, takes the path out. Every other
-- name's content stays as Get gave it before, and all of them where the file cannot be made or
-- removed.
pub local_provider_refines :
    (base : FilePath) (name key : String) (cut : Option Content) (c : Content) (d : Disk)
    → let made = (save base name none (copied cut c) d).1 in
      ((save base name cut c d).1 ≡ (is_whole cut && made))
      × (get base key (save base name cut c d).0
          ≡ after (join base name) (some (copied cut c)) made (join base key) (get base key d))
      × (get base key (delete base name d).0
          ≡ after (join base name) none (delete base name d).1 (join base key) (get base key d))
unfolding get save delete
local_provider_refines base name key cut c d = (
  (save_in-copied (join base name) cut c d (mkdir_all (parent (join base name)) d)).1,
  ap (read_file (join base key))
        (save_in-copied (join base name) cut c d (mkdir_all (parent (join base name)) d)).0
      ∙ save_in_refines (join base name) (join base key) (parent (join base name)) (copied cut c) d
          (mkdir_all (parent (join base name)) d) refl,
  remove_refines (join base name) (join base key) d (remove (join base name) d) refl,
)
