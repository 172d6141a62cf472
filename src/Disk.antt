-- ===== src/Disk.antt =====
-- The files of a machine. A path is the list of its names, the last one first, from the root of an
-- absolute and clean path; so `name ∷ dir` is a file of `dir`. A file's content is what its readers
-- make of it. An operation of `os` fails where the path is not as it needs it, and not otherwise.
pub mod Laws
pub mod Listing
pub mod Tree
use ops_system.Prelude.{
  String, ◌≡◌, ◌↔◌, refl, List, [], ◌∷◌, map, Option, none, some, Bool, true, false, arith, Key,
  ◌==◌, string_key, eq_iff, if◌then◌else◌, keep, not, ◌&&◌, ◌||◌,
}
use ops_system.Assoc.{Assoc, lookup, insert, erase}
use ops_system.Protocol.{ServiceManifest}
use ops_system.Words.{split, sort_strings}

abbrev pub FilePath : Type 0
FilePath = List String

abbrev pub path_matches : FilePath → FilePath → Bool
path_matches [] [] = true
path_matches [] (n ∷ q) = false
path_matches (m ∷ p) [] = false
path_matches (m ∷ p) (n ∷ q) = m == n && path_matches p q

pub path_matches_iff : (p q : FilePath) → (path_matches p q ≡ true) ↔ (p ≡ q)
path_matches_iff [] [] = ground arith
path_matches_iff [] (n ∷ q) = ground arith
path_matches_iff (m ∷ p) [] = ground arith
path_matches_iff (m ∷ p) (n ∷ q) = ground (arith, eq_iff m n, path_matches_iff p q)

instance abbrev pub path_key : Key FilePath
path_key = record { matches = path_matches; matches_iff = path_matches_iff }

abbrev pub parent : FilePath → FilePath
parent [] = []
parent (n ∷ p) = p

-- the parts of a relative path, gone through from a directory
unfoldable pub descend : FilePath → List String → FilePath
descend dir [] = dir
descend dir (part ∷ parts) =
    if part == "" || part == "."
    then descend dir parts
    else if part == ".."
    then descend (parent dir) parts
    else descend (part ∷ dir) parts

-- filepath.Join(dir, path)
unfoldable pub join : FilePath → String → FilePath
join dir path = descend dir (split 47 path)

-- p is dir or lies below it
unfoldable pub is_within : FilePath → FilePath → Bool
is_within dir [] = path_matches dir []
is_within dir (n ∷ p) = let higher = is_within dir p in path_matches dir (n ∷ p) || higher

-- What a file holds: a text, a service.json that decodes to a manifest, or a ZIP archive, which is
-- the list of its entries, directories and files.
mutual
  pub data Content : Type 0 where
    text : String → Content
    manifest : ServiceManifest → Content
    archive : Archive → Content

  pub data Archive : Type 0 where
    sealed : Archive
    packs_dir : String → Archive → Archive
    packs_file : String → Content → Archive → Archive

pub data Entry : Type 0 where
  directory : Entry
  file : Content → Entry

abbrev pub Disk : Type 0
Disk = Assoc FilePath Entry

abbrev pub is_directory : Option Entry → Bool
is_directory (some directory) = true
is_directory other = false

-- os.ReadFile
abbrev pub content : Option Entry → Option Content
content (some (file c)) = some c
content other = none

unfoldable pub read_file : FilePath → Disk → Option Content
read_file p d = content (lookup p d)

-- os.Create with what is written to it: in a directory, and not over one
unfoldable pub write_file : FilePath → Content → Disk → Option Disk
write_file p c d =
    if is_directory (lookup (parent p) d) && not (is_directory (lookup p d))
    then some (insert p (file c) d)
    else none

-- p with what stands there, on the disk with what is above it
abbrev pub make : FilePath → Option Entry → Disk → Option Disk → Option Disk
make p (some directory) d above = some d
make p (some (file c)) d above = none
make p none d none = none
make p none d (some d') = some (insert p directory d')

-- os.MkdirAll: it stops at a directory that is there
unfoldable pub mkdir_all : FilePath → Disk → Option Disk
mkdir_all [] d = make [] (lookup [] d) d (some d)
mkdir_all (n ∷ p) d = make (n ∷ p) (lookup (n ∷ p) d) d (mkdir_all p d)

-- os.RemoveAll
unfoldable pub remove_all : FilePath → Disk → Disk
unfolding is_within
remove_all p d = keep (λ (e : FilePath × Entry). not (is_within p e.0)) d

-- the names in a directory, with what they are
unfoldable pub children : FilePath → Disk → List String
children dir [] = []
children dir (((n ∷ p), e) ∷ d) =
    let rest = children dir d in if path_matches p dir then n ∷ rest else rest
children dir (([], e) ∷ d) = children dir d

-- os.ReadDir, by name; none is the error
unfoldable pub read_dir : FilePath → Disk → Option (List String)
unfolding children
read_dir dir d = if is_directory (lookup dir d) then some (sort_strings (children dir d)) else none

abbrev pub is_empty {ℓ} : {A : Type ℓ} → List A → Bool
is_empty [] = true
is_empty (x ∷ xs) = false

abbrev pub remove_entry : FilePath → Disk → Option Entry → Option Disk
remove_entry p d none = none
remove_entry p d (some (file c)) = some (erase p d)
remove_entry p d (some directory) = if is_empty (children p d) then some (erase p d) else none

-- os.Remove: a file, or an empty directory
unfoldable pub remove : FilePath → Disk → Option Disk
unfolding children
remove p d = remove_entry p d (lookup p d)

-- os.Rename of a file
unfoldable pub rename : FilePath → FilePath → Disk → Option Disk
unfolding read_file write_file
rename from to d = elim (read_file from d) [ none ↦ none | some c ↦ write_file to c (erase from d) ]

-- the disk after an operation whose error is dropped
abbrev pub or_same : Option Disk → Disk → Disk
or_same none d = d
or_same (some d') d = d'
