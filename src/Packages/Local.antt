-- ===== src/Packages/Local.antt =====
-- pkg/storage/local.go: the storage in a directory. `mod_time` and `size` are what os.Stat says.
use ops_system.Prelude.{
  ℕ, String, ◌≡◌, refl, List, [], ◌∷◌, Option, none, some, Bool, true, false, arith, if◌then◌else◌,
  ap, ◌&&◌, not, string_key,
}
use Prim.Native.Char.{char}
use Prim.Native.String.{◌++◌ as append}
use ops_system.Words.{replace_char}
use ops_system.Disk.{
  FilePath, Disk, directory, file, Content, path_key, path_matches, parent, join, is_within,
  read_file, write_file, mkdir_all, remove, content,
}
use ops_system.Disk.Laws.{lookup-write_file_self}
use ops_system.Worker.Install.{attempt}
use ops_system.Packages.{FileInfo, Provider}

-- A reader gives `c` up to its end, or breaks when it has given a part of it, which `cut` is then.
abbrev pub copied : Option Content → Content → Content
copied none c = c
copied (some part) c = part

-- io.Copy's error is the result's, and what it has copied stays in the file
abbrev pub break_off : Option Content → Disk × Bool → Disk × Bool
break_off none r = r
break_off (some part) (d, ok) = (d, false)

-- the result of os.MkdirAll, and os.Create, which empties the file, with io.Copy
abbrev pub save_in : FilePath → Option Content → Content → Disk → Option Disk → Disk × Bool
save_in path cut c d none = (d, false)
save_in path cut c d (some d') = break_off cut (attempt d' (write_file path (copied cut c) d'))

unfoldable pub save : FilePath → String → Option Content → Content → Disk → Disk × Bool
unfolding join mkdir_all write_file
save base name cut c d = save_in (join base name) cut c d (mkdir_all (parent (join base name)) d)

-- a directory opens too, and its reader fails at once
unfoldable pub get : FilePath → String → Disk → Option Content
unfolding join read_file
get base name d = read_file (join base name) d

unfoldable pub delete : FilePath → String → Disk → Disk × Bool
unfolding join remove
delete base name d = attempt d (remove (join base name) d)

unfoldable pub download_url : String → String → String
download_url name addr =
    append "http://" (append addr (append "/download/" (replace_char 92 (char 47 tt) name)))

-- filepath.Rel of a path below base
unfoldable pub relative : FilePath → FilePath → String
relative base [] = ""
relative base (n ∷ p) =
    let above = relative base p in if path_matches base p then n else append above (append "/" n)

module _ (size mod_time : FilePath → ℕ) where
  -- The files below base. filepath.Walk gives them by name, and the disk in its own order, which
  -- the only caller's result does not show.
  unfoldable pub list_files : FilePath → Disk → List FileInfo
  unfolding relative is_within
  list_files base [] = []
  list_files base ((p, directory) ∷ d) = list_files base d
  list_files base ((p, file c) ∷ d) =
      let rest = list_files base d in
      if is_within base p && not (path_matches base p)
      then record { name = relative base p; size = size p; mod_time = mod_time p } ∷ rest
      else rest

get-save_in :
    (path : FilePath) (c : Content) (d : Disk) (o : Option Disk)
    → (save_in path none c d o).1 ≡ true
    → read_file path (save_in path none c d o).0 ≡ some c
get-save_in path c d none h = ground arith
get-save_in path c d (some d₁) h = by_write (write_file path c d₁) refl h
  where
    by_write :
        (o : Option Disk)
        → write_file path c d₁ ≡ o
        → (attempt d₁ o).1 ≡ true
        → read_file path (attempt d₁ o).0 ≡ some c
    by_write none e k = ground arith
    by_write (some d₂) e k = unfold read_file in ap content (lookup-write_file_self path c d₁ d₂ e)

pub get-save :
    (base : FilePath) (name : String) (c : Content) (d : Disk)
    → (save base name none c d).1 ≡ true
    → get base name (save base name none c d).0 ≡ some c
unfolding save get
get-save base name c d h =
    get-save_in (join base name) c d (mkdir_all (parent (join base name)) d) h

abbrev pub local_provider : (FilePath → ℕ) → (FilePath → ℕ) → FilePath → Provider Disk
local_provider size mod_time base = record {
  save = λ name c d. save base name none c d;  -- a temporary file, which is read to its end
  get = get base;
  delete = delete base;
  get_download_url = λ name addr d. some (download_url name addr);
  list_files = λ d. some (list_files size mod_time base d);
  get-save = get-save base;
}
