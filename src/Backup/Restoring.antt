-- ===== src/Backup/Restoring.antt =====
-- Restoring a backup writes only below the directory of the database.
use ops_system.Prelude.{
  String, ◌≡◌, refl, ◌≤◌, length, inl, inr, List, [], ◌∷◌, Option, none, some, Bool, true, false,
  arith, if◌then◌else◌, ap, sym, ◌∙◌, ◌||◌, Bool-cases, subst, ◌==◌, string_key,
}
use ops_system.Assoc.{lookup}
use ops_system.Words.{split, contains}
use ops_system.Words.Parts.{contains-split}
use ops_system.Disk.{
  FilePath, Disk, directory, Content, text, manifest, archive, Archive, sealed, packs_dir,
  packs_file, path_key, path_matches, path_matches_iff, parent, descend, join, is_within, read_file,
  write_file, mkdir_all, or_same,
}
use ops_system.Disk.Listing.{listed}
use ops_system.Disk.Laws.{
  is_within_refl, lookup-write_file_ne, lookup-mkdir_all_outside, mkdir_all-directory,
}
use ops_system.Worker.Install.{is_legal}
use ops_system.Worker.Unpacking.{mkdir_kept, ne_of_legal, is_legal_self, is_within-parent}
use ops_system.Backup.{restored, restore_file, restore_entries, restore_content, unzip_restore}

within_below :
    (dest dir : FilePath) (n : String) → is_within dest dir ≡ true → is_within dest (n ∷ dir) ≡ true
unfolding is_within
within_below dest dir n w = ground (arith, w)

not_listed : {b : Bool} (a : Bool) → (a ≡ true → b ≡ true) → b ≡ false → a ≡ false
not_listed a f h = ground arith

-- going down without a step up stays below
descend-within :
    (dest dir : FilePath) (parts : List String)
    → is_within dest dir ≡ true
    → listed ".." parts ≡ false
    → is_within dest (descend dir parts) ≡ true
unfolding descend
descend-within dest dir [] w h = w
descend-within dest dir (part ∷ parts) w h = elim (Bool-cases (part == "" || part == ".")) [
  | inl here ↦ rw here (descend-within dest dir parts w (ground arith))
  | inr down ↦
      let not_up : (part == "..") ≡ false = ground arith in
      rw (down, not_up)
        (descend-within dest (part ∷ dir) parts (within_below dest dir part w) (ground arith))
]

join-within :
    (dest : FilePath) (name : String)
    → contains name ".." ≡ false
    → is_within dest (join dest name) ≡ true
unfolding join
join-within dest name h =
    descend-within dest dest (split 47 name) (is_within_refl dest)
      (not_listed (listed ".." (split 47 name)) (contains-split 47 name "..") h)

length_of_within : (dest p : FilePath) → is_within dest p ≡ true → length dest ≤ length p
unfolding is_within
length_of_within dest [] w = omega (arith, ap length ((path_matches_iff dest []).0 w))
length_of_within dest (n ∷ p) w = elim (Bool-cases (path_matches dest (n ∷ p))) [
  | inl same ↦ omega (arith, ap length ((path_matches_iff dest (n ∷ p)).0 same))
  | inr below ↦ omega (arith, length_of_within dest p (ground arith))
]

parent-outside : (dest : FilePath) → is_legal dest (parent dest) ≡ false
parent-outside [] = is_legal_self []
parent-outside (n ∷ p) = elim (Bool-cases (is_within (n ∷ p) p)) [
  | inl w ↦ absurd (omega (arith, length_of_within (n ∷ p) p w))
  | inr out ↦ rw out refl
]

-- nothing changes but what is strictly below dest
abbrev pub Stays : FilePath → Disk → Disk → Type 0
Stays dest d d' = (q : FilePath) → is_legal dest q ≡ false → lookup q d' ≡ lookup q d

pub Stays-trans :
    (dest : FilePath) (d d₁ d₂ : Disk) → Stays dest d d₁ → Stays dest d₁ d₂ → Stays dest d d₂
Stays-trans dest d d₁ d₂ f g q h = g q h ∙ f q h

-- dest and what it stands in are directories
pub record IsPlace (dest : FilePath) (d : Disk) : Type 0 where
  pub is_made : lookup dest d ≡ some directory
  pub parent_made : lookup (parent dest) d ≡ some directory

pub IsPlace-Stays :
    (dest : FilePath) (d d' : Disk) → Stays dest d d' → IsPlace dest d → IsPlace dest d'
IsPlace-Stays dest d d' f p = record {
  is_made = f dest (is_legal_self dest) ∙ p.is_made;
  parent_made = f (parent dest) (parent-outside dest) ∙ p.parent_made;
}

-- the rest of the loop
abbrev Later : FilePath → (Disk → Disk × Bool) → Type 0
Later dest later = (d : Disk) → IsPlace dest d → Stays dest d (later d).0

module _ (dest path : FilePath) (c : Content) (later : Disk → Disk × Bool)
    (rest : Later dest later) where
  written-Stays :
      (d : Disk) (o : Option Disk)
      → is_legal dest path ≡ true
      → IsPlace dest d
      → write_file path c d ≡ o
      → Stays dest d (restored d o later).0
  written-Stays d none l p e = λ q h. refl
  written-Stays d (some d') l p e =
      Stays-trans dest d d' (later d').0 written (rest d' (IsPlace-Stays dest d d' written p))
    where
      written : Stays dest d d'
      written q h = lookup-write_file_ne path q c d d' e (ne_of_legal dest path q l h)

  file-Stays :
      (d : Disk) (o : Option Disk)
      → is_legal dest path ≡ true
      → IsPlace dest d
      → mkdir_all (parent path) d ≡ o
      → Stays dest d (restore_file path c d o later).0
  file-Stays d none l p e = λ q h. refl
  file-Stays d (some d') l p e =
      Stays-trans dest d d' (restored d' (write_file path c d') later).0 made
        (written-Stays d' (write_file path c d') l (IsPlace-Stays dest d d' made p) refl)
    where
      made : Stays dest d d'
      made q h =
          lookup-mkdir_all_outside dest (parent path) q d d' (is_within-parent dest path l)
            p.is_made h e

  -- dest itself is a directory, which no file is written over
  refused : (d : Disk) → lookup path d ≡ some directory → write_file path c d ≡ none
  unfolding write_file
  refused d e = rw e (ground arith)

  dest-Stays :
      (d : Disk)
      → path ≡ dest
      → IsPlace dest d
      → Stays dest d (restore_file path c d (mkdir_all (parent path) d) later).0
  dest-Stays d e p q h =
      ap (λ (o : Option Disk). lookup q (restore_file path c d o later).0)
        (mkdir_all-directory (parent path) d
          (subst (λ (r : FilePath). lookup (parent r) d ≡ some directory) (sym e) p.parent_made))
      ∙ ap (λ (o : Option Disk). lookup q (restored d o later).0)
          (refused d (subst (λ (r : FilePath). lookup r d ≡ some directory) (sym e) p.is_made))

  -- the file of an entry with whatever path in dest
  entry-Stays :
      (d : Disk)
      → is_within dest path ≡ true
      → IsPlace dest d
      → Stays dest d (restore_file path c d (mkdir_all (parent path) d) later).0
  entry-Stays d w p = elim (Bool-cases (path_matches dest path)) [
    | inl same ↦ dest-Stays d (sym ((path_matches_iff dest path).0 same)) p
    | inr below ↦ file-Stays d (mkdir_all (parent path) d) (rw (w, below) refl) p refl
  ]

dir-Stays :
    (dest : FilePath) (name : String) (d : Disk)
    → IsPlace dest d
    → Stays dest d (if contains name ".." then d else or_same (mkdir_all (join dest name) d) d)
dir-Stays dest name d p q h = elim (Bool-cases (contains name "..")) [
  | inl up ↦ rw up refl
  | inr down ↦
      rw down (mkdir_kept dest (join dest name) q d (join-within dest name down) p.is_made h)
]

restore_entries-Stays : (dest : FilePath) (a : Archive) → Later dest (restore_entries dest a)
unfolding restore_entries
restore_entries-Stays dest sealed d p = λ q h. refl
restore_entries-Stays dest (packs_dir name rest) d p =
    let d' = if contains name ".." then d else or_same (mkdir_all (join dest name) d) d in
    Stays-trans dest d d' (restore_entries dest rest d').0 (dir-Stays dest name d p)
      (restore_entries-Stays dest rest d' (IsPlace-Stays dest d d' (dir-Stays dest name d p) p))
restore_entries-Stays dest (packs_file name c rest) d p = elim (Bool-cases (contains name "..")) [
  | inl up ↦ rw up (restore_entries-Stays dest rest d p)
  | inr down ↦ rw down (
      entry-Stays dest (join dest name) c (restore_entries dest rest)
        (restore_entries-Stays dest rest) d (join-within dest name down) p)
]

-- Restoring an archive changes no path that is not strictly below the directory it is restored to,
-- whatever the names of its entries are and wherever an error ends it, if that directory and the one
-- it stands in are there.
pub lookup-unzip_restore :
    (src dest q : FilePath) (d : Disk)
    → IsPlace dest d
    → is_legal dest q ≡ false
    → lookup q (unzip_restore src dest d).0 ≡ lookup q d
unfolding unzip_restore
lookup-unzip_restore src dest q d p h = by_content (read_file src d)
  where
    by_content : (o : Option Content) → lookup q (restore_content dest o d).0 ≡ lookup q d
    by_content none = refl
    by_content (some (text s)) = refl
    by_content (some (manifest m)) = refl
    by_content (some (archive a)) = restore_entries-Stays dest a d p q h
