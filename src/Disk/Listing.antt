-- ===== src/Disk/Listing.antt =====
-- What os.ReadDir lists: every name that stands in the directory.
use ops_system.Prelude.{
  String, ◌≡◌, refl, List, [], ◌∷◌, Option, none, some, Bool, true, false, ◌||◌, arith, Bool-cases,
  inl, inr, ◌==◌, string_key, eq_iff,
}
use ops_system.Assoc.{lookup}
use ops_system.Words.{text_le, insert_text, sort_strings}
use ops_system.Disk.{
  FilePath, Disk, Entry, directory, path_key, path_matches_iff, children, read_dir,
}

abbrev pub listed : String → List String → Bool
listed n [] = false
listed n (m ∷ names) = m == n || listed n names

abbrev pub is_there : Option Entry → Bool
is_there none = false
is_there (some e) = true

listed-insert_text :
    (n m : String) (names : List String)
    → listed n (insert_text m names) ≡ (m == n || listed n names)
unfolding insert_text
listed-insert_text n m [] = refl
listed-insert_text n m (k ∷ names) = elim (Bool-cases (text_le m k)) [
  | inl le ↦ rw le refl
  | inr gt ↦ rw (gt, listed-insert_text n m names) (ground arith)
]

pub listed-sort_strings :
    (n : String) (names : List String) → listed n (sort_strings names) ≡ listed n names
unfolding sort_strings
listed-sort_strings n [] = refl
listed-sort_strings n (m ∷ names) =
    rw (listed-insert_text n m (sort_strings names), listed-sort_strings n names) refl

listed-children :
    (n : String) (dir : FilePath) (d : Disk)
    → is_there (lookup (n ∷ dir) d) ≡ true
    → listed n (children dir d) ≡ true
unfolding children lookup
listed-children n dir [] h = ground arith
listed-children n dir (((m ∷ p), e) ∷ d) h =
    ground (arith, eq_iff m n, path_matches_iff p dir, listed-children n dir d)
listed-children n dir (([], e) ∷ d) h = ground (arith, listed-children n dir d)

-- A name that stands in a directory is listed.
pub read_dir-listed :
    (n : String) (dir : FilePath) (d : Disk)
    → lookup dir d ≡ some directory
    → is_there (lookup (n ∷ dir) d) ≡ true
    → (names : List String) × (read_dir dir d ≡ some names) × (listed n names ≡ true)
unfolding read_dir
read_dir-listed n dir d e h = (
  sort_strings (children dir d),
  rw e refl,
  rw (listed-sort_strings n (children dir d)) (listed-children n dir d h),
)
