-- ===== src/Worker/Unpacking.antt =====
-- Unpacking an archive writes only below the directory that it is unpacked into.
use ops_system.Prelude.{
  ◌≡◌, refl, ◌≢◌, inl, inr, [], ◌∷◌, Option, none, some, true, false, arith, Bool-cases, ◌∙◌, subst,
}
use ops_system.Assoc.{lookup}
use ops_system.Disk.{
  FilePath, Disk, directory, Content, Archive, sealed, packs_dir, packs_file, path_key,
  path_matches_iff, is_within, parent, join, write_file, mkdir_all, or_same,
}
use ops_system.Disk.Laws.{lookup-mkdir_all_outside, lookup-write_file_ne}
use ops_system.Worker.Install.{is_legal, unzip_entries}

or_same-kept :
    (o : Option Disk) (q : FilePath) (d : Disk)
    → ((d' : Disk) → o ≡ some d' → lookup q d' ≡ lookup q d)
    → lookup q (or_same o d) ≡ lookup q d
or_same-kept none q d h = refl
or_same-kept (some d') q d h = h d' refl

pub mkdir_kept :
    (dest p q : FilePath) (d : Disk)
    → is_within dest p ≡ true
    → lookup dest d ≡ some directory
    → is_legal dest q ≡ false
    → lookup q (or_same (mkdir_all p d) d) ≡ lookup q d
mkdir_kept dest p q d w e h =
    or_same-kept (mkdir_all p d) q d (λ d' k. lookup-mkdir_all_outside dest p q d d' w e h k)

pub ne_of_legal : (dest p q : FilePath) → is_legal dest p ≡ true → is_legal dest q ≡ false → p ≢ q
ne_of_legal dest p q l h e = ground (arith, subst (λ (r : FilePath). is_legal dest r ≡ true) e l)

write_kept :
    (dest p q : FilePath) (c : Content) (d : Disk)
    → is_legal dest p ≡ true
    → is_legal dest q ≡ false
    → lookup q (or_same (write_file p c d) d) ≡ lookup q d
write_kept dest p q c d l h =
    or_same-kept (write_file p c d) q d
      (λ d' k. lookup-write_file_ne p q c d d' k (ne_of_legal dest p q l h))

pub is_legal_self : (dest : FilePath) → is_legal dest dest ≡ false
is_legal_self dest = ground (arith, path_matches_iff dest dest)

is_within_of_legal : (dest p : FilePath) → is_legal dest p ≡ true → is_within dest p ≡ true
is_within_of_legal dest p l = ground arith

pub is_within-parent :
    (dest p : FilePath) → is_legal dest p ≡ true → is_within dest (parent p) ≡ true
unfolding is_within
is_within-parent dest [] l = ground arith
is_within-parent dest (n ∷ p) l = ground arith

-- what the entry of a file leaves where nothing may be written
file_kept :
    (dest p q : FilePath) (c : Content) (d : Disk)
    → is_legal dest p ≡ true
    → lookup dest d ≡ some directory
    → is_legal dest q ≡ false
    → lookup q (
        or_same
          (write_file p c (or_same (mkdir_all (parent p) d) d))
          (or_same (mkdir_all (parent p) d) d))
      ≡ lookup q d
file_kept dest p q c d l e h =
    write_kept dest p q c (or_same (mkdir_all (parent p) d) d) l h
    ∙ mkdir_kept dest (parent p) q d (is_within-parent dest p l) e h

-- Where dest is a directory, an archive changes no path that is not strictly below dest, whatever
-- the names of its entries are and wherever an error ends it.
pub lookup-unzip_entries :
    (dest q : FilePath) (a : Archive) (d : Disk)
    → lookup dest d ≡ some directory
    → is_legal dest q ≡ false
    → lookup q (unzip_entries dest a d).0 ≡ lookup q d
unfolding unzip_entries
lookup-unzip_entries dest q sealed d e h = refl
lookup-unzip_entries dest q (packs_dir name rest) d e h =
    elim (Bool-cases (is_legal dest (join dest name))) [
      | inr bad ↦ rw bad refl
      | inl good ↦
          let w = is_within_of_legal dest (join dest name) good in
          rw good (
            lookup-unzip_entries dest q rest (or_same (mkdir_all (join dest name) d) d)
              (mkdir_kept dest (join dest name) dest d w e (is_legal_self dest) ∙ e) h
            ∙ mkdir_kept dest (join dest name) q d w e h)
    ]
lookup-unzip_entries dest q (packs_file name c rest) d e h =
    elim (Bool-cases (is_legal dest (join dest name))) [
      | inr bad ↦ rw bad refl
      | inl good ↦ rw good (
          lookup-unzip_entries dest q rest
            (or_same
              (write_file (join dest name) c (or_same (mkdir_all (parent (join dest name)) d) d))
              (or_same (mkdir_all (parent (join dest name)) d) d))
            (file_kept dest (join dest name) dest c d good e (is_legal_self dest) ∙ e) h
          ∙ file_kept dest (join dest name) q c d good e h)
    ]
