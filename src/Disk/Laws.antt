-- ===== src/Disk/Laws.antt =====
-- What the operations on files leave at each path.
use ops_system.Prelude.{
  String, ◌≡◌, refl, sym, ◌∙◌, ap, subst, ◌≢◌, inl, inr, [], ◌∷◌, Option, none, some, Bool, true,
  false, not, ◌&&◌, arith, keep, if◌then◌else◌, Bool-cases, length,
}
use mathlib.Core.Option.{some_inj}
use ops_system.Assoc.{
  lookup, erase, lookup-insert, lookup-insert_ne, lookup-erase_ne, lookup-erase_self,
  lookup-insert_self,
}
use ops_system.Disk.{
  FilePath, Disk, Entry, directory, file, Content, path_key, path_matches, path_matches_iff,
  is_within, is_directory, parent, read_file, write_file, rename, make, mkdir_all, remove_all,
  remove, remove_entry, children, or_same, is_empty, content,
}

lookup-keep :
    (f : FilePath → Bool) (q : FilePath) (d : Disk)
    → lookup q (keep (λ (e : FilePath × Entry). f e.0) d) ≡ (if f q then lookup q d else none)
unfolding lookup
lookup-keep f q [] = ground arith
lookup-keep f q (x ∷ d) = ground (arith, lookup-keep f q d, path_matches_iff x.0 q)

pub lookup-remove_all :
    (p q : FilePath) (d : Disk)
    → lookup q (remove_all p d) ≡ (if is_within p q then none else lookup q d)
unfolding remove_all
lookup-remove_all p q d = ground (arith, lookup-keep (λ (r : FilePath). not (is_within p r)) q d)

pub lookup-write_file_ne :
    (p q : FilePath) (c : Content) (d d' : Disk)
    → write_file p c d ≡ some d'
    → p ≢ q
    → lookup q d' ≡ lookup q d
unfolding write_file
lookup-write_file_ne p q c d d' h k = ground (arith, lookup-insert_ne p q (file c) d k)

pub is_within_refl : (p : FilePath) → is_within p p ≡ true
unfolding is_within
is_within_refl [] = refl
is_within_refl (n ∷ p) = ground (arith, path_matches_iff (n ∷ p) (n ∷ p))

lookup-make_ne :
    (p q : FilePath) (e : Option Entry) (d : Disk) (above : Option Disk) (d' : Disk)
    → p ≢ q
    → ((d₁ : Disk) → above ≡ some d₁ → lookup q d₁ ≡ lookup q d)
    → make p e d above ≡ some d'
    → lookup q d' ≡ lookup q d
lookup-make_ne p q none d none d' k h m = ground arith
lookup-make_ne p q none d (some d₁) d' k h m =
    ground (arith, h d₁ refl, lookup-insert_ne p q directory d₁ k)
lookup-make_ne p q (some directory) d above d' k h m = ground arith
lookup-make_ne p q (some (file c)) d above d' k h m = ground arith

-- A directory that is there is left as it is.
pub mkdir_all-directory :
    (p : FilePath) (d : Disk) → lookup p d ≡ some directory → mkdir_all p d ≡ some d
unfolding mkdir_all
mkdir_all-directory [] d e = rw e refl
mkdir_all-directory (n ∷ p) d e = rw e refl

ne_of_outside :
    (dest p q : FilePath)
    → is_within dest p ≡ true
    → path_matches dest p ≡ false
    → (is_within dest q && not (path_matches dest q)) ≡ false
    → p ≢ q
ne_of_outside dest p q w m h e = ground (
  arith,
  subst (λ (r : FilePath). is_within dest r ≡ true) e w,
  subst (λ (r : FilePath). path_matches dest r ≡ false) e m,
)

mkdir_all-matched :
    (dest p q : FilePath) (d d' : Disk)
    → path_matches dest p ≡ true
    → lookup dest d ≡ some directory
    → mkdir_all p d ≡ some d'
    → lookup q d' ≡ lookup q d
mkdir_all-matched dest p q d d' m e k = ground (
  arith,
  mkdir_all-directory p d
      (subst (λ (r : FilePath). lookup r d ≡ some directory) ((path_matches_iff dest p).0 m) e),
)

-- Below a directory that is there, mkdir_all changes nothing but what is strictly below it.
pub lookup-mkdir_all_outside :
    (dest p q : FilePath) (d d' : Disk)
    → is_within dest p ≡ true
    → lookup dest d ≡ some directory
    → (is_within dest q && not (path_matches dest q)) ≡ false
    → mkdir_all p d ≡ some d'
    → lookup q d' ≡ lookup q d
unfolding is_within
lookup-mkdir_all_outside dest [] q d d' w e h k = mkdir_all-matched dest [] q d d' w e k
lookup-mkdir_all_outside dest (n ∷ p) q d d' w e h k =
    elim (Bool-cases (path_matches dest (n ∷ p))) [
      | inl same ↦ mkdir_all-matched dest (n ∷ p) q d d' same e k
      | inr other ↦
          lookup-make_ne (n ∷ p) q (lookup (n ∷ p) d) d (mkdir_all p d) d'
            (ne_of_outside dest (n ∷ p) q w other h)
            (λ d₁ k₁. lookup-mkdir_all_outside dest p q d d₁ (within_above w other) e h k₁)
            (unfold mkdir_all in k)
    ]
  where
    within_above :
        is_within dest (n ∷ p) ≡ true → path_matches dest (n ∷ p) ≡ false → is_within dest p ≡ true
    within_above w' other = ground arith

ne_of_not_within : (p q : FilePath) → is_within q p ≡ false → p ≢ q
ne_of_not_within p q w e =
    ground (arith, subst (λ (r : FilePath). is_within r p ≡ false) (sym e) w, is_within_refl p)

-- mkdir_all changes only p and what is above it.
pub lookup-mkdir_all_elsewhere :
    (p q : FilePath) (d d' : Disk)
    → is_within q p ≡ false
    → mkdir_all p d ≡ some d'
    → lookup q d' ≡ lookup q d
unfolding is_within
lookup-mkdir_all_elsewhere [] q d d' w k =
    lookup-make_ne [] q (lookup [] d) d (some d) d' (ne_of_not_within [] q w)
      (λ d₁ k₁. ground arith) (unfold mkdir_all in k)
lookup-mkdir_all_elsewhere (n ∷ p) q d d' w k =
    lookup-make_ne (n ∷ p) q (lookup (n ∷ p) d) d (mkdir_all p d) d' (ne_of_not_within (n ∷ p) q w)
      (λ d₁ k₁. lookup-mkdir_all_elsewhere p q d d₁ (ground arith) k₁) (unfold mkdir_all in k)

pub lookup-rename_ne :
    (from to q : FilePath) (d d' : Disk)
    → rename from to d ≡ some d'
    → from ≢ q
    → to ≢ q
    → lookup q d' ≡ lookup q d
lookup-rename_ne from to q d d' k f t = by_content (read_file from d) (unfold rename in k)
  where
    by_content :
        (c : Option Content)
        → elim c as (λ o. Option Disk) [ none ↦ none | some x ↦ write_file to x (erase from d) ]
          ≡ some d'
        → lookup q d' ≡ lookup q d
    by_content none k' = ground arith
    by_content (some x) k' =
        lookup-write_file_ne to q x (erase from d) d' k' t ∙ lookup-erase_ne from q d f

make-made :
    (p : FilePath) (e : Option Entry) (d : Disk) (above : Option Disk) (d' : Disk)
    → lookup p d ≡ e
    → make p e d above ≡ some d'
    → lookup p d' ≡ some directory
make-made p none d none d' h k = ground arith
make-made p none d (some d₁) d' h k = ground (arith, lookup-insert_self p directory d₁)
make-made p (some directory) d above d' h k = ground arith
make-made p (some (file c)) d above d' h k = ground arith

-- mkdir_all leaves a directory.
pub mkdir_all-made :
    (p : FilePath) (d d' : Disk) → mkdir_all p d ≡ some d' → lookup p d' ≡ some directory
mkdir_all-made [] d d' k = make-made [] (lookup [] d) d (some d) d' refl (unfold mkdir_all in k)
mkdir_all-made (n ∷ p) d d' k =
    make-made (n ∷ p) (lookup (n ∷ p) d) d (mkdir_all p d) d' refl (unfold mkdir_all in k)

removed_none :
    (p : FilePath) (d : Disk) (e : Option Entry)
    → lookup p d ≡ e
    → content (lookup p (or_same (remove_entry p d e) d)) ≡ none
removed_none p d none e = rw e refl
removed_none p d (some (file c)) e = rw (lookup-erase_self p d) refl
removed_none p d (some directory) e = elim (Bool-cases (is_empty (children p d))) [
  | inl none_left ↦ rw (none_left, lookup-erase_self p d) refl
  | inr some_left ↦ rw (some_left, e) refl
]

-- After os.Remove, done or refused, there is no file to read.
pub read_file-removed : (p : FilePath) (d : Disk) → read_file p (or_same (remove p d) d) ≡ none
unfolding read_file remove
read_file-removed p d = removed_none p d (lookup p d) refl

removed_ne :
    (p q : FilePath) (d : Disk) (e : Option Entry)
    → p ≢ q
    → lookup q (or_same (remove_entry p d e) d) ≡ lookup q d
removed_ne p q d none h = refl
removed_ne p q d (some (file c)) h = lookup-erase_ne p q d h
removed_ne p q d (some directory) h = ground (arith, lookup-erase_ne p q d h)

pub lookup-remove_ne :
    (p q : FilePath) (d : Disk) → p ≢ q → lookup q (or_same (remove p d) d) ≡ lookup q d
unfolding remove
lookup-remove_ne p q d h = removed_ne p q d (lookup p d) h

pub lookup-write_file :
    (p q : FilePath) (c : Content) (d : Disk)
    → is_directory (lookup (parent p) d) ≡ true
    → is_directory (lookup p d) ≡ false
    → lookup q (or_same (write_file p c d) d)
      ≡ (if path_matches p q then some (file c) else lookup q d)
unfolding write_file
lookup-write_file p q c d h k = rw (h, k) (lookup-insert p q (file c) d)

-- A write, done or refused, leaves the other paths alone.
pub lookup-written_ne :
    (p q : FilePath) (c : Content) (d : Disk)
    → p ≢ q
    → lookup q (or_same (write_file p c d) d) ≡ lookup q d
unfolding write_file
lookup-written_ne p q c d h = ground (arith, lookup-insert_ne p q (file c) d h)

pub below-ne : (n : String) (p : FilePath) → (n ∷ p) ≢ p
below-ne n p e = absurd (omega (arith, ap length e))

-- What was written is there.
pub lookup-write_file_self :
    (p : FilePath) (c : Content) (d d' : Disk)
    → write_file p c d ≡ some d'
    → lookup p d' ≡ some (file c)
unfolding write_file
lookup-write_file_self p c d d' h = ground (arith, lookup-insert_self p (file c) d)

read_file-make :
    (p q : FilePath) (e : Option Entry) (d : Disk) (above : Option Disk) (d' : Disk)
    → lookup p d ≡ e
    → ((d₁ : Disk) → above ≡ some d₁ → read_file q d₁ ≡ read_file q d)
    → make p e d above ≡ some d'
    → read_file q d' ≡ read_file q d
unfolding read_file
read_file-make p q none d none d' l h m = ground arith
read_file-make p q none d (some d₁) d' l h m =
    ap (λ (x : Disk). content (lookup q x)) (sym (some_inj.0 m))
    ∙ elim (Bool-cases (path_matches p q)) [
      | inl same ↦
          rw (lookup-insert p q directory d₁, same)
            (sym (
              ap (λ (r : FilePath). content (lookup r d)) (sym ((path_matches_iff p q).0 same))
              ∙ ap content l))
      | inr other ↦ rw (lookup-insert p q directory d₁, other) (h d₁ refl)
    ]
read_file-make p q (some directory) d above d' l h m = ground arith
read_file-make p q (some (file c)) d above d' l h m = ground arith

-- mkdir_all changes no file's content.
pub read_file-mkdir_all :
    (p q : FilePath) (d d' : Disk) → mkdir_all p d ≡ some d' → read_file q d' ≡ read_file q d
read_file-mkdir_all [] q d d' h =
    read_file-make [] q (lookup [] d) d (some d) d' refl
      (λ d₁ e. ap (read_file q) (sym (some_inj.0 e))) (unfold mkdir_all in h)
read_file-mkdir_all (n ∷ p) q d d' h =
    read_file-make (n ∷ p) q (lookup (n ∷ p) d) d (mkdir_all p d) d' refl
      (read_file-mkdir_all p q d) (unfold mkdir_all in h)
