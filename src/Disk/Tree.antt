-- ===== src/Disk/Tree.antt =====
-- A disk is a tree: what stands in it stands in a directory, and the operations keep it so.
use ops_system.Prelude.{
  String, ◌≡◌, refl, inl, inr, [], ◌∷◌, Option, none, some, true, false, not, ◌&&◌, arith,
  Bool-cases, ◌∙◌, subst, ap, length,
}
use mathlib.Core.Option.{some_inj}
use ops_system.Assoc.{lookup, insert, lookup-insert}
use ops_system.Disk.{
  FilePath, Disk, Entry, directory, file, Content, path_key, path_matches, path_matches_iff, parent,
  is_directory, make, mkdir_all, write_file,
}
use ops_system.Disk.Laws.{mkdir_all-made}

abbrev pub IsTree : Disk → Type 0
IsTree d =
    (n : String) (p : FilePath) (e : Entry)
    → lookup (n ∷ p) d ≡ some e
    → lookup p d ≡ some directory

none-ne-some : (d : Disk) → none ≡ some d → ⊥
none-ne-some d h = ground arith

pub of_is_directory : (e : Option Entry) → is_directory e ≡ true → e ≡ some directory
of_is_directory none h = ground arith
of_is_directory (some directory) h = refl
of_is_directory (some (file c)) h = ground arith

not_both : (e : Option Entry) → e ≡ some directory → is_directory e ≡ false → ⊥
not_both e h k = ground (arith, ap is_directory h)

-- an entry in a directory, and not in the place of one
insert-IsTree :
    (p : FilePath) (e : Entry) (d : Disk)
    → ((n : String) (q : FilePath) → p ≡ n ∷ q → lookup q d ≡ some directory)
    → (lookup p d ≡ some directory → e ≡ directory)
    → IsTree d
    → IsTree (insert p e d)
insert-IsTree p e d above kind t n q x h = elim (Bool-cases (path_matches p q)) [
  | inl same ↦
      rw (lookup-insert p q e d, same)
        (ap some
          (kind (ap (λ (r : FilePath). lookup r d) ((path_matches_iff p q).0 same) ∙ in_dir)))
  | inr other ↦ rw (lookup-insert p q e d, other) in_dir
]
  where
    in_dir : lookup q d ≡ some directory
    in_dir = elim (Bool-cases (path_matches p (n ∷ q))) [
      | inl same ↦ above n q ((path_matches_iff p (n ∷ q)).0 same)
      | inr other ↦ t n q x (rw (lookup-insert p (n ∷ q) e d, other) at h)
    ]

-- what mkdir_all adds above a path
make-IsTree :
    (p : FilePath) (e : Option Entry) (d : Disk) (above : Option Disk) (d' : Disk)
    → lookup p d ≡ e
    → IsTree d
    → ((d₁ : Disk) → above ≡ some d₁ → IsTree d₁)
    → ((d₁ : Disk) (n : String) (q : FilePath)
        → above ≡ some d₁
        → p ≡ n ∷ q
        → lookup q d₁ ≡ some directory)
    → make p e d above ≡ some d'
    → IsTree d'
make-IsTree p none d none d' l t f g h = absurd (none-ne-some d' h)
make-IsTree p none d (some d₁) d' l t f g h =
    subst IsTree (some_inj.0 h)
      (insert-IsTree p directory d₁ (λ n q. g d₁ n q refl) (λ k. refl) (f d₁ refl))
make-IsTree p (some directory) d above d' l t f g h = subst IsTree (some_inj.0 h) t
make-IsTree p (some (file c)) d above d' l t f g h = absurd (none-ne-some d' h)

pub mkdir_all-IsTree : (p : FilePath) (d d' : Disk) → IsTree d → mkdir_all p d ≡ some d' → IsTree d'
mkdir_all-IsTree [] d d' t h =
    make-IsTree [] (lookup [] d) d (some d) d' refl t (λ d₁ e. subst IsTree (some_inj.0 e) t)
      (λ d₁ n q e k. absurd (omega (arith, ap length k))) (unfold mkdir_all in h)
mkdir_all-IsTree (m ∷ p) d d' t h =
    make-IsTree (m ∷ p) (lookup (m ∷ p) d) d (mkdir_all p d) d' refl t
      (λ d₁ e. mkdir_all-IsTree p d d₁ t e)
      (λ d₁ n q e k.
        subst (λ (r : FilePath). lookup r d₁ ≡ some directory) (ap parent k)
          (mkdir_all-made p d d₁ e))
      (unfold mkdir_all in h)

pub write_file-IsTree :
    (p : FilePath) (c : Content) (d d' : Disk) → IsTree d → write_file p c d ≡ some d' → IsTree d'
unfolding write_file
write_file-IsTree p c d d' t h =
    elim (Bool-cases (is_directory (lookup (parent p) d) && not (is_directory (lookup p d)))) [
      | inr refused ↦ absurd (none-ne-some d' (rw refused at h))
      | inl good ↦ subst IsTree (some_inj.0 (rw good at h)) (
          insert-IsTree p (file c) d
            (λ n q k.
              subst (λ (r : FilePath). lookup r d ≡ some directory) (ap parent k)
                (of_is_directory (lookup (parent p) d) (ground arith)))
            (λ k. absurd (not_both (lookup p d) k (ground arith))) t)
    ]
