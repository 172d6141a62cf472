-- ===== src/Worker/Finding.antt =====
-- FindInstanceDir finds an instance's directory exactly when there is one.
use ops_system.Prelude.{
  String, ◌≡◌, refl, ◌⊎◌, inl, inr, ◌↔◌, List, [], ◌∷◌, Option, none, some, Bool, true, false, not,
  ◌&&◌, ◌||◌, arith, if◌then◌else◌, Bool-cases, ◌==◌, string_key, eq_iff, ap, sym, ◌∙◌, subst,
}
use Prim.Native.String.{◌++◌ as append}
use ops_system.Assoc.{lookup}
use ops_system.Words.Affix.{has_suffix_iff}
use mathlib.Core.Option.{some_inj}
use ops_system.Disk.{FilePath, Disk, Entry, directory, file, path_key, is_directory, read_dir}
use ops_system.Disk.Listing.{listed, read_dir-listed}
use ops_system.Worker.Scan.{
  is_dir, is_reserved, or_no_names, or_else, names_instance, find_name, find_in_systems,
  search_in_root, find_instance_dir,
}

abbrev pub is_found : Option FilePath → Bool
is_found none = false
is_found (some p) = true

-- a name that a directory of the instance can have
abbrev pub NamedFor : String → String → Type 0
NamedFor id name = (name ≡ id) ⊎ ((before : String) × (name ≡ append before (append "_" id)))

pub names_instance_iff : (id name : String) → (names_instance id name ≡ true) ↔ NamedFor id name
names_instance_iff id name = (
  λ h. elim (Bool-cases (name == id)) [
    | inl same ↦ inl ((eq_iff name id).0 same)
    | inr other ↦ inr ((has_suffix_iff name (append "_" id)).0 (ground arith))
  ],
  λ h. elim h [
    | inl same ↦ ground (arith, (eq_iff name id).1 same)
    | inr ending ↦ ground (arith, (has_suffix_iff name (append "_" id)).1 ending)
  ],
)

-- p is a directory of the instance in a system's directory under root
pub record IsInstanceDir (root : FilePath) (id : String) (d : Disk) (p : FilePath) : Type 0 where
  pub name : String
  pub system : String
  pub is_below : p ≡ name ∷ system ∷ root
  pub is_system : is_reserved system ≡ false
  pub root_made : lookup root d ≡ some directory
  pub system_made : lookup (system ∷ root) d ≡ some directory
  pub is_made : lookup p d ≡ some directory
  pub is_named : NamedFor id name

pub is_dir→directory : (p : FilePath) (d : Disk) → is_dir p d ≡ true → lookup p d ≡ some directory
is_dir→directory p d = by_entry (lookup p d)
  where
    by_entry : (e : Option Entry) → is_directory e ≡ true → e ≡ some directory
    by_entry none h = ground arith
    by_entry (some directory) h = refl
    by_entry (some (file c)) h = ground arith

none-ne-some : (p : FilePath) → none ≡ some p → ⊥
none-ne-some p h = ground arith

module _ (id : String) (d : Disk) where
  find_name_sound :
      (dir : FilePath) (names : List String) (p : FilePath)
      → find_name id dir d names ≡ some p
      → (name : String) × (p ≡ name ∷ dir) × (is_dir p d ≡ true) × (names_instance id name ≡ true)
  unfolding find_name
  find_name_sound dir [] p h = ground arith
  find_name_sound dir (n ∷ names) p h =
      elim (Bool-cases (is_dir (n ∷ dir) d && names_instance id n)) [
        | inl hit ↦ (
          n,
          sym (some_inj.0 (rw hit at h)),
          rw (sym (some_inj.0 (rw hit at h))) (ground arith),
          ground arith,
        )
        | inr miss ↦ find_name_sound dir names p (rw miss at h)
      ]

  find_name_complete :
      (dir : FilePath) (names : List String) (n : String)
      → listed n names ≡ true
      → is_dir (n ∷ dir) d ≡ true
      → names_instance id n ≡ true
      → is_found (find_name id dir d names) ≡ true
  unfolding find_name
  find_name_complete dir [] n l h k = ground arith
  find_name_complete dir (m ∷ names) n l h k = ground (
    arith,
    eq_iff m n,
    find_name_complete dir names n,
    ap (λ (x : String). is_dir (x ∷ dir) d && names_instance id x) {x = m} {y = n},
  )

  -- the names that are read in a directory
  abbrev names_in : FilePath → List String
  names_in dir = or_no_names (read_dir dir d)

  IsInstanceDir-of_name :
      (root p : FilePath) (system : String)
      → lookup root d ≡ some directory
      → is_dir (system ∷ root) d ≡ true
      → is_reserved system ≡ false
      → find_name id (system ∷ root) d (names_in (system ∷ root)) ≡ some p
      → IsInstanceDir root id d p
  IsInstanceDir-of_name root p system e h k f =
      let (n, same, made, named) = find_name_sound (system ∷ root) (names_in (system ∷ root)) p f in
      record {
        name = n;
        system = system;
        is_below = same;
        is_system = k;
        root_made = e;
        system_made = is_dir→directory (system ∷ root) d h;
        is_made = is_dir→directory p d made;
        is_named = (names_instance_iff id n).0 named;
      }

  or_else_sound :
      (P : FilePath → Type 0) (a b : Option FilePath) (p : FilePath)
      → ((q : FilePath) → a ≡ some q → P q)
      → ((q : FilePath) → b ≡ some q → P q)
      → or_else a b ≡ some p
      → P p
  or_else_sound P none b p f g h = g p h
  or_else_sound P (some q) b p f g h = f p h

  find_in_systems_sound :
      (root : FilePath) (systems : List String) (p : FilePath)
      → lookup root d ≡ some directory
      → find_in_systems id root d systems ≡ some p
      → IsInstanceDir root id d p
  unfolding find_in_systems
  find_in_systems_sound root [] p e h = absurd (none-ne-some p h)
  find_in_systems_sound root (system ∷ systems) p e h =
      elim (Bool-cases (not (is_dir (system ∷ root) d) || is_reserved system)) [
        | inl skip ↦ find_in_systems_sound root systems p e (rw skip at h)
        | inr look ↦
            or_else_sound (IsInstanceDir root id d)
              (find_name id (system ∷ root) d (names_in (system ∷ root)))
              (find_in_systems id root d systems) p
              (λ q. IsInstanceDir-of_name root q system e (ground arith) (ground arith))
              (λ q. find_in_systems_sound root systems q e) (rw look at h)
      ]

  search_in_root_sound :
      (root p : FilePath) → search_in_root id root d ≡ some p → IsInstanceDir root id d p
  unfolding search_in_root read_dir find_in_systems
  search_in_root_sound root p h = elim (Bool-cases (is_directory (lookup root d))) [
    | inl made ↦ find_in_systems_sound root (names_in root) p (is_dir→directory root d made) h
    | inr missing ↦ absurd (none-ne-some p (rw missing at h))
  ]

  or_else-found : (a b : Option FilePath) → is_found (or_else a b) ≡ (is_found a || is_found b)
  or_else-found none b = refl
  or_else-found (some q) b = refl

  looked-found :
      (made reserved : Bool) (a b : Option FilePath)
      → made ≡ true
      → reserved ≡ false
      → is_found a ≡ true
      → is_found (if not made || reserved then b else or_else a b) ≡ true
  looked-found made reserved a b h k f = ground (arith, or_else-found a b)

  find_in_systems_complete :
      (root : FilePath) (systems : List String) (system : String)
      → listed system systems ≡ true
      → is_dir (system ∷ root) d ≡ true
      → is_reserved system ≡ false
      → is_found (find_name id (system ∷ root) d (names_in (system ∷ root))) ≡ true
      → is_found (find_in_systems id root d systems) ≡ true
  unfolding find_in_systems
  find_in_systems_complete root [] system l h k f = ground arith
  find_in_systems_complete root (m ∷ systems) system l h k f = elim (Bool-cases (m == system)) [
    | inl same ↦
        subst
          (λ (x : String).
            is_found (
              if not (is_dir (x ∷ root) d) || is_reserved x
              then find_in_systems id root d systems
              else or_else (find_name id (x ∷ root) d (names_in (x ∷ root)))
                  (find_in_systems id root d systems))
            ≡ true)
          (sym ((eq_iff m system).0 same))
          (looked-found (is_dir (system ∷ root) d) (is_reserved system)
            (find_name id (system ∷ root) d (names_in (system ∷ root)))
            (find_in_systems id root d systems) h k f)
    | inr other ↦ elim (Bool-cases (not (is_dir (m ∷ root) d) || is_reserved m)) [
      | inl skip ↦ rw skip (find_in_systems_complete root systems system (ground arith) h k f)
      | inr look ↦ rw look (
          or_else-found (find_name id (m ∷ root) d (names_in (m ∷ root)))
            (find_in_systems id root d systems)
          ∙ ground (arith, find_in_systems_complete root systems system (ground arith) h k f))
    ]
  ]

  search_in_root_complete :
      (root p : FilePath) → IsInstanceDir root id d p → is_found (search_in_root id root d) ≡ true
  unfolding search_in_root
  search_in_root_complete root p w =
      let made : lookup (w.name ∷ w.system ∷ root) d ≡ some directory =
        subst (λ (q : FilePath). lookup q d ≡ some directory) w.is_below w.is_made in
      let (systems, read, has_system) =
        read_dir-listed w.system root d w.root_made (rw w.system_made refl) in
      let (names, read_names, has_name) =
        read_dir-listed w.name (w.system ∷ root) d w.system_made (rw made refl) in
      rw read (
        find_in_systems_complete root systems w.system has_system (rw w.system_made refl)
          w.is_system
          (rw read_names (
            find_name_complete (w.system ∷ root) names w.name has_name (rw made refl)
              ((names_instance_iff id w.name).1 w.is_named))))

-- FindInstanceDir looks below `base` and below its directory "external". What it finds is a
-- directory of the instance: one named by the id, or by anything, an underscore and the id, in a
-- system's directory. Where there is such a directory, it finds one.
pub find_instance_dir_lem :
    (base : FilePath) (id : String) (d : Disk)
    → ((p : FilePath)
        → find_instance_dir (some base) id d ≡ some p
        → IsInstanceDir base id d p ⊎ IsInstanceDir ("external" ∷ base) id d p)
      × ((p : FilePath)
          → IsInstanceDir base id d p ⊎ IsInstanceDir ("external" ∷ base) id d p
          → is_found (find_instance_dir (some base) id d) ≡ true)
unfolding find_instance_dir
find_instance_dir_lem base id d = (
  λ p h.
      or_else_sound id d (λ q. IsInstanceDir base id d q ⊎ IsInstanceDir ("external" ∷ base) id d q)
        (search_in_root id base d) (search_in_root id ("external" ∷ base) d) p
        (λ q k. inl (search_in_root_sound id d base q k))
        (λ q k. inr (search_in_root_sound id d ("external" ∷ base) q k)) h,
  λ p h.
      or_else-found id d (search_in_root id base d) (search_in_root id ("external" ∷ base) d)
      ∙ (elim h [
        | inl w ↦ rw (search_in_root_complete id d base p w) refl
        | inr w ↦ ground (arith, search_in_root_complete id d ("external" ∷ base) p w)
      ]),
)
