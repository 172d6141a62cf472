-- ===== src/Worker/Scanning.antt =====
-- GetAllLocalInstances against FindInstanceDir: what the monitor looks at, and what it misses.
use ops_system.Prelude.{
  String, ◌≡◌, refl, ◌≢◌, ◌⊎◌, inl, inr, List, [], ◌∷◌, Option, none, some, true, false, not, ◌&&◌,
  ◌||◌, arith, if◌then◌else◌, Bool-cases, ◌==◌, string_key, ap, sym, ◌∙◌, All, All-append,
}
use Prim.Native.Char.{char}
use Prim.Native.String.{◌++◌ as append}
use mathlib.Core.Option.{some_inj}
use ops_system.Assoc.{lookup}
use ops_system.Words.{split_last}
use ops_system.Words.Affix.{split_last_sound, underscore_front}
use ops_system.Disk.{FilePath, Disk, directory, path_key, is_directory, read_dir}
use ops_system.Worker.{InstanceDirInfo}
use ops_system.Worker.Scan.{
  is_dir, is_reserved, instance_id_of, id_part, onto_scanned, scan_names, or_no_names, scan_systems,
  scan_instances_in_dir, get_all_local_instances, find_instance_dir,
}
use ops_system.Worker.Finding.{
  NamedFor, IsInstanceDir, is_dir→directory, is_found, find_instance_dir_lem,
}

named_part :
    (id before after : String)
    → (if not (before == "") && not (after == "") then some after else none) ≡ some id
    → after ≡ id
named_part id before after h = elim (Bool-cases (not (before == "") && not (after == ""))) [
  | inl good ↦ some_inj.0 (rw good at h)
  | inr bad ↦ ground arith
]

id_part-NamedFor :
    (name id : String) (o : Option (String × String))
    → split_last 95 name ≡ o
    → id_part o ≡ some id
    → NamedFor id name
id_part-NamedFor name id none e h = ground arith
id_part-NamedFor name id (some (before, after)) e h = inr (
  before,
  split_last_sound (char 95 tt) name before after e
      ∙ ap (λ (x : String). append before (String.◌∷◌ (char 95 tt) x))
          (named_part id before after h)
      ∙ ap (append before) (sym (underscore_front id)),
)

instance_id_of-NamedFor : (name id : String) → instance_id_of name ≡ some id → NamedFor id name
unfolding instance_id_of
instance_id_of-NamedFor name id h = id_part-NamedFor name id (split_last 95 name) refl h

-- the directory that a scan gives, with the id in its name
pub record IsListed (root : FilePath) (d : Disk) (i : InstanceDirInfo) : Type 0 where
  pub name : String
  pub system : String
  pub is_below : i.work_dir ≡ name ∷ system ∷ root
  pub id_in_name : instance_id_of name ≡ some i.instance_id
  pub is_instance : IsInstanceDir root i.instance_id d i.work_dir

module _ (d : Disk) (root : FilePath) (root_made : lookup root d ≡ some directory) where
  module _ (system : String) (kept : is_reserved system ≡ false)
      (made : lookup (system ∷ root) d ≡ some directory) where
    scanned :
        (name id : String)
        → is_dir (name ∷ system ∷ root) d ≡ true
        → instance_id_of name ≡ some id
        → IsListed root d (record { instance_id = id; work_dir = name ∷ system ∷ root })
    scanned name id h e = record {
      name = name;
      system = system;
      is_below = refl;
      id_in_name = e;
      is_instance = record {
        name = name;
        system = system;
        is_below = refl;
        is_system = kept;
        root_made = root_made;
        system_made = made;
        is_made = is_dir→directory (name ∷ system ∷ root) d h;
        is_named = instance_id_of-NamedFor name id e;
      };
    }

    onto_scanned-IsListed :
        (name : String)
        → is_dir (name ∷ system ∷ root) d ≡ true
        → (o : Option String) (rest : List InstanceDirInfo) → instance_id_of name ≡ o
        → All (IsListed root d) rest
        → All (IsListed root d) (onto_scanned (name ∷ system ∷ root) o rest)
    onto_scanned-IsListed name h none rest e l = l
    onto_scanned-IsListed name h (some id) rest e l = (scanned name id h e, l)

    scan_names-IsListed :
        (names : List String) → All (IsListed root d) (scan_names (system ∷ root) d names)
    unfolding scan_names
    scan_names-IsListed [] = tt
    scan_names-IsListed (name ∷ names) = elim (Bool-cases (is_dir (name ∷ system ∷ root) d)) [
      | inr other ↦ rw other (scan_names-IsListed names)
      | inl h ↦ rw h (
          onto_scanned-IsListed name h (instance_id_of name) (scan_names (system ∷ root) d names)
            refl (scan_names-IsListed names))
    ]

  scan_systems-IsListed :
      (systems : List String) → All (IsListed root d) (scan_systems root d systems)
  unfolding scan_systems
  scan_systems-IsListed [] = tt
  scan_systems-IsListed (system ∷ systems) =
      elim (Bool-cases (not (is_dir (system ∷ root) d) || is_reserved system)) [
        | inl skip ↦ rw skip (scan_systems-IsListed systems)
        | inr look ↦ rw look (
            All-append (IsListed root d)
              (scan_names (system ∷ root) d (or_no_names (read_dir (system ∷ root) d)))
              (scan_systems root d systems)
              (scan_names-IsListed system (ground arith)
                (is_dir→directory (system ∷ root) d (ground arith))
                (or_no_names (read_dir (system ∷ root) d)))
              (scan_systems-IsListed systems))
      ]

scan_instances_in_dir-IsListed :
    (root : FilePath) (d : Disk) → All (IsListed root d) (scan_instances_in_dir root d)
unfolding scan_instances_in_dir read_dir scan_systems
scan_instances_in_dir-IsListed root d = elim (Bool-cases (is_directory (lookup root d))) [
  | inl made ↦
      scan_systems-IsListed d root (is_dir→directory root d made) (or_no_names (read_dir root d))
  | inr missing ↦ rw missing tt
]

All-map :
    (P Q : InstanceDirInfo → Type 0) (l : List InstanceDirInfo)
    → ((i : InstanceDirInfo) → P i → Q i)
    → All P l
    → All Q l
All-map P Q [] f h = tt
All-map P Q (i ∷ l) f h = (f i h.0, All-map P Q l f h.1)

-- a directory that the monitor looks at
abbrev pub IsMonitored : FilePath → Disk → InstanceDirInfo → Type 0
IsMonitored base d i = IsListed base d i ⊎ IsListed ("external" ∷ base) d i

get_all_local_instances-IsMonitored :
    (base : FilePath) (d : Disk) → All (IsMonitored base d) (get_all_local_instances (some base) d)
unfolding get_all_local_instances
get_all_local_instances-IsMonitored base d =
    All-append (IsMonitored base d) (scan_instances_in_dir base d)
      (scan_instances_in_dir ("external" ∷ base) d)
      (All-map (IsListed base d) (IsMonitored base d) (scan_instances_in_dir base d) (λ i h. inl h)
        (scan_instances_in_dir-IsListed base d))
      (All-map (IsListed ("external" ∷ base) d) (IsMonitored base d)
        (scan_instances_in_dir ("external" ∷ base) d) (λ i h. inr h)
        (scan_instances_in_dir-IsListed ("external" ∷ base) d))

abbrev pub CanBeFound : FilePath → Disk → InstanceDirInfo → Type 0
CanBeFound base d i = is_found (find_instance_dir (some base) i.instance_id d) ≡ true

monitored-CanBeFound :
    (base : FilePath) (d : Disk) (i : InstanceDirInfo) → IsMonitored base d i → CanBeFound base d i
monitored-CanBeFound base d i (inl h) =
    (find_instance_dir_lem base i.instance_id d).1 i.work_dir (inl h.is_instance)
monitored-CanBeFound base d i (inr h) =
    (find_instance_dir_lem base i.instance_id d).1 i.work_dir (inr h.is_instance)

-- Every instance that the monitor lists is found by its id.
pub get_all_local_instances-CanBeFound :
    (base : FilePath) (d : Disk) → All (CanBeFound base d) (get_all_local_instances (some base) d)
get_all_local_instances-CanBeFound base d =
    All-map (IsMonitored base d) (CanBeFound base d) (get_all_local_instances (some base) d)
      (monitored-CanBeFound base d) (get_all_local_instances-IsMonitored base d)

listed_elsewhere :
    (root dir : FilePath) (name : String) (d : Disk) (i : InstanceDirInfo)
    → instance_id_of name ≡ none
    → IsListed root d i
    → i.work_dir ≢ (name ∷ dir)
listed_elsewhere root dir name d i e h same = none-ne-some i.instance_id (
    sym e
    ∙ ap (λ (p : FilePath). instance_id_of (last_name p)) (sym same ∙ h.is_below)
    ∙ h.id_in_name)
  where
    last_name : FilePath → String
    last_name [] = ""
    last_name (n ∷ p) = n

    none-ne-some : (id : String) → ◌≡◌ {A = Option String} none (some id) → ⊥
    none-ne-some id k = ground arith

monitored_elsewhere :
    (base dir : FilePath) (name : String) (d : Disk) (i : InstanceDirInfo)
    → instance_id_of name ≡ none
    → IsMonitored base d i
    → i.work_dir ≢ (name ∷ dir)
monitored_elsewhere base dir name d i e (inl h) = listed_elsewhere base dir name d i e h
monitored_elsewhere base dir name d i e (inr h) =
    listed_elsewhere ("external" ∷ base) dir name d i e h

-- A directory with no id in its name is never monitored.
pub get_all_local_instances-misses :
    (base dir : FilePath) (name : String) (d : Disk)
    → instance_id_of name ≡ none
    → All (λ i. i.work_dir ≢ (name ∷ dir)) (get_all_local_instances (some base) d)
get_all_local_instances-misses base dir name d e =
    All-map (IsMonitored base d) (λ i. i.work_dir ≢ (name ∷ dir))
      (get_all_local_instances (some base) d) (λ i h. monitored_elsewhere base dir name d i e h)
      (get_all_local_instances-IsMonitored base d)
