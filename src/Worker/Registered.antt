-- ===== src/Worker/Registered.antt =====
-- What is left of an external instance that was registered: it is found, with its manifest, and it
-- is not monitored where its id has no underscore.
use ops_system.Prelude.{
  String, ◌≡◌, refl, ◌≢◌, inl, inr, ◌∷◌, Option, none, some, Bool, true, false, arith, ap, ◌∙◌,
  subst, All,
}
use ops_system.Assoc.{lookup}
use ops_system.Protocol.{RegisterExternalRequest, ServiceManifest}
use ops_system.Disk.{FilePath, Disk, directory, file, manifest, path_key, mkdir_all, write_file}
use ops_system.Disk.Laws.{mkdir_all-made, lookup-write_file_ne, lookup-write_file_self, below-ne}
use ops_system.Disk.Tree.{IsTree, mkdir_all-IsTree, write_file-IsTree}
use ops_system.Worker.Scan.{is_reserved, instance_id_of, get_all_local_instances, find_instance_dir}
use ops_system.Worker.Install.{
  attempt, virtual_dir, external_manifest, save_external, register_external,
}
use ops_system.Worker.Process.{read_manifest, decode_manifest}
use ops_system.Worker.Finding.{IsInstanceDir, is_found, find_instance_dir_lem}
use ops_system.Worker.Scanning.{get_all_local_instances-misses}

-- the directory with its manifest, in a tree
record IsSaved (dir : FilePath) (m : ServiceManifest) (d : Disk) : Type 0 where
  is_tree : IsTree d
  is_made : lookup dir d ≡ some directory
  is_read : read_manifest dir d ≡ some m

read_manifest-written :
    (dir : FilePath) (m : ServiceManifest) (d d' : Disk)
    → write_file ("service.json" ∷ dir) (manifest m) d ≡ some d'
    → read_manifest dir d' ≡ some m
unfolding read_manifest
read_manifest-written dir m d d' e =
    ap decode_manifest {y = some (file (manifest m))}
      (lookup-write_file_self ("service.json" ∷ dir) (manifest m) d d' e)

written-IsSaved :
    (dir : FilePath) (m : ServiceManifest) (d : Disk) (o : Option Disk) (d' : Disk)
    → IsTree d
    → lookup dir d ≡ some directory
    → write_file ("service.json" ∷ dir) (manifest m) d ≡ o
    → attempt d o ≡ (d', true)
    → IsSaved dir m d'
written-IsSaved dir m d none d' t h e k = absurd (ground arith)
written-IsSaved dir m d (some d₁) d' t h e k =
    subst (IsSaved dir m) (ap (λ (x : Disk × Bool). x.0) k) (record {
      is_tree = write_file-IsTree ("service.json" ∷ dir) (manifest m) d d₁ t e;
      is_made =
          lookup-write_file_ne ("service.json" ∷ dir) dir (manifest m) d d₁ e
            (below-ne "service.json" dir)
          ∙ h;
      is_read = read_manifest-written dir m d d₁ e;
    })

save_external-IsSaved :
    (dir : FilePath) (m : ServiceManifest) (d : Disk) (o : Option Disk) (d' : Disk)
    → IsTree d
    → mkdir_all dir d ≡ o
    → save_external dir m d o ≡ (d', true)
    → IsSaved dir m d'
save_external-IsSaved dir m d none d' t e k = absurd (ground arith)
save_external-IsSaved dir m d (some d₁) d' t e k =
    written-IsSaved dir m d₁ (write_file ("service.json" ∷ dir) (manifest m) d₁) d'
      (mkdir_all-IsTree dir d d₁ t e) (mkdir_all-made dir d d₁ e) refl k

register_external-IsSaved :
    (base : FilePath) (req : RegisterExternalRequest) (d d' : Disk)
    → IsTree d
    → register_external (some base) req d ≡ (d', true)
    → IsSaved (virtual_dir base req) (external_manifest req) d'
unfolding register_external
register_external-IsSaved base req d d' t h =
    save_external-IsSaved (virtual_dir base req) (external_manifest req) d
      (mkdir_all (virtual_dir base req) d) d' t refl h

saved-IsInstanceDir :
    (root : FilePath) (system id : String) (m : ServiceManifest) (d : Disk)
    → is_reserved system ≡ false
    → IsSaved (id ∷ system ∷ root) m d
    → IsInstanceDir root id d (id ∷ system ∷ root)
saved-IsInstanceDir root system id m d k w =
    let system_made = w.is_tree id (system ∷ root) directory w.is_made in
    record {
      name = id;
      system = system;
      is_below = refl;
      is_system = k;
      root_made = w.is_tree system root directory system_made;
      system_made = system_made;
      is_made = w.is_made;
      is_named = inl refl;
    }

-- After an external instance has been registered on a disk that is a tree, under a system's name
-- and an id that are single names, with a system's name that is not reserved and an id that has no
-- part after an underscore, as the master's "ext-" ids have none: its service.json decodes to the
-- manifest made of the request, FindInstanceDir finds a directory for its id, and
-- GetAllLocalInstances does not list its directory, so that the monitor never reports on it.
pub register_external-unmonitored :
    (base : FilePath) (req : RegisterExternalRequest) (d d' : Disk)
    → IsTree d
    → virtual_dir base req ≡ req.instance_id ∷ req.system_name ∷ "external" ∷ base
    → is_reserved req.system_name ≡ false
    → instance_id_of req.instance_id ≡ none
    → register_external (some base) req d ≡ (d', true)
    → (read_manifest (virtual_dir base req) d' ≡ some (external_manifest req))
      × (is_found (find_instance_dir (some base) req.instance_id d') ≡ true)
      × All (λ i. i.work_dir ≢ virtual_dir base req) (get_all_local_instances (some base) d')
register_external-unmonitored base req d d' t e k none_in_name h = (
  saved.is_read,
  (find_instance_dir_lem base req.instance_id d').1
      (req.instance_id ∷ req.system_name ∷ "external" ∷ base)
      (inr (
        saved-IsInstanceDir ("external" ∷ base) req.system_name req.instance_id
          (external_manifest req) d' k
          (subst (λ (p : FilePath). IsSaved p (external_manifest req) d') e saved))),
  rw e (
      get_all_local_instances-misses base (req.system_name ∷ "external" ∷ base) req.instance_id d'
        none_in_name),
)
  where
    saved : IsSaved (virtual_dir base req) (external_manifest req) d'
    saved = register_external-IsSaved base req d d' t h
