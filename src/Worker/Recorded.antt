-- ===== src/Worker/Recorded.antt =====
-- The files that StartProcess writes beside the manifest: app.log and the pid file.
use ops_system.Prelude.{
  ℕ, ◌≤◌, String, ◌≡◌, refl, ◌≢◌, ◌∷◌, Option, some, false, arith, ◌∙◌, ap, string_key, nat_key,
  ◌==◌,
}
use ops_system.Assoc.{lookup}
use ops_system.Words.{itoa, max_int}
use ops_system.Words.Roundtrip.{atoi-itoa}
use ops_system.Disk.{
  FilePath, Disk, Entry, directory, file, Content, text, path_key, path_matches_iff, is_directory,
  read_file, content,
}
use ops_system.Disk.Laws.{lookup-written_ne, lookup-write_file, below-ne}
use ops_system.Worker.{Machine}
use ops_system.Worker.Process.{decode_manifest, read_manifest, get_pid, pid_of, with_file}

-- a file of the directory other than service.json is written beside it
pub read_manifest-with_file :
    (work_dir : FilePath) (n : String) (c : Content) (s : Machine)
    → (n ∷ work_dir) ≢ ("service.json" ∷ work_dir)
    → read_manifest work_dir (with_file (n ∷ work_dir) c s).disk ≡ read_manifest work_dir s.disk
unfolding read_manifest
read_manifest-with_file work_dir n c s h =
    ap decode_manifest (lookup-written_ne (n ∷ work_dir) ("service.json" ∷ work_dir) c s.disk h)

pub name-ne : (n k : String) (p : FilePath) → (n == k) ≡ false → (n ∷ p) ≢ (k ∷ p)
name-ne n k p h e = ground (arith, h, (path_matches_iff (n ∷ p) (k ∷ p)).1 e)

-- the directory, which has no directory "pid"
pub record IsReady (work_dir : FilePath) (d : Disk) : Type 0 where
  pub is_made : lookup work_dir d ≡ some directory
  pub pid_free : is_directory (lookup ("pid" ∷ work_dir) d) ≡ false

pub get_pid-recorded :
    (work_dir : FilePath) (pid : ℕ) (s : Machine)
    → IsReady work_dir s.disk
    → pid ≤ max_int
    → get_pid work_dir (with_file ("pid" ∷ work_dir) (text (itoa pid)) s).disk ≡ pid
unfolding get_pid read_file
get_pid-recorded work_dir pid s r h =
    ap (λ (e : Option Entry). pid_of (content e)) {y = some (file (text (itoa pid)))}
      (lookup-write_file ("pid" ∷ work_dir) ("pid" ∷ work_dir) (text (itoa pid)) s.disk
          (rw r.is_made refl) r.pid_free
        ∙ rw ((path_matches_iff ("pid" ∷ work_dir) ("pid" ∷ work_dir)).1 refl) refl)
    ∙ atoi-itoa pid h

pub IsReady-with_file :
    (work_dir : FilePath) (n : String) (c : Content) (s : Machine)
    → (n == "pid") ≡ false
    → IsReady work_dir s.disk
    → IsReady work_dir (with_file (n ∷ work_dir) c s).disk
IsReady-with_file work_dir n c s h r = record {
  is_made = lookup-written_ne (n ∷ work_dir) work_dir c s.disk (below-ne n work_dir) ∙ r.is_made;
  pid_free =
      ap is_directory
        (lookup-written_ne (n ∷ work_dir) ("pid" ∷ work_dir) c s.disk (name-ne n "pid" work_dir h))
      ∙ r.pid_free;
}
