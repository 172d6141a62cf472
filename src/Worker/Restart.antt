-- ===== src/Worker/Restart.antt =====
-- While a process that was started is alive it is found running, so that starting it again changes
-- nothing.
use ops_system.Prelude.{
  ℕ, ◌≤◌, ◌<◌, ltb, ◌≡◌, refl, inl, inr, ◌∷◌, Option, none, some, true, false, arith, Bool-cases,
  sym, ◌∙◌, subst, ap, string_key, nat_key,
}
use ops_system.Assoc.{lookup}
use ops_system.Words.{itoa, max_int}
use ops_system.Protocol.{ServiceManifest}
use ops_system.Disk.{FilePath, Entry, text, path_key, is_directory, read_file, content}
use ops_system.Worker.{Machine, Launch}
use ops_system.Worker.Process.{
  Os, StartProcessResult, decode_manifest, read_manifest, get_pid, pid_of, is_running, is_alive,
  start_process, start_manifest, start_decoded, start_resolved, launched_as, launch_of,
  record_target, find_target, resolve_executable, cmd_path, exec_dir, is_matched, running,
  with_file, after_start,
}
use ops_system.Worker.Recorded.{
  read_manifest-with_file, name-ne, IsReady, get_pid-recorded, IsReady-with_file,
}

-- the process ids that the operating system gives
abbrev pub HasPids : Os → Type 0
HasPids os =
    (l : Launch) (s : Machine) (pid : ℕ) → os.started l s ≡ some pid → (0 < pid) × (pid ≤ max_int)

-- until its pid file is written, a started program leaves the directory, the manifest and "pid" alone
abbrev pub LeavesFiles : Os → FilePath → Type 0
LeavesFiles os work_dir =
    (l : Launch) (s : Machine)
    → (lookup work_dir (os.begun l s).disk ≡ lookup work_dir s.disk)
      × (lookup ("pid" ∷ work_dir) (os.begun l s).disk ≡ lookup ("pid" ∷ work_dir) s.disk)
      × (lookup ("service.json" ∷ work_dir) (os.begun l s).disk
          ≡ lookup ("service.json" ∷ work_dir) s.disk)

-- `later` still has the manifest and the pid file of the machine s, and the process is alive
pub record StillRuns (work_dir : FilePath) (pid : ℕ) (s later : Machine) : Type 0 where
  pub same_manifest :
      lookup ("service.json" ∷ work_dir) later.disk ≡ lookup ("service.json" ∷ work_dir) s.disk
  pub same_pid : lookup ("pid" ∷ work_dir) later.disk ≡ lookup ("pid" ∷ work_dir) s.disk
  pub lives : is_alive pid later.alive ≡ true

start_process-decoded :
    (os : Os) (now : ℕ) (work_dir : FilePath) (m : ServiceManifest) (s : Machine)
    → read_manifest work_dir s.disk ≡ some m
    → start_process os now work_dir s ≡ start_decoded os now work_dir s (some m)
unfolding start_process
start_process-decoded os now work_dir m s e = ap (start_decoded os now work_dir s) {y = some m} e

-- what a second start gives, where the manifest is there and the process runs
start_process-running :
    (os : Os) (now : ℕ) (work_dir : FilePath) (m : ServiceManifest) (s : Machine)
    → read_manifest work_dir s.disk ≡ some m
    → is_running work_dir s ≡ true
    → start_process os now work_dir s ≡ (running (get_pid work_dir s.disk) now, s)
start_process-running os now work_dir m s e h =
    start_process-decoded os now work_dir m s e ∙ rw h refl

-- A start that succeeds, the code from readManifest on: the manifest can still be read, and the pid
-- file has the process id of the result.
record IsStarted (work_dir : FilePath) (m : ServiceManifest) (r : StartProcessResult × Machine)
    : Type 0 where
  is_read : read_manifest work_dir r.1.disk ≡ some m
  is_named : get_pid work_dir r.1.disk ≡ r.0.pid
  is_positive : ltb 0 r.0.pid ≡ true

running-positive :
    (work_dir : FilePath) (s : Machine)
    → is_running work_dir s ≡ true
    → ltb 0 (get_pid work_dir s.disk) ≡ true
unfolding is_running
running-positive work_dir s h = ground (arith, h)

module _ (os : Os) (pids : HasPids os) (now : ℕ) (work_dir : FilePath)
    (leaves : LeavesFiles os work_dir) (m : ServiceManifest) (direct : is_matched m ≡ false) where
  record_target-direct :
      (l : Launch) (pid : ℕ) (s : Machine)
      → record_target now work_dir m (find_target os m l pid s)
        ≡ (running pid now, with_file ("pid" ∷ work_dir) (text (itoa pid)) (after_start os pid l s))
  unfolding record_target find_target
  record_target-direct l pid s = rw direct refl

  after_start-IsReady :
      (pid : ℕ) (l : Launch) (s : Machine)
      → IsReady work_dir s.disk
      → IsReady work_dir (after_start os pid l s).disk
  after_start-IsReady pid l s r =
      let begun : Machine = record {
        disk = s.disk;
        alive = pid ∷ s.alive;
        launched = l ∷ s.launched;
      } in
      record {
        is_made = (leaves l begun).0 ∙ r.is_made;
        pid_free = ap is_directory (leaves l begun).1 ∙ r.pid_free;
      }

  read_manifest-after_start :
      (pid : ℕ) (l : Launch) (s : Machine)
      → read_manifest work_dir (after_start os pid l s).disk ≡ read_manifest work_dir s.disk
  unfolding read_manifest
  read_manifest-after_start pid l s =
      ap decode_manifest
        (leaves l (record { disk = s.disk; alive = pid ∷ s.alive; launched = l ∷ s.launched })).2

  launched_as-IsStarted :
      (l : Launch) (s : Machine) (o : Option ℕ)
      → os.started l s ≡ o
      → IsReady work_dir s.disk
      → read_manifest work_dir s.disk ≡ some m
      → (launched_as os now work_dir m l s o).0.failed ≡ false
      → IsStarted work_dir m (launched_as os now work_dir m l s o)
  launched_as-IsStarted l s none e r k ok = ground arith
  launched_as-IsStarted l s (some pid) e r k ok =
      subst (IsStarted work_dir m) (sym (record_target-direct l pid s)) (record {
        is_read =
            read_manifest-with_file work_dir "pid" (text (itoa pid)) (after_start os pid l s)
              (name-ne "pid" "service.json" work_dir refl)
            ∙ read_manifest-after_start pid l s
            ∙ k;
        is_named =
            get_pid-recorded work_dir pid (after_start os pid l s) (after_start-IsReady pid l s r)
              (pids l s pid e).1;
        is_positive = ground (arith, (pids l s pid e).0);
      })

  start_resolved-IsStarted :
      (s : Machine) (o : Option FilePath)
      → IsReady work_dir s.disk
      → read_manifest work_dir s.disk ≡ some m
      → (start_resolved os now work_dir m s o).0.failed ≡ false
      → IsStarted work_dir m (start_resolved os now work_dir m s o)
  start_resolved-IsStarted s none r k ok = ground arith
  start_resolved-IsStarted s (some path) r k ok =
      launched_as-IsStarted (launch_of os work_dir m path)
        (with_file ("app.log" ∷ work_dir) (text "") s)
        (os.started (launch_of os work_dir m path) (with_file ("app.log" ∷ work_dir) (text "") s))
        refl (IsReady-with_file work_dir "app.log" (text "") s refl r)
        (read_manifest-with_file work_dir "app.log" (text "") s
            (name-ne "app.log" "service.json" work_dir refl)
          ∙ k)
        ok

  start_manifest-IsStarted :
      (s : Machine)
      → IsReady work_dir s.disk
      → read_manifest work_dir s.disk ≡ some m
      → (start_manifest os now work_dir m s).0.failed ≡ false
      → IsStarted work_dir m (start_manifest os now work_dir m s)
  unfolding start_manifest
  start_manifest-IsStarted s r k ok =
      start_resolved-IsStarted s
        (resolve_executable (cmd_path (exec_dir work_dir m) m.entrypoint) s.disk) r k ok

  start_decoded-IsStarted :
      (s : Machine)
      → IsReady work_dir s.disk
      → read_manifest work_dir s.disk ≡ some m
      → (start_decoded os now work_dir s (some m)).0.failed ≡ false
      → IsStarted work_dir m (start_decoded os now work_dir s (some m))
  start_decoded-IsStarted s r k ok = elim (Bool-cases (is_running work_dir s)) [
    | inl alive ↦
        rw alive
          (record { is_read = k; is_named = refl; is_positive = running-positive work_dir s alive })
    | inr dead ↦ rw dead (start_manifest-IsStarted s r k (rw dead at ok))
  ]

-- An instance that is not matched by its process name is started once: after a start that succeeds,
-- in a directory that is there and has no directory "pid", a second start at any later state of the
-- machine finds the process running, gives its id, and leaves the machine as it is, as long as the
-- process is alive and the manifest and the pid file are as the first start left them. Process
-- ids are positive and fit in an int, and until the pid file is written a started program leaves the
-- directory, the manifest and "pid" alone.
pub start_process-start_process :
    (os : Os) (now next : ℕ) (work_dir : FilePath) (m : ServiceManifest) (s later : Machine)
    → HasPids os
    → LeavesFiles os work_dir
    → IsReady work_dir s.disk
    → read_manifest work_dir s.disk ≡ some m
    → is_matched m ≡ false
    → (start_process os now work_dir s).0.failed ≡ false
    → StillRuns work_dir
        (start_process os now work_dir s).0.pid
        (start_process os now work_dir s).1
        later
    → start_process os next work_dir later
      ≡ (running (start_process os now work_dir s).0.pid next, later)
start_process-start_process os now next work_dir m s later pids leaves r k direct ok still =
    start_process-running os next work_dir m later
      (unfold read_manifest in ap decode_manifest still.same_manifest ∙ started.is_read)
      (unfold is_running in rw named (ground (arith, started.is_positive, still.lives)))
    ∙ ap (λ (p : ℕ). (running p next, later)) named
  where
    same : start_process os now work_dir s ≡ start_decoded os now work_dir s (some m)
    same = start_process-decoded os now work_dir m s k

    started : IsStarted work_dir m (start_process os now work_dir s)
    started = subst (IsStarted work_dir m) (sym same) (
        start_decoded-IsStarted os pids now work_dir leaves m direct s r k
          (subst (λ (x : StartProcessResult × Machine). x.0.failed ≡ false) same ok))

    named : get_pid work_dir later.disk ≡ (start_process os now work_dir s).0.pid
    named =
        unfold get_pid in
        unfold read_file in
        ap (λ (e : Option Entry). pid_of (content e)) still.same_pid ∙ started.is_named
