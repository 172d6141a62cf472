-- ===== src/Worker/Lifecycle.antt =====
-- Starting, stopping and destroying an instance, whatever its programs do.
use ops_system.Prelude.{
  ℕ, ap, ◌∙◌, some, Option, String, ◌≡◌, refl, ◌≢◌, inl, inr, ◌∷◌, none, false, ltb, arith,
  if◌then◌else◌, Bool-cases, sym, subst, string_key, nat_key,
}
use ops_system.Assoc.{lookup}
use ops_system.Disk.{
  path_matches_iff, FilePath, Disk, path_key, is_within, read_file, remove_all, remove, or_same,
}
use ops_system.Disk.Laws.{lookup-remove_all, lookup-remove_ne, read_file-removed, is_within_refl}
use ops_system.Worker.{Machine}
use ops_system.Protocol.{ServiceManifest}
use ops_system.Worker.Process.{
  Os, StartProcessResult, read_manifest, decode_manifest, get_pid, is_running, failure,
  start_manifest, start_decoded, start_process,
}
use ops_system.Worker.Stopping.{stop_script, end_process, stop_process, destroy}

end_process-ends :
    (os : Os) (work_dir : FilePath) (s : Machine)
    → is_running work_dir (end_process os work_dir s) ≡ false
unfolding end_process is_running get_pid
end_process-ends os work_dir s = rw (read_file-removed ("pid" ∷ work_dir) s.disk) refl

end_process-kept :
    (os : Os) (work_dir q : FilePath) (s : Machine)
    → ("pid" ∷ work_dir) ≢ q
    → lookup q (end_process os work_dir s).disk ≡ lookup q s.disk
unfolding end_process
end_process-kept os work_dir q s h = lookup-remove_ne ("pid" ∷ work_dir) q s.disk h

-- a start of an instance that does not run, the result of readManifest given
abbrev pub start_anew :
    Os → ℕ → FilePath → Machine → Option ServiceManifest → StartProcessResult × Machine
start_anew os now work_dir s none = (failure, s)
start_anew os now work_dir s (some m) = start_manifest os now work_dir m s

start_decoded-start_anew :
    (os : Os) (now : ℕ) (work_dir : FilePath) (s : Machine) (o : Option ServiceManifest)
    → is_running work_dir s ≡ false
    → start_decoded os now work_dir s o ≡ start_anew os now work_dir s o
start_decoded-start_anew os now work_dir s none h = refl
start_decoded-start_anew os now work_dir s (some m) h = rw h refl

end_process-read_manifest :
    (os : Os) (work_dir : FilePath) (s : Machine)
    → read_manifest work_dir (end_process os work_dir s).disk ≡ read_manifest work_dir s.disk
unfolding read_manifest
end_process-read_manifest os work_dir s = ap decode_manifest (
    end_process-kept os work_dir ("service.json" ∷ work_dir) s
      (λ e. ground (arith, (path_matches_iff ("pid" ∷ work_dir) ("service.json" ∷ work_dir)).1 e)))

-- Whatever the instance's stop program does and whatever Kill achieves, after StopProcess the
-- instance counts as not running, its pid file cannot be read, and every other path is as the stop
-- program left it. The processes that are alive are those that Kill leaves of the ones that the stop
-- program left, for the process id that the pid file then held, and all of these if it held none that
-- is positive. The next start goes by the manifest that the stop program left and takes the way of
-- an instance that does not run, also where Kill could not end the old process.
pub stop_process-ends :
    (os : Os) (now : ℕ) (work_dir q : FilePath) (s : Machine)
    → ("pid" ∷ work_dir) ≢ q
    → let left = stop_script os work_dir (read_manifest work_dir s.disk) s in
      let pid = get_pid work_dir left.disk in
      let stopped = stop_process os work_dir s in
      (is_running work_dir stopped ≡ false)
      × (read_file ("pid" ∷ work_dir) stopped.disk ≡ none)
      × (lookup q stopped.disk ≡ lookup q left.disk)
      × (stopped.alive ≡ (if ltb 0 pid then os.killed pid left.alive else left.alive))
      × (start_process os now work_dir stopped
          ≡ start_anew os now work_dir stopped (read_manifest work_dir left.disk))
unfolding stop_process
stop_process-ends os now work_dir q s h = (
  end_process-ends os work_dir left,
  unfold end_process in read_file-removed ("pid" ∷ work_dir) left.disk,
  end_process-kept os work_dir q left h,
  unfold end_process in refl,
  unfold start_process in
      start_decoded-start_anew os now work_dir stopped (read_manifest work_dir stopped.disk)
        (end_process-ends os work_dir left)
      ∙ ap (start_anew os now work_dir stopped) (end_process-read_manifest os work_dir left),
)
  where
    left : Machine
    left = stop_script os work_dir (read_manifest work_dir s.disk) s

    stopped : Machine
    stopped = end_process os work_dir left

below_ne_of_outside : (n : String) (p q : FilePath) → is_within p q ≡ false → (n ∷ p) ≢ q
unfolding is_within
below_ne_of_outside n p q w e =
    ground (arith, subst (λ (r : FilePath). is_within p r ≡ false) (sym e) w, is_within_refl p)

lookup-destroyed :
    (work_dir q : FilePath) (d : Disk)
    → lookup q (remove_all work_dir (or_same (remove ("pid" ∷ work_dir) d) d))
      ≡ (if is_within work_dir q then none else lookup q d)
lookup-destroyed work_dir q d = elim (Bool-cases (is_within work_dir q)) [
  | inl inside ↦
      rw (lookup-remove_all work_dir q (or_same (remove ("pid" ∷ work_dir) d) d), inside) refl
  | inr outside ↦
      rw (lookup-remove_all work_dir q (or_same (remove ("pid" ∷ work_dir) d) d), outside)
        (lookup-remove_ne ("pid" ∷ work_dir) q d (below_ne_of_outside "pid" work_dir q outside))
]

-- Destroying removes every path in the instance's directory and no other: elsewhere the disk is what
-- the instance's stop program left.
pub lookup-destroy :
    (os : Os) (work_dir q : FilePath) (s : Machine)
    → lookup q (destroy os work_dir s).disk ≡ (
        if is_within work_dir q
        then none
        else lookup q (stop_script os work_dir (read_manifest work_dir s.disk) s).disk)
unfolding destroy stop_process end_process
lookup-destroy os work_dir q s =
    lookup-destroyed work_dir q (stop_script os work_dir (read_manifest work_dir s.disk) s).disk
