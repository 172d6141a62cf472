-- ===== src/Worker/Reporting.antt =====
-- A round of the monitor sends the reports that the pid files and the process table ask for, whatever
-- is cached.
use ops_system.Prelude.{
  ℕ, ◌%◌, String, ◌≡◌, refl, inl, inr, List, [], ◌∷◌, Option, none, some, if◌then◌else◌, ltb, ap,
  ◌∙◌, Bool-cases, map,
}
use ops_system.Protocol.{InstanceStatusReport}
use ops_system.Disk.{FilePath, Disk, Content, read_file}
use ops_system.Worker.{InstanceDirInfo}
use ops_system.Worker.Scan.{get_all_local_instances}
use ops_system.Worker.Process.{pid_of, get_pid}
use ops_system.Worker.Monitor.{
  IoCache, Sample, report_process, check_instance, check_instances, check_and_report, onto,
  report_status,
}

abbrev pub status_of : Option Sample → String
status_of none = "stopped"
status_of (some x) = "running"

-- one instance's id and status, where its pid file has a positive number
abbrev pub expected_of :
    (ℕ → Option Sample) → String → ℕ → List (String × String) → List (String × String)
expected_of probe id pid rest =
    if ltb 0 pid then (id, status_of (probe (pid % 0x100000000))) ∷ rest else rest

abbrev pub expected : (ℕ → Option Sample) → Disk → List InstanceDirInfo → List (String × String)
expected probe d [] = []
expected probe d (i ∷ rest) =
    expected_of probe i.instance_id (get_pid i.work_dir d) (expected probe d rest)

abbrev pub identity : InstanceStatusReport → String × String
identity r = (r.instance_id, r.status)

module _ (rate : ℕ → ℕ → ℕ) (probe : ℕ → Option Sample) where
  identity-process :
      (id : String) (pid : ℕ) (x : Option Sample) (cache : IoCache)
      (reports : List InstanceStatusReport)
      → map identity (onto rate (report_process rate id pid x cache).0 reports)
        ≡ (id, status_of x) ∷ map identity reports
  unfolding report_status
  identity-process id pid none cache reports = refl
  identity-process id pid (some x) cache reports = refl

  identity-instance :
      (id : String) (c : Option Content) (cache : IoCache) (reports : List InstanceStatusReport)
      → map identity (onto rate (check_instance rate probe id c cache).0 reports)
        ≡ expected_of probe id (pid_of c) (map identity reports)
  unfolding check_instance
  identity-instance id none cache reports = refl
  identity-instance id (some c) cache reports = elim (Bool-cases (ltb 0 (pid_of (some c)))) [
    | inl positive ↦ rw positive (
        identity-process id (pid_of (some c)) (probe (pid_of (some c) % 0x100000000)) cache reports)
    | inr zero ↦ rw zero refl
  ]

  identity-instances :
      (d : Disk) (instances : List InstanceDirInfo) (cache : IoCache)
      → map identity (check_instances rate probe d instances cache).0 ≡ expected probe d instances
  unfolding check_instances get_pid
  identity-instances d [] cache = refl
  identity-instances d (i ∷ rest) cache =
      let c = read_file ("pid" ∷ i.work_dir) d in
      let seen = check_instance rate probe i.instance_id c cache in
      identity-instance i.instance_id c cache (check_instances rate probe d rest seen.1).0
      ∙ ap (expected_of probe i.instance_id (pid_of c)) (identity-instances d rest seen.1)

-- A round of the monitor sends, in order, one report for each listed instance whose pid file has a
-- positive number, and none for the others: "running" where the process table has that number, cut
-- to 32 bits, and "stopped" where it has not, whatever is cached.
pub check_and_report_lem :
    (rate : ℕ → ℕ → ℕ) (probe : ℕ → Option Sample) (base : Option FilePath) (d : Disk)
    (cache : IoCache)
    → map identity (check_and_report rate probe base d cache).0
      ≡ expected probe d (get_all_local_instances base d)
unfolding check_and_report
check_and_report_lem rate probe base d cache =
    identity-instances rate probe d (get_all_local_instances base d) cache
