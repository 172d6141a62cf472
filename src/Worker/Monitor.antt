-- ===== src/Worker/Monitor.antt =====
-- internal/worker/executor/monitor.go: the round of reports on the local instances. `probe` is what
-- gopsutil finds at a process id of 32 bits, and `rate` the number that float64 arithmetic gives for
-- bytes over nanoseconds, in KiB for a second. A report is what goes out; its delivery is not seen.
use ops_system.Prelude.{
  ℕ, ◌-◌, ◌/◌, ◌%◌, String, List, [], ◌∷◌, Option, none, some, string_key, ◌==◌, if◌then◌else◌, ltb,
  leb,
}
use ops_system.Assoc.{Assoc, lookup, insert, erase}
use ops_system.Float64.{Float64, float_zero}
use ops_system.Protocol.{InstanceStatusReport}
use ops_system.Disk.{FilePath, Disk, Content, read_file}
use ops_system.Worker.{InstanceDirInfo}
use ops_system.Worker.Scan.{get_all_local_instances}
use ops_system.Worker.Process.{pid_of, or_zero}

pub record IoStatCache : Type 0 where
  pub bytes_read : ℕ
  pub bytes_write : ℕ
  pub last_check_time : ℕ  -- nanoseconds

abbrev pub IoCache : Type 0
IoCache = Assoc String IoStatCache

-- what is read of a process; none where it cannot be. create_time is in milliseconds.
pub record Sample : Type 0 where
  pub cpu_percent : Float64
  pub rss : Option ℕ
  pub create_time : ℕ
  pub io_counters : Option IoStatCache

pub record Speeds : Type 0 where
  pub read_speed : ℕ
  pub write_speed : ℕ

abbrev pub no_speeds : Speeds
no_speeds = record { read_speed = 0; write_speed = 0 }

unfoldable pub report_status : String → String → ℕ → ℕ → Float64 → ℕ → ℕ → ℕ → InstanceStatusReport
report_status id status pid uptime cpu mem io_read io_write = record {
  instance_id = id;
  status = status;
  pid = pid;
  uptime = uptime;
  cpu_usage = cpu;
  mem_usage = mem;
  io_read = io_read;
  io_write = io_write;
}

-- ReportStatus: nothing is sent before StartMonitor has stored the master's address
unfoldable pub report_change : String → String → String → ℕ → ℕ → List InstanceStatusReport
unfolding report_status
report_change master_url id status pid uptime =
    if master_url == "" then [] else report_status id status pid uptime float_zero 0 0 0 ∷ []

module _ (rate : ℕ → ℕ → ℕ) where
  -- one direction's speed; the guard keeps the difference from wrapping around
  abbrev pub speed_of : ℕ → ℕ → ℕ → ℕ
  speed_of before after duration = if leb before after then rate (after - before) duration else 0

  -- the speeds since the last look
  unfoldable pub io_speeds : Option IoStatCache → IoStatCache → Speeds
  io_speeds none seen = no_speeds
  io_speeds (some last) seen =
      if ltb last.last_check_time seen.last_check_time
      then record {
        read_speed =
            speed_of last.bytes_read seen.bytes_read (seen.last_check_time - last.last_check_time);
        write_speed =
            speed_of last.bytes_write seen.bytes_write
              (seen.last_check_time - last.last_check_time);
      }
      else no_speeds

  abbrev pub cached_speeds : String → Option IoStatCache → IoCache → Speeds × IoCache
  cached_speeds id none cache = (no_speeds, cache)
  cached_speeds id (some seen) cache = (io_speeds (lookup id cache) seen, insert id seen cache)

  abbrev pub running_report : String → ℕ → Sample → Speeds → InstanceStatusReport
  running_report id pid x v =
      report_status id "running" pid (x.create_time / 1000) x.cpu_percent
        (or_zero x.rss / 1024 / 1024) v.read_speed v.write_speed

  abbrev pub report_process :
      String → ℕ → Option Sample → IoCache → Option InstanceStatusReport × IoCache
  report_process id pid none cache = (some (report_status id "stopped" 0 0 float_zero 0 0 0), cache)
  report_process id pid (some x) cache =
      let (v, cache') = cached_speeds id x.io_counters cache in
      (some (running_report id pid x v), cache')

  -- the body of the loop, with the content of the pid file
  unfoldable pub check_instance :
      (ℕ → Option Sample)
      → String
      → Option Content
      → IoCache
      → Option InstanceStatusReport × IoCache
  unfolding io_speeds report_status
  check_instance probe id none cache = (none, erase id cache)
  check_instance probe id (some c) cache =
      if ltb 0 (pid_of (some c))
      then report_process id (pid_of (some c)) (probe (pid_of (some c) % 0x100000000)) cache
      else (none, cache)

  abbrev pub onto :
      Option InstanceStatusReport → List InstanceStatusReport → List InstanceStatusReport
  onto none reports = reports
  onto (some r) reports = r ∷ reports

  unfoldable pub check_instances :
      (ℕ → Option Sample)
      → Disk
      → List InstanceDirInfo
      → IoCache
      → List InstanceStatusReport × IoCache
  unfolding check_instance read_file
  check_instances probe d [] cache = ([], cache)
  check_instances probe d (i ∷ rest) cache =
      let (sent, cache') =
        check_instance probe i.instance_id (read_file ("pid" ∷ i.work_dir) d) cache in
      let (others, final) = check_instances probe d rest cache' in (onto sent others, final)

  unfoldable pub check_and_report :
      (ℕ → Option Sample) → Option FilePath → Disk → IoCache → List InstanceStatusReport × IoCache
  unfolding check_instances get_all_local_instances
  check_and_report probe base d cache =
      check_instances probe d (get_all_local_instances base d) cache
