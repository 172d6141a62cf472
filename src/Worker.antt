-- ===== src/Worker.antt =====
-- The worker: internal/worker/executor, which keeps instances in directories and runs their
-- processes, and the handlers of internal/worker/handler/server.go. `base` is the executor's
-- directory, none before Init. Linux is the operating system.
pub mod Scan
pub mod Install
pub mod Process
pub mod Stopping
pub mod Monitor
pub mod Logs
pub mod Server
pub mod Finding
pub mod Scanning
pub mod Reporting
pub mod Registered
pub mod Unpacking
pub mod Separation
pub mod Lifecycle
pub mod Recorded
pub mod Restart
use ops_system.Prelude.{ℕ, String, List, Option}
use ops_system.Disk.{FilePath, Disk}

pub record InstanceDirInfo : Type 0 where
  pub instance_id : String
  pub work_dir : FilePath

-- a process that was started: the executable, its arguments, its directory and its variables
pub record Launch : Type 0 where
  pub executable : FilePath
  pub args : List String
  pub directory : FilePath
  pub env : List String

-- The files, the processes that are alive, and what was started, the latest first.
pub record Machine : Type 0 where
  pub disk : Disk
  pub alive : List ℕ
  pub launched : List Launch
