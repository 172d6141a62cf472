-- ===== src/Lib.antt =====
-- The ops system, as its Go code keeps it: a master, with nodes that send heartbeats, instances that
-- workers run and report, business systems that own modules and instances, alerts on both, the pushing
-- of all that to browsers, service packages, backups and a log of operations; and the worker, which
-- unpacks packages into directories, runs their processes and reports on them.
--
-- The master, and how its parts are joined:
--   * Protocol.antt: the records of pkg/protocol/types.go. Code.antt: the numbers of
--     pkg/code/code.go.
--   * Tsdb.antt: MemoryTSDB of internal/master/monitor/store.go, which HandleHeartbeat writes.
--     Tsdb/Pruning and Tsdb/Range hold its proofs.
--   * Node.antt: NodeManager of internal/master/manager/node_manager.go: the table node_infos, the
--     cache of live metrics and the time series. Proofs in Node/Heartbeat (one call), Node/Listing
--     (what GetAllNodes shows), Node/Invariant (histories) and Node/Planned (before a first heartbeat).
--   * Instance.antt: InstanceManager of internal/master/manager/instance_manager.go: the table
--     instance_infos and the cache of metrics. Proofs in Instance/Laws, Instance/Grouping,
--     Instance/Snapshot and Instance/Invariant.
--   * System.antt: SystemManager of internal/master/manager/system_manager.go, whose view joins
--     systems, modules and instances. Proofs in System/View and System/Cascade.
--   * Alert.antt: AlertManager of internal/master/manager/alert_manager.go; Alert/Evaluate is its
--     periodic evaluate over the snapshots of nodes and instances. Proofs in Alert/Debounce (one rule and target), Alert/Events and its children (states against the table of
--     events) and Alert/Deletion.
--   * Hub.antt: the hub of internal/master/ws/hub.go; Hub/Delivery is the machine of its two
--     goroutines. Proofs in Hub/Types and Hub/Freshness.
--   * Config.antt: ConfigManager of internal/master/manager/config_manager.go, the proxy to Nacos.
--     Proofs in Config/Token.
--   * Packages.antt: PackageManager of internal/master/manager/pkg_manager.go over the interface of
--     pkg/storage/provider.go, a record with the law of Save and Get; Packages/Local is the storage of
--     pkg/storage/local.go and Packages/Api internal/master/api/package_handler.go. Proofs in
--     Packages/Roundtrip.
--   * Backup.antt: BackupManager of internal/master/manager/backup_manager.go, and Backup/Api its
--     handlers in internal/master/api/backup_handler.go. Proofs in Backup/Restoring (what a restore may
--     change), Backup/Making, Backup/Returning and Backup/Outside.
--   * OpLogs.antt: the table of internal/master/manager/log_manager.go, and OpLogs/Api two handlers of
--     internal/master/api/log_handler.go. Proofs in OpLogs/Paging.
--   * Master.antt and Master/NodeApi, InstanceApi, Batch, SystemApi, AlertApi: the other handlers of
--     internal/master/api over all managers. Proofs in Master/Deploying, Master/Acting,
--     Master/Announced and Master/Reported, where the worker's reports meet the master.
--
-- The worker:
--   * Worker.antt: its state, a disk with the live processes and what was started. Worker/Scan (finding
--     instances), Worker/Install (caching, unpacking, deploying, adopting) and Worker/Process and
--     Worker/Stopping (start, stop, destroy) are instance_manager.go and external_manager.go of
--     internal/worker/executor; Worker/Monitor is monitor.go and Worker/Logs log_helper.go of that
--     directory; Worker/Server is internal/worker/handler/server.go.
--   * Proofs in Worker/Finding, Worker/Scanning and Worker/Registered (what is found and what is
--     monitored), Worker/Unpacking and Worker/Separation (what a deployment may change),
--     Worker/Lifecycle, Worker/Recorded and Worker/Restart (start, stop, destroy) and Worker/Reporting (a round of the
--     monitor).
--
-- Shared: Prelude, Assoc, Table and Float64 are tests on native numbers, Go maps, SQL tables and
-- float64. Words is what the code uses of Go's strings and strconv, with proofs in Words/Roundtrip,
-- Words/Affix and Words/Parts. Disk is a tree of files with the operations of os and filepath, with
-- proofs in Disk/Laws, Disk/Listing and Disk/Tree. Tests holds the theorems at concrete inputs.
--
-- How code and model correspond. A method is a function of the same name on the record of its
-- manager. A SQL table is the list of its rows, a statement a function on it, and a Boolean argument
-- called a fault says that SQLite refuses the statement, which then has no effect. A method that holds a
-- mutex is one step; where a method leaves the mutex (a worker's report) or two goroutines share the
-- hub, the steps are separate. The handlers of the master hold no mutex: each is a function of the
-- state that it starts from, and a history of requests is one in which they do not overlap. What comes
-- of overlapping requests, where a stale view can be sent last, is not modelled. An evaluation reads
-- rules and snapshots before it takes the mutex, and is one step with the reading. Clocks, new ids, the answers of workers and the results of JSON decoding are
-- arguments. Times and counters are natural numbers: Unix seconds after 1970, with a - b >= d written
-- b + d <= a. A float64 is its IEEE bit pattern with the comparisons of the standard. A Go map is
-- an association list, and iteration over it takes the list's order. The verb %.1f of fmt, which
-- alert messages use, is a parameter. On the disk, an absolute and clean path is the list of its names,
-- the last one first; a relative path is gone through name by name, with its "." and ".."; a file holds
-- a text, a service.json that decodes to a manifest, or a ZIP archive as the list of its entries. An
-- operation fails where the path is not as it needs it (no directory above, a directory in the way), and
-- not for lack of rights or space. What a started program does to the machine, until its pid file is written and later, and
-- which processes Kill ends are parameters. A reader that breaks off is modelled where the storage
-- writes its file; a report of the worker is stored, refused by SQLite, or lost. The order that
-- SQLite gives to log lines of one second is a parameter of each query.
--
-- Loops are structural recursion on the rows, rules, names, entries or connections. Only the printing
-- of a number runs on fuel: the number and one more, which its round trip shows to be enough.
--
-- Not modelled: the worker's agent, which reads the operating system; the MinIO storage, a client of
-- third-party code behind the same interface; the packaging tool; log streaming; start-up and routing;
-- Windows; the texts of replies and the details of log lines; the front end. The INSERT of fireAlert is
-- taken to succeed, since the code dereferences a nil result otherwise, and so are the UPDATE of
-- resolveAlert, the queries of GetFullView and the single statements of the transaction in
-- DeleteSystem. Two calls that use the same files at the same time are not interleaved.
pub mod Prelude
pub mod Assoc
pub mod Table
pub mod Float64
pub mod Protocol
pub mod Tsdb
pub mod Instance
pub mod Node
pub mod Alert
pub mod Hub
pub mod System
pub mod Code
pub mod Words
pub mod Disk
pub mod Worker
pub mod Packages
pub mod OpLogs
pub mod Backup
pub mod Config
pub mod Master
pub mod Tests
