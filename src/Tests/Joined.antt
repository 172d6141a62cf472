-- ===== src/Tests/Joined.antt =====
-- The worker's reports at the master, at concrete inputs.
use ops_system.Protocol.{InstanceActionRequest}

abbrev start_web : InstanceActionRequest
start_web = record { instance_id = "i1"; action = "start" }
