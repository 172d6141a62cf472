-- ===== src/Master/Reported.antt =====
-- The worker's reports at the master: what the master shows of an instance after the worker has
-- deployed it or acted on it. The worker drops the error of a report that is lost.
use mathlib.Core.Option
use ops_system.Prelude.{
  ℕ, String, ◌≡◌, List, [], ◌∷◌, Option, some, true, false, if◌then◌else◌, nat_key, ◌==◌,
  string_key,
}
use ops_system.Float64.{float_zero}
use ops_system.Protocol.{InstanceInfo, InstanceStatusReport}
use ops_system.Instance.Laws.{reported, measured}
use ops_system.Master.{ServerHandler}
use ops_system.Master.InstanceApi.{worker_status_report}
use ops_system.Disk.{Disk}
use ops_system.Worker.{Machine}
use ops_system.Worker.Process.{StartProcessResult}
use ops_system.Worker.Monitor.{report_status}
use ops_system.Worker.Server.{Acted}

-- What becomes of a report: it is lost on its way, or SQLite refuses the master's statement, or it
-- is stored.
pub data Fate : Type 0 where
  lost refused stored : Fate

unfoldable pub receive_report : Fate → InstanceStatusReport → ServerHandler → ServerHandler
unfolding worker_status_report
receive_report lost r h = h
receive_report refused r h = (worker_status_report true (some r) h).0
receive_report stored r h = (worker_status_report false (some r) h).0

-- the worker's posts, one after the other; a report without a fate is lost
unfoldable pub deliver : List Fate → List InstanceStatusReport → ServerHandler → ServerHandler
unfolding receive_report
deliver fates [] h = h
deliver [] (r ∷ reports) h = h
deliver (fate ∷ fates) (r ∷ reports) h = deliver fates reports (receive_report fate r h)

abbrev pub status_report : String → String → ℕ → ℕ → InstanceStatusReport
status_report id status pid uptime = report_status id status pid uptime float_zero 0 0 0

-- the instance j as it is shown after the report r on `id`, if `o` was shown before
abbrev pub effect : Fate → InstanceStatusReport → Option InstanceInfo → Option InstanceInfo
effect lost r o = o
effect refused r o = Option.map (measured r) o
effect stored r o = Option.map (reported r) o

abbrev pub shown_after :
    Fate → InstanceStatusReport → String → Option InstanceInfo → Option InstanceInfo
shown_after fate r j o = if r.instance_id == j then effect fate r o else o

-- the status that a worker reports of an action that succeeded
abbrev pub done_as : String → String
done_as action =
    if action == "start" then "running" else if action == "stop" then "stopped" else "destroyed"

-- a result of the switch is a failure, or has the action's status
abbrev IsReported : String → Acted × Machine → Type 0
IsReported action r = (r.0.failed ≡ false) → r.0.status ≡ done_as action

-- a start that did not fail reports "running"
abbrev Runs : StartProcessResult × Machine → Type 0
Runs r = (r.0.failed ≡ false) → r.0.status ≡ "running"
