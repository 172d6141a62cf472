-- ===== src/Node/Listing.antt =====
-- GetAllNodes: which rows it shows, and how it judges them offline.
use ops_system.Prelude.{
  ℕ, ◌+◌, String, ◌≡◌, refl, ◌∙◌, ap, List, [], ◌∷◌, ◌++◌, Option, none, some, false, arith,
  string_key, if◌then◌else◌, eq_iff, ltb, ==_refl, Option-cases, inl, inr,
}
use ops_system.Assoc
use ops_system.Table.{find}
use ops_system.Table.Laws.{DistinctKeys, insert_of_none, find-key}
use ops_system.Float64.{float_zero}
use ops_system.Protocol.{NodeInfo, RegisterRequest}
use ops_system.Node.{
  NodeRow, NodeManager, row_ip, scan_node, judge, present, load_nodes, get_all_nodes, get_node,
  NodeAddress, handle_heartbeat, add_planned_node, planned_row, request_metrics, add_node_metrics,
}
use ops_system.Node.Heartbeat.{beaten, find-heartbeat_rows, DistinctKeys-heartbeat_rows}
use mathlib.Core.Option

abbrev pub node_ip : NodeInfo → String
node_ip n = n.ip

scan_node-ip : (r : NodeRow) (n : NodeInfo) → scan_node r ≡ some n → n.ip ≡ r.ip
unfolding scan_node
scan_node-ip r n h = ground arith

present-ip : (now : ℕ) (nm : NodeManager) (n : NodeInfo) → (present now nm n).ip ≡ n.ip
unfolding judge
present-ip now nm n = ground arith

find-load_nodes-none :
    (now : ℕ) (nm : NodeManager) (j : String) (rows : List NodeRow)
    → find row_ip j rows ≡ none
    → find node_ip j (load_nodes now nm rows) ≡ none
unfolding load_nodes find
find-load_nodes-none now nm j [] h = refl
find-load_nodes-none now nm j (r ∷ rows) h = elim (Option-cases (scan_node r)) [
  | inl e ↦ ground (arith, e, find-load_nodes-none now nm j rows)
  | inr (n, e) ↦ ground (
    arith,
    e,
    eq_iff r.ip j,
    scan_node-ip r n e,
    present-ip now nm n,
    find-load_nodes-none now nm j rows,
  )
]

-- The entry of the list for an address, if it has one.
abbrev pub shown : ℕ → NodeManager → Option NodeRow → Option NodeInfo
shown now nm none = none
shown now nm (some r) = Option.map (present now nm) (scan_node r)

pub find-load_nodes :
    (now : ℕ) (nm : NodeManager) (j : String) (rows : List NodeRow)
    → DistinctKeys row_ip rows
    → find node_ip j (load_nodes now nm rows) ≡ shown now nm (find row_ip j rows)
unfolding load_nodes find
find-load_nodes now nm j [] d = refl
find-load_nodes now nm j (r ∷ rows) d = elim (Option-cases (scan_node r)) [
  | inl e ↦ ground (
    arith,
    e,
    eq_iff r.ip j,
    find-load_nodes-none now nm r.ip rows d.0,
    find-load_nodes now nm j rows d.1,
  )
  | inr (n, e) ↦ ground (
    arith,
    e,
    eq_iff r.ip j,
    scan_node-ip r n e,
    present-ip now nm n,
    find-load_nodes now nm j rows d.1,
  )
]

pub add_planned_node_free :
    (ip name : String) (nm : NodeManager)
    → find row_ip ip nm.rows ≡ none
    → add_planned_node false false ip name nm
      ≡ (record nm { rows = nm.rows ++ planned_row ip name ∷ [] }, none)
unfolding add_planned_node
add_planned_node_free ip name nm absent =
    ground (arith, insert_of_none row_ip (planned_row ip name) nm.rows absent)

-- what Scan makes of the row that a heartbeat left
abbrev scanned : ℕ → RegisterRequest → String → String → NodeInfo
scanned beat req ip name = record {
  ip = ip;
  port = req.port;
  hostname = req.info.hostname;
  name = name;
  mac_addr = req.info.mac_addr;
  os = req.info.os;
  arch = req.info.arch;
  cpu_cores = req.info.cpu_cores;
  mem_total = req.info.mem_total;
  disk_total = req.info.disk_total;
  status = "online";
  last_heartbeat = beat;
  cpu_usage = float_zero;
  mem_usage = float_zero;
  net_in_speed = float_zero;
  net_out_speed = float_zero;
}

-- the name that a heartbeat leaves
abbrev pub kept_name : RegisterRequest → Option NodeAddress → String
kept_name req none = req.info.hostname
kept_name req (some known) = known.name

find-after_heartbeat :
    (cpu_now mem_now beat now : ℕ) (req : RegisterRequest) (ip : String) (nm : NodeManager)
    → DistinctKeys row_ip nm.rows
    → find node_ip ip
        (get_all_nodes false now (handle_heartbeat false false cpu_now mem_now beat req ip nm))
      ≡ some (
          judge now nm.offline_threshold (
            add_node_metrics
              (some (request_metrics req))
              (scanned beat req ip (kept_name req (get_node false ip nm)))))
unfolding get_node get_all_nodes handle_heartbeat scan_node
find-after_heartbeat cpu_now mem_now beat now req ip nm d =
    let nm' : NodeManager = handle_heartbeat false false cpu_now mem_now beat req ip nm in
    let beat_row : find row_ip ip nm'.rows ≡ some (beaten beat req ip (find row_ip ip nm.rows)) =
      rw (find-heartbeat_rows beat req ip ip nm.rows, ==_refl ip) in
    find-load_nodes now nm' ip nm'.rows
      (DistinctKeys-heartbeat_rows false false beat req ip nm.rows d)
    ∙ ap (shown now nm') beat_row
    ∙ elim (Option-cases (find row_ip ip nm.rows)) [
      | inl e ↦ rw (e, Assoc.lookup-insert_self ip (request_metrics req) nm.metrics_cache)
      | inr (r, e) ↦ rw (
        e,
        find-key row_ip ip nm.rows r e,
        Assoc.lookup-insert_self ip (request_metrics req) nm.metrics_cache,
      )
    ]

-- What GetAllNodes shows for an address whose last heartbeat came at `beat`: the name that the node
-- had before, or the host name if it was unknown; "offline" with CPU and memory zeroed if `now` is
-- more than the threshold after `beat`, and otherwise "online" with the CPU and memory of the
-- request. The network speeds are those of the request in both cases.
pub heartbeat_shown :
    (cpu_now mem_now beat now : ℕ) (req : RegisterRequest) (ip : String) (nm : NodeManager)
    → DistinctKeys row_ip nm.rows
    → let stale = ltb (beat + nm.offline_threshold) now in
      let nm' = handle_heartbeat false false cpu_now mem_now beat req ip nm in
      (n : NodeInfo) × (find node_ip ip (get_all_nodes false now nm') ≡ some n)
      × (n.status ≡ (if stale then "offline" else "online"))
      × (n.cpu_usage ≡ (if stale then float_zero else req.status.cpu_usage))
      × (n.mem_usage ≡ (if stale then float_zero else req.status.mem_usage))
      × (n.net_in_speed ≡ req.status.net_in_speed)
      × (n.net_out_speed ≡ req.status.net_out_speed)
      × (n.name ≡ kept_name req (get_node false ip nm))
unfolding judge
heartbeat_shown cpu_now mem_now beat now req ip nm d = (
  judge now nm.offline_threshold (
      add_node_metrics (some (request_metrics req))
        (scanned beat req ip (kept_name req (get_node false ip nm)))),
  find-after_heartbeat cpu_now mem_now beat now req ip nm d,
  ground arith,
  ground arith,
  ground arith,
  ground arith,
  ground arith,
  ground arith,
)
