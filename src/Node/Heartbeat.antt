-- ===== src/Node/Heartbeat.antt =====
-- What a heartbeat does to the table, and what the single queries find afterwards.
use ops_system.Prelude.{
  ℕ, String, ◌≡◌, refl, List, Option, none, some, Bool, false, arith, ◌==◌, string_key,
  if◌then◌else◌, eq_iff, ap, Option-cases, inl, inr,
}
use ops_system.Table.{find}
use ops_system.Table.Laws.{
  find-update, find-append_new, insert_of_none, find-delete, find-key, DistinctKeys,
  DistinctKeys-append, DistinctKeys-update_key,
}
use ops_system.Protocol.{RegisterRequest}
use ops_system.Node.{
  NodeRow, NodeManager, NodeAddress, no_rows, ip_exists, row_ip, planned_row, first_row,
  refresh_row, heartbeat_rows, handle_heartbeat, add_planned_node, delete_node, rename_node,
  reset_node_name, get_node,
}
use mathlib.Core.Option

-- The row that a heartbeat leaves: a new node takes its host name as its name, a known one keeps
-- the name that it has.
abbrev pub beaten : ℕ → RegisterRequest → String → Option NodeRow → NodeRow
beaten now req ip none = first_row now req ip
beaten now req ip (some r) = refresh_row now req r

pub find-heartbeat_rows :
    (now : ℕ) (req : RegisterRequest) (ip j : String) (rows : List NodeRow)
    → find row_ip j (heartbeat_rows false false now req ip rows)
      ≡ (if ip == j then some (beaten now req ip (find row_ip ip rows)) else find row_ip j rows)
unfolding heartbeat_rows
find-heartbeat_rows now req ip j rows = elim (Option-cases (find row_ip ip rows)) [
  | inl new ↦
      rw (new, insert_of_none row_ip (first_row now req ip) rows new)
        (find-append_new row_ip (first_row now req ip) j rows new)
  | inr (r, known) ↦
      rw known (
        ground (arith, find-update row_ip ip j (refresh_row now req) rows (λ r. refl), eq_iff ip j))
]

pub DistinctKeys-heartbeat_rows :
    (query_fault fault : Bool) (now : ℕ) (req : RegisterRequest) (ip : String) (rows : List NodeRow)
    → DistinctKeys row_ip rows
    → DistinctKeys row_ip (heartbeat_rows query_fault fault now req ip rows)
unfolding heartbeat_rows
DistinctKeys-heartbeat_rows query_fault fault now req ip rows d =
    elim (Option-cases (find row_ip ip rows)) [
      | inl e ↦ ground (
        arith,
        insert_of_none row_ip (first_row now req ip) rows e,
        DistinctKeys-append row_ip (first_row now req ip) rows e d,
        DistinctKeys-update_key row_ip ip (refresh_row now req) rows (λ r. refl) d,
      )
      | inr (r, e) ↦
          ground (arith, DistinctKeys-update_key row_ip ip (refresh_row now req) rows (λ r. refl) d)
    ]

-- A heartbeat from an address is an upsert: the address reads as online, with the port and host
-- name of the request, and with its old name where it was known, or else its host name; every other
-- address reads as before.
pub get_node-handle_heartbeat :
    (cpu_now mem_now now : ℕ) (req : RegisterRequest) (ip j : String) (nm : NodeManager)
    → get_node false j (handle_heartbeat false false cpu_now mem_now now req ip nm) ≡ (
        if ip == j
        then some (record {
          ip = ip;
          port = req.port;
          hostname = req.info.hostname;
          name = elim (get_node false ip nm) [ none ↦ req.info.hostname | some known ↦ known.name ];
          mac_addr = req.info.mac_addr;
          status = "online";
        })
        else get_node false j nm)
unfolding get_node handle_heartbeat
get_node-handle_heartbeat cpu_now mem_now now req ip j nm =
    elim (Option-cases (find row_ip ip nm.rows)) [
      | inl e ↦
          ground
            (arith, eq_iff ip j, find-heartbeat_rows now req ip j nm.rows, ap (beaten now req ip) e)
      | inr (r, e) ↦ ground (
        arith,
        eq_iff ip j,
        find-heartbeat_rows now req ip j nm.rows,
        find-key row_ip ip nm.rows r e,
        ap (beaten now req ip) e,
      )
    ]

-- AddPlannedNode on a free address adds a node that reads as planned, with port 0 and the given
-- name, and leaves every other address alone; on a taken address it reports so, and every address
-- reads as before.
pub get_node-add_planned_node :
    (ip name j : String) (nm : NodeManager)
    → ((add_planned_node false false ip name nm).1
        ≡ elim (get_node false ip nm) [ none ↦ none | some _ ↦ some ip_exists ])
      × (get_node false j (add_planned_node false false ip name nm).0
          ≡ elim (get_node false ip nm) [
            | none ↦
                if ip == j
                then some (record {
                  ip = ip;
                  port = 0;
                  hostname = "待接入";
                  name = name;
                  mac_addr = "";
                  status = "planned";
                })
                else get_node false j nm
            | some _ ↦ get_node false j nm
          ])
unfolding get_node add_planned_node
get_node-add_planned_node ip name j nm = elim (Option-cases (find row_ip ip nm.rows)) [
  | inl e ↦ ground (
    arith,
    eq_iff ip j,
    insert_of_none row_ip (planned_row ip name) nm.rows e,
    find-append_new row_ip (planned_row ip name) j nm.rows e,
  )
  | inr (r, e) ↦ ground arith
]

-- RenameNode gives the named address the name, ResetNodeName its host name, and neither touches
-- another address. An unknown address stays unknown, and RenameNode does not report it.
pub get_node-rename_node :
    (ip name j : String) (nm : NodeManager)
    → ((rename_node false ip name nm).1 ≡ none)
      × (get_node false j (rename_node false ip name nm).0 ≡ (
          if ip == j
          then Option.map (λ (n : NodeAddress). record n { name = name }) (get_node false j nm)
          else get_node false j nm))
      × (get_node false j (reset_node_name false ip nm).0 ≡ (
          if ip == j
          then Option.map
              (λ (n : NodeAddress). record n { name = n.hostname })
              (get_node false j nm)
          else get_node false j nm))
unfolding get_node rename_node reset_node_name
get_node-rename_node ip name j nm = (
  refl,
  ground (
    arith,
    find-update row_ip ip j (λ (r : NodeRow). record r { name = name }) nm.rows (λ r. refl),
  ),
  ground (
    arith,
    find-update row_ip ip j (λ (r : NodeRow). record r { name = r.hostname }) nm.rows (λ r. refl),
  ),
)

-- DeleteNode removes any node that the table has, online or not, and reports an unknown address;
-- every other address reads as before.
pub get_node-delete_node :
    (ip j : String) (nm : NodeManager)
    → (get_node false j (delete_node false false ip nm).0
        ≡ (if ip == j then none else get_node false j nm))
      × ((delete_node false false ip nm).1
          ≡ elim (get_node false ip nm) [ none ↦ some no_rows | some _ ↦ none ])
unfolding get_node delete_node
get_node-delete_node ip j nm = ground (arith, eq_iff ip j, find-delete row_ip ip j nm.rows)
