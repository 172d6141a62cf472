-- ===== src/Node/Invariant.antt =====
-- Histories of NodeManager calls, and what every reachable table satisfies.
use ops_system.Prelude.{
  ℕ, String, ◌≡◌, refl, subst, sym, List, [], ◌∷◌, ◌++◌, none, some, Bool, true, false, arith,
  string_key, All, All-append, Option-cases, inl, inr, ◌⊎◌,
}
use ops_system.Table.{find, update, delete}
use ops_system.Table.Laws.{
  DistinctKeys, DistinctKeys-append, DistinctKeys-update_key, DistinctKeys-delete, insert_of_none,
  insert_of_some, All-update, All-delete,
}
use ops_system.Protocol.{NodeInfo, RegisterRequest}
use ops_system.Node.{
  NodeRow, NodeManager, row_ip, first_row, refresh_row, planned_row, heartbeat_rows,
  handle_heartbeat, add_planned_node, delete_node, rename_node, reset_node_name, scan_node,
  load_nodes, get_all_nodes, judge, present,
}

pub data Call : Type 0 where
  heartbeat : ℕ → ℕ → ℕ → RegisterRequest → String → Call
  plan : String → String → Call
  drop_node : String → Call
  rename : String → String → Call
  reset : String → Call

-- A call, with the faults that its query and its statement meet.
unfoldable pub call : Bool → Bool → Call → NodeManager → NodeManager
call q f (heartbeat cpu_now mem_now now req ip) nm =
    handle_heartbeat q f cpu_now mem_now now req ip nm
call q f (plan ip name) nm = (add_planned_node q f ip name nm).0
call q f (drop_node ip) nm = (delete_node q f ip nm).0
call q f (rename ip name) nm = (rename_node f ip name nm).0
call q f (reset ip) nm = (reset_node_name f ip nm).0

unfoldable pub run : List (Bool × Bool × Call) → NodeManager → NodeManager
run [] nm = nm
run ((q, f, c) ∷ cs) nm = run cs (call q f c nm)

-- A row is online with a heartbeat time and an operating system, so that Scan reads it, or it is
-- planned with neither, so that Scan passes it over.
abbrev pub IsSettled : NodeRow → Type 0
IsSettled r =
    ((r.status ≡ "online")
      × ((beat : ℕ) × (os : String) × (r.last_heartbeat ≡ some beat) × (r.os ≡ some os)))
    ⊎ ((r.status ≡ "planned") × (r.last_heartbeat ≡ none) × (r.os ≡ none))

pub record IsValid (rows : List NodeRow) : Type 0 where
  pub distinct : DistinctKeys row_ip rows
  pub settled : All IsSettled rows

IsSettled-refresh_row :
    (now : ℕ) (req : RegisterRequest) (r : NodeRow) → IsSettled (refresh_row now req r)
IsSettled-refresh_row now req r = inl (refl, (_, _, refl, refl))

IsSettled-first_row :
    (now : ℕ) (req : RegisterRequest) (ip : String) → IsSettled (first_row now req ip)
IsSettled-first_row now req ip = inl (refl, (_, _, refl, refl))

IsSettled-planned_row : (ip name : String) → IsSettled (planned_row ip name)
IsSettled-planned_row ip name = inr (refl, refl, refl)

-- a name does not matter
IsSettled-rename :
    (r : NodeRow) (name : String) → IsSettled r → IsSettled (record r { name = name })
IsSettled-rename r name s = s

update-IsValid :
    (ip : String) (f : NodeRow → NodeRow) (rows : List NodeRow)
    → ((r : NodeRow) → row_ip (f r) ≡ row_ip r)
    → ((r : NodeRow) → IsSettled r → IsSettled (f r))
    → IsValid rows
    → IsValid (update row_ip ip f rows)
update-IsValid ip f rows k h v = record {
  distinct = DistinctKeys-update_key row_ip ip f rows k v.distinct;
  settled = All-update row_ip IsSettled ip f rows h v.settled;
}

append-IsValid :
    (r : NodeRow) (rows : List NodeRow)
    → find row_ip (row_ip r) rows ≡ none
    → IsSettled r
    → IsValid rows
    → IsValid (rows ++ r ∷ [])
append-IsValid r rows h s v = record {
  distinct = DistinctKeys-append row_ip r rows h v.distinct;
  settled = All-append IsSettled rows (r ∷ []) v.settled (s, tt);
}

heartbeat_rows-IsValid :
    (q f : Bool) (now : ℕ) (req : RegisterRequest) (ip : String) (rows : List NodeRow)
    → IsValid rows
    → IsValid (heartbeat_rows q f now req ip rows)
unfolding heartbeat_rows
heartbeat_rows-IsValid q true now req ip rows v = ground arith
heartbeat_rows-IsValid true false now req ip rows v =
    update-IsValid ip (refresh_row now req) rows (λ r. refl)
      (λ r _. IsSettled-refresh_row now req r) v
heartbeat_rows-IsValid false false now req ip rows v = elim (Option-cases (find row_ip ip rows)) [
  | inl e ↦
      rw (e, insert_of_none row_ip (first_row now req ip) rows e)
        (append-IsValid (first_row now req ip) rows e (IsSettled-first_row now req ip) v)
  | inr (r, e) ↦ rw e (
      update-IsValid ip (refresh_row now req) rows (λ r. refl)
        (λ r _. IsSettled-refresh_row now req r) v)
]

pub add_planned_node-IsValid :
    (q f : Bool) (ip name : String) (nm : NodeManager)
    → IsValid nm.rows
    → IsValid (add_planned_node q f ip name nm).0.rows
unfolding add_planned_node
add_planned_node-IsValid q true ip name nm v = ground arith
add_planned_node-IsValid q false ip name nm v = elim (Option-cases (find row_ip ip nm.rows)) [
  | inl e ↦ ground (
    arith,
    e,
    insert_of_none row_ip (planned_row ip name) nm.rows e,
    append-IsValid (planned_row ip name) nm.rows e (IsSettled-planned_row ip name) v,
  )
  | inr (r, e) ↦ ground (arith, insert_of_some row_ip (planned_row ip name) r nm.rows e)
]

call-IsValid :
    (q f : Bool) (c : Call) (nm : NodeManager) → IsValid nm.rows → IsValid (call q f c nm).rows
unfolding call handle_heartbeat delete_node rename_node reset_node_name
call-IsValid q f (heartbeat cpu_now mem_now now req ip) nm v =
    heartbeat_rows-IsValid q f now req ip nm.rows v
call-IsValid q f (plan ip name) nm v = add_planned_node-IsValid q f ip name nm v
call-IsValid q f (drop_node ip) nm v =
    let deleted : IsValid (delete row_ip ip nm.rows) = record {
      distinct = DistinctKeys-delete row_ip ip nm.rows v.distinct;
      settled = All-delete row_ip IsSettled ip nm.rows v.settled;
    } in
    ground arith
call-IsValid q true (rename ip name) nm v = v
call-IsValid q false (rename ip name) nm v =
    update-IsValid ip _ nm.rows (λ r. refl) (λ r. IsSettled-rename r name) v
call-IsValid q true (reset ip) nm v = v
call-IsValid q false (reset ip) nm v =
    update-IsValid ip _ nm.rows (λ r. refl) (λ r. IsSettled-rename r r.hostname) v

-- Every history of heartbeats, planned, deleted and renamed nodes, with any faults, keeps the
-- addresses distinct, and each row either online with a heartbeat time and an operating system, or
-- planned with neither.
pub run-IsValid :
    (cs : List (Bool × Bool × Call)) (nm : NodeManager) → IsValid nm.rows → IsValid (run cs nm).rows
unfolding run
run-IsValid [] nm v = v
run-IsValid ((q, f, c) ∷ cs) nm v = run-IsValid cs (call q f c nm) (call-IsValid q f c nm v)

present-status :
    (now : ℕ) (nm : NodeManager) (r : NodeRow) (n : NodeInfo)
    → IsSettled r
    → scan_node r ≡ some n
    → ((present now nm n).status ≡ "online") ⊎ ((present now nm n).status ≡ "offline")
unfolding judge scan_node
present-status now nm r n s h = ground arith

load_nodes-status :
    (now : ℕ) (nm : NodeManager) (rows : List NodeRow)
    → All IsSettled rows
    → All
        (λ (n : NodeInfo). (n.status ≡ "online") ⊎ (n.status ≡ "offline"))
        (load_nodes now nm rows)
unfolding load_nodes
load_nodes-status now nm [] a = tt
load_nodes-status now nm (r ∷ rows) a = elim (Option-cases (scan_node r)) [
  | inl e ↦ rw (e, load_nodes) (load_nodes-status now nm rows a.1)
  | inr (n, e) ↦
      rw (e, load_nodes) (present-status now nm r n a.0 e, load_nodes-status now nm rows a.1)
]

-- After any history from an empty table every node that the list shows is "online" or "offline":
-- the status "planned" is stored and never shown.
pub listed-status :
    (cs : List (Bool × Bool × Call)) (nm : NodeManager) (fault : Bool) (now : ℕ)
    → nm.rows ≡ []
    → All
        (λ (n : NodeInfo). (n.status ≡ "online") ⊎ (n.status ≡ "offline"))
        (get_all_nodes fault now (run cs nm))
unfolding get_all_nodes
listed-status cs nm true now h = tt
listed-status cs nm false now h =
    load_nodes-status now (run cs nm) (run cs nm).rows
      (run-IsValid cs nm (subst IsValid (sym h) (record { distinct = tt; settled = tt }))).settled
