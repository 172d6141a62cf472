-- ===== src/Node/Planned.antt =====
-- A planned node in GetAllNodes, through any calls before its first heartbeat.
use ops_system.Prelude.{
  ℕ, String, ◌≡◌, refl, ◌∙◌, ap, List, [], ◌∷◌, ◌++◌, Option, none, some, Bool, true, false, arith,
  string_key, ◌==◌, Option-cases, inl, inr, All, subst, sym, Bool-cases,
}
use ops_system.Table.{find, update, delete}
use ops_system.Table.Laws.{
  find-update, find-append_new, find-delete, insert_of_none, insert_of_some,
}
use ops_system.Protocol.{RegisterRequest}
use ops_system.Node.{
  NodeRow, NodeManager, NodeError, row_ip, planned_row, first_row, refresh_row, heartbeat_rows,
  handle_heartbeat, add_planned_node, delete_node, rename_node, reset_node_name, scan_node,
  get_all_nodes, get_node,
}
use ops_system.Node.Listing.{node_ip, shown, find-load_nodes, add_planned_node_free}
use ops_system.Node.Invariant.{
  Call, heartbeat, plan, drop_node, rename, reset, call, run, IsValid, run-IsValid,
  add_planned_node-IsValid,
}
use mathlib.Core.Option

-- any call but a heartbeat from the address
abbrev pub IsSilent : String → Bool × Bool × Call → Type 0
IsSilent ip (q, f, heartbeat cpu_now mem_now now req from) = (from == ip) ≡ false
IsSilent ip other = Unit

-- no row of the address, or one that was planned and has no heartbeat
abbrev IsUnseen : Option NodeRow → Type 0
IsUnseen none = Unit
IsUnseen (some r) = (r.last_heartbeat ≡ none) × (r.os ≡ none)

update-IsUnseen :
    (ip j : String) (f : NodeRow → NodeRow) (rows : List NodeRow)
    → ((r : NodeRow) → row_ip (f r) ≡ row_ip r)
    → ((j == ip) ≡ true → (r : NodeRow) → IsUnseen (some r) → IsUnseen (some (f r)))
    → IsUnseen (find row_ip ip rows)
    → IsUnseen (find row_ip ip (update row_ip j f rows))
update-IsUnseen ip j f rows k h u =
    subst IsUnseen (sym (find-update row_ip j ip f rows k)) (elim (Bool-cases (j == ip)) [
      | inl same ↦ rw same (mapped (h same) (find row_ip ip rows) u)
      | inr other ↦ rw other u
    ])
  where
    mapped :
        ((r : NodeRow) → IsUnseen (some r) → IsUnseen (some (f r)))
        → (o : Option NodeRow) → IsUnseen o
        → IsUnseen (Option.map f o)
    mapped g none v = tt
    mapped g (some r) v = g r v

insert-IsUnseen :
    (ip : String) (r : NodeRow) (rows : List NodeRow)
    → find row_ip r.ip rows ≡ none
    → ((r.ip == ip) ≡ true → IsUnseen (some r))
    → IsUnseen (find row_ip ip rows)
    → IsUnseen (find row_ip ip (rows ++ r ∷ []))
insert-IsUnseen ip r rows e h u =
    subst IsUnseen (sym (find-append_new row_ip r ip rows e))
      (elim (Bool-cases (r.ip == ip)) [ inl same ↦ rw same (h same) | inr other ↦ rw other u ])

beat-IsUnseen :
    (q f : Bool) (now : ℕ) (req : RegisterRequest) (from ip : String) (rows : List NodeRow)
    → (from == ip) ≡ false
    → IsUnseen (find row_ip ip rows)
    → IsUnseen (find row_ip ip (heartbeat_rows q f now req from rows))
unfolding heartbeat_rows
beat-IsUnseen q true now req from ip rows k u = ground arith
beat-IsUnseen true false now req from ip rows k u =
    update-IsUnseen ip from (refresh_row now req) rows (λ r. refl) (λ s. absurd (ground arith)) u
beat-IsUnseen false false now req from ip rows k u = elim (Option-cases (find row_ip from rows)) [
  | inl e ↦
      rw (e, insert_of_none row_ip (first_row now req from) rows e)
        (insert-IsUnseen ip (first_row now req from) rows e (λ s. absurd (ground arith)) u)
  | inr (r, e) ↦ rw e (
      update-IsUnseen ip from (refresh_row now req) rows (λ r. refl) (λ s. absurd (ground arith)) u)
]

plan-IsUnseen :
    (q f : Bool) (j name ip : String) (nm : NodeManager)
    → IsUnseen (find row_ip ip nm.rows)
    → IsUnseen (find row_ip ip (add_planned_node q f j name nm).0.rows)
unfolding add_planned_node
plan-IsUnseen q true j name ip nm u = ground arith
plan-IsUnseen q false j name ip nm u = elim (Option-cases (find row_ip j nm.rows)) [
  | inl e ↦ ground (
    arith,
    e,
    insert_of_none row_ip (planned_row j name) nm.rows e,
    insert-IsUnseen ip (planned_row j name) nm.rows e (λ s. (refl, refl)) u,
  )
  | inr (r, e) ↦ ground (arith, e, insert_of_some row_ip (planned_row j name) r nm.rows e)
]

delete-IsUnseen :
    (j ip : String) (rows : List NodeRow)
    → IsUnseen (find row_ip ip rows)
    → IsUnseen (find row_ip ip (delete row_ip j rows))
delete-IsUnseen j ip rows u =
    subst IsUnseen (sym (find-delete row_ip j ip rows))
      (elim (Bool-cases (j == ip)) [ inl same ↦ rw same tt | inr other ↦ rw other u ])

call-IsUnseen :
    (q f : Bool) (c : Call) (ip : String) (nm : NodeManager)
    → IsSilent ip (q, f, c)
    → IsUnseen (find row_ip ip nm.rows)
    → IsUnseen (find row_ip ip (call q f c nm).rows)
unfolding call handle_heartbeat delete_node rename_node reset_node_name
call-IsUnseen q f (heartbeat cpu_now mem_now now req from) ip nm k u =
    beat-IsUnseen q f now req from ip nm.rows k u
call-IsUnseen q f (plan j name) ip nm k u = plan-IsUnseen q f j name ip nm u
call-IsUnseen q f (drop_node j) ip nm k u =
    let deleted : IsUnseen (find row_ip ip (delete row_ip j nm.rows)) =
      delete-IsUnseen j ip nm.rows u in
    ground arith
call-IsUnseen q true (rename j name) ip nm k u = u
call-IsUnseen q false (rename j name) ip nm k u =
    update-IsUnseen ip j _ nm.rows (λ r. refl) (λ s r v. v) u
call-IsUnseen q true (reset j) ip nm k u = u
call-IsUnseen q false (reset j) ip nm k u =
    update-IsUnseen ip j _ nm.rows (λ r. refl) (λ s r v. v) u

run-IsUnseen :
    (cs : List (Bool × Bool × Call)) (ip : String) (nm : NodeManager)
    → All (IsSilent ip) cs
    → IsUnseen (find row_ip ip nm.rows)
    → IsUnseen (find row_ip ip (run cs nm).rows)
unfolding run
run-IsUnseen [] ip nm k u = u
run-IsUnseen ((q, f, c) ∷ cs) ip nm k u =
    run-IsUnseen cs ip (call q f c nm) k.1 (call-IsUnseen q f c ip nm k.0 u)

shown-IsUnseen :
    (now : ℕ) (nm : NodeManager) (o : Option NodeRow) → IsUnseen o → shown now nm o ≡ none
unfolding scan_node
shown-IsUnseen now nm none u = refl
shown-IsUnseen now nm (some r) u = rw u.1 refl

-- AddPlannedNode succeeds at a free address of a valid table, and no listing shows the address
-- until its first heartbeat: not after any heartbeats of other addresses and any planned, deleted and
-- renamed nodes, this one too, whatever statements SQLite refuses. (The row's os and last_heartbeat are
-- NULL, and GetAllNodes passes over a row that Scan refuses.)
pub planned_hidden :
    (ip name : String) (cs : List (Bool × Bool × Call)) (now : ℕ) (nm : NodeManager)
    → IsValid nm.rows
    → get_node false ip nm ≡ none
    → All (IsSilent ip) cs
    → ((add_planned_node false false ip name nm).1 ≡ none)
      × (find node_ip ip
            (get_all_nodes false now (run cs (add_planned_node false false ip name nm).0))
          ≡ none)
planned_hidden ip name cs now nm v free silent = (
  ap (λ (r : NodeManager × Option NodeError). r.1) (add_planned_node_free ip name nm absent),
  listed
      ∙ shown-IsUnseen now later (find row_ip ip later.rows) (
          run-IsUnseen cs ip (add_planned_node false false ip name nm).0 silent
            (plan-IsUnseen false false ip name ip nm (subst IsUnseen (sym absent) tt))),
)
  where
    absent : find row_ip ip nm.rows ≡ none
    absent = unfold get_node in ground arith

    later : NodeManager
    later = run cs (add_planned_node false false ip name nm).0

    listed :
        find node_ip ip (get_all_nodes false now later)
        ≡ shown now later (find row_ip ip later.rows)
    listed =
        unfold get_all_nodes in
        find-load_nodes now later ip later.rows
          (run-IsValid cs (add_planned_node false false ip name nm).0
            (add_planned_node-IsValid false false ip name nm v)).distinct
