-- ===== src/Alert/Debounce.antt =====
-- The state machine of one rule and target against the history of its observations.
use ops_system.Prelude.{
  ℕ, suc, ◌+◌, String, ◌≡◌, ◌≢◌, refl, List, [], ◌∷◌, Option, none, some, Bool, true, false, ◌||◌,
  arith, if◌then◌else◌, leb, Option-cases, inl, inr,
}
use ops_system.Assoc.{
  lookup, lookup-insert_self, lookup-erase_self, lookup-insert_ne, lookup-erase_ne,
}
use ops_system.Float64.{Float64}
use ops_system.Protocol.{AlertRule}
use ops_system.Alert.{
  AlertManager, AlertState, StateKey, key_eq, pending_at, handle_state, stay_triggered, recover,
  fire_alert, resolve_alert,
}

abbrev pub key_of : AlertRule → String → StateKey
key_of rule target_id = record { rule_id = rule.id; target_id = target_id }

-- What one observation makes of the state of its key; `id` is the next event's.
abbrev pub next_state : AlertRule → Bool → ℕ → ℕ → Option AlertState → Option AlertState
next_state rule true now id none = some (pending_at now)
next_state rule false now id none = none
next_state rule false now id (some st) = none
next_state rule true now id (some st) = some (
    if st.is_firing
    then st
    else if leb (st.first_trigger_time + rule.duration) now
    then record st { is_firing = true; event_id = id }
    else st)

module _ (fixed1 : Float64 → String) (rule : AlertRule) (target_id target_name : String) where
  pub lookup-stay_triggered :
      (val : Float64) (now clock : ℕ) (st : AlertState) (am : AlertManager)
      → lookup (key_of rule target_id) am.states ≡ some st
      → lookup
          (key_of rule target_id)
          (stay_triggered fixed1 rule target_id target_name val now clock st am).states
        ≡ next_state rule true now (suc am.event_seq) (some st)
  unfolding stay_triggered fire_alert
  lookup-stay_triggered val now clock st am e = ground (
    arith,
    lookup-insert_self (key_of rule target_id)
        (record st { is_firing = true; event_id = suc am.event_seq }) am.states,
  )

  lookup-recover :
      (clock : ℕ) (st : AlertState) (am : AlertManager)
      → lookup (key_of rule target_id) (recover fixed1 (key_of rule target_id) clock st am).states
        ≡ none
  unfolding recover resolve_alert
  lookup-recover clock st am = ground (arith, lookup-erase_self (key_of rule target_id) am.states)

  pub lookup-handle_state_self :
      (val : Float64) (triggered : Bool) (now clock : ℕ) (am : AlertManager)
      → lookup
          (key_of rule target_id)
          (handle_state fixed1 rule target_id target_name val triggered now clock am).states
        ≡ next_state rule triggered now
            (suc am.event_seq)
            (lookup (key_of rule target_id) am.states)
  unfolding handle_state
  lookup-handle_state_self val triggered now clock am =
      elim (Option-cases (lookup (key_of rule target_id) am.states)) [
        | inl e ↦
            ground (arith, e, lookup-insert_self (key_of rule target_id) (pending_at now) am.states)
        | inr (st, e) ↦
            ground
              (arith, e, lookup-stay_triggered val now clock st am e, lookup-recover clock st am)
      ]

  -- An observation of one rule and target leaves the state of every other pair as it was.
  pub lookup-handle_state_ne :
      (k : StateKey) (val : Float64) (triggered : Bool) (now clock : ℕ) (am : AlertManager)
      → key_of rule target_id ≢ k
      → lookup k (handle_state fixed1 rule target_id target_name val triggered now clock am).states
        ≡ lookup k am.states
  unfolding handle_state stay_triggered recover fire_alert resolve_alert
  lookup-handle_state_ne k val triggered now clock am h =
      elim (Option-cases (lookup (key_of rule target_id) am.states)) [
        | inl e ↦
            ground
              (arith, e, lookup-insert_ne (key_of rule target_id) k (pending_at now) am.states h)
        | inr (st, e) ↦ ground (
          arith,
          e,
          lookup-insert_ne (key_of rule target_id) k
              (record st { is_firing = true; event_id = suc am.event_seq }) am.states h,
          lookup-erase_ne (key_of rule target_id) k am.states h,
        )
      ]

-- One observation of the rule on the target.
pub record Observation : Type 0 where
  pub val : Float64
  pub triggered : Bool
  pub now : ℕ
  pub clock : ℕ

-- The times of the unbroken run of triggered observations up to now, the latest first.
abbrev pub streak : List Observation → List ℕ
streak [] = []
streak (o ∷ os) = let rest = streak os in if o.triggered then o.now ∷ rest else []

-- The first time of a run that ends with `t`.
abbrev pub onset : ℕ → List ℕ → ℕ
onset t [] = t
onset t (u ∷ us) = onset u us

-- Some observation of the run other than its first came `duration` or more after the onset.
abbrev pub ripe : ℕ → ℕ → List ℕ → Bool
ripe duration t [] = false
ripe duration t (u ∷ us) = leb (onset u us + duration) t || ripe duration u us

-- The state that a run calls for: none without a run, else pending or firing since its onset.
abbrev pub Fits : ℕ → List ℕ → Option AlertState → Type 0
Fits duration [] s = s ≡ none
Fits duration (t ∷ ts) s =
    (st : AlertState) × (s ≡ some st)
    × (st.first_trigger_time ≡ onset t ts)
    × (st.is_firing ≡ ripe duration t ts)

next_state-false :
    (rule : AlertRule) (now id : ℕ) (s : Option AlertState) → next_state rule false now id s ≡ none
next_state-false rule now id none = refl
next_state-false rule now id (some st) = refl

Fits-next_state :
    (rule : AlertRule) (triggered : Bool) (now id : ℕ) (ts : List ℕ) (s : Option AlertState)
    → Fits rule.duration ts s
    → Fits rule.duration (if triggered then now ∷ ts else []) (next_state rule triggered now id s)
Fits-next_state rule false now id ts s h = next_state-false rule now id s
Fits-next_state rule true now id [] s h = rw h (pending_at now, refl, refl, refl)
Fits-next_state rule true now id (t ∷ ts) s (st, e, first, firing) =
    rw e (_, refl, ground arith, ground arith)

module _ (fixed1 : Float64 → String) (rule : AlertRule) (target_id target_name : String) where
  -- the latest observation first
  unfoldable pub replay : List Observation → AlertManager → AlertManager
  replay [] am = am
  replay (o ∷ os) am =
      handle_state fixed1 rule target_id target_name o.val o.triggered o.now o.clock (replay os am)

  -- Debouncing: after any history of observations from no state, the pair has a state exactly if the
  -- latest observations triggered without a break; the state dates from the first of that run, and
  -- it is firing exactly if a later observation of the run came the rule's duration or more after
  -- the first.
  pub replay-Fits :
      (os : List Observation) (am : AlertManager)
      → lookup (key_of rule target_id) am.states ≡ none
      → Fits rule.duration (streak os) (lookup (key_of rule target_id) (replay os am).states)
  unfolding replay
  replay-Fits [] am h = h
  replay-Fits (o ∷ os) am h =
      rw
        (lookup-handle_state_self fixed1 rule target_id target_name o.val o.triggered o.now o.clock
          (replay os am))
        (Fits-next_state rule o.triggered o.now (suc (replay os am).event_seq) (streak os)
          (lookup (key_of rule target_id) (replay os am).states) (replay-Fits os am h))
