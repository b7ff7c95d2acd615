-- ===== src/Facilitator/StateMachine.antt =====
-- packages/facilitator/src/state-machine.ts: the two transition tables and the compare-and-swap
-- that moves a row along them.
pub mod Moves
pub mod Exclusive
use hundi.Common.{
  ℕ, Bool, true, false, not, ◌&&◌, Option, none, some, List, [], ◌∷◌, any, find, Text, ◌===◌,
  if◌then◌else◌, invalid_transition, stale_transition, sqlite_constraint, Constraint,
}
use hundi.Facilitator.Db.{SettlementState, AttemptState, SettlementRow, AttemptRow, Db}
use hundi.Facilitator.Action.{Action, throw, modify}
use hundi.Facilitator.Table.{update}

unfoldable pub SettlementState-discrete : Discrete SettlementState
SettlementState-discrete = hlevel

unfoldable pub AttemptState-discrete : Discrete AttemptState
AttemptState-discrete = hlevel

abbrev pub is_state : SettlementState → SettlementState → Bool
is_state s t = elim (SettlementState-discrete s t) [ yes _ ↦ true | no _ ↦ false ]

abbrev pub is_attempt_state : AttemptState → AttemptState → Bool
is_attempt_state s t = elim (AttemptState-discrete s t) [ yes _ ↦ true | no _ ↦ false ]

-- `SETTLEMENT_TRANSITIONS`
unfoldable pub settlement_transitions : SettlementState → List SettlementState
settlement_transitions SettlementState.created =
    SettlementState.verifying ∷ SettlementState.abandoned ∷ []
settlement_transitions SettlementState.verifying =
    SettlementState.verified ∷ SettlementState.rejected ∷ SettlementState.abandoned ∷ []
settlement_transitions SettlementState.verified =
    SettlementState.pending_approval ∷ SettlementState.approved ∷ SettlementState.abandoned ∷ []
settlement_transitions SettlementState.pending_approval =
    SettlementState.approved ∷ SettlementState.rejected ∷ SettlementState.abandoned ∷ []
settlement_transitions SettlementState.approved =
    SettlementState.settling ∷ SettlementState.rejected ∷ SettlementState.abandoned ∷ []
settlement_transitions SettlementState.settling =
    SettlementState.captured ∷ SettlementState.failed ∷ SettlementState.abandoned ∷ []
settlement_transitions SettlementState.captured = []
settlement_transitions SettlementState.failed = []
settlement_transitions SettlementState.rejected = []
settlement_transitions SettlementState.abandoned = []

-- `ATTEMPT_TRANSITIONS`
unfoldable pub attempt_transitions : AttemptState → List AttemptState
attempt_transitions AttemptState.initiated =
    AttemptState.awaiting_confirmation ∷ AttemptState.captured ∷ AttemptState.failed
    ∷ AttemptState.superseded ∷ []
attempt_transitions AttemptState.awaiting_confirmation =
    AttemptState.captured ∷ AttemptState.failed ∷ AttemptState.superseded ∷ []
attempt_transitions AttemptState.captured = []
attempt_transitions AttemptState.failed = []
attempt_transitions AttemptState.superseded = []

unfoldable pub can_move : SettlementState → SettlementState → Bool
unfolding settlement_transitions SettlementState-discrete
can_move from to = any (is_state to) (settlement_transitions from)

unfoldable pub can_move_attempt : AttemptState → AttemptState → Bool
unfolding attempt_transitions AttemptState-discrete
can_move_attempt from to = any (is_attempt_state to) (attempt_transitions from)

-- The rows that the partial index `one_live_settlement_per_mandate` covers.
abbrev pub is_live : SettlementState → Bool
is_live SettlementState.captured = false
is_live SettlementState.failed = false
is_live SettlementState.rejected = false
is_live SettlementState.abandoned = false
is_live _ = true

-- The rows that `one_settlement_per_cart` covers.
abbrev pub holds_cart : SettlementState → Bool
holds_cart SettlementState.failed = false
holds_cart SettlementState.rejected = false
holds_cart SettlementState.abandoned = false
holds_cart _ = true

-- The rows that `one_active_attempt` covers.
abbrev pub is_active : AttemptState → Bool
is_active AttemptState.initiated = true
is_active AttemptState.awaiting_confirmation = true
is_active _ = false

-- The rows that `one_captured_attempt` covers.
abbrev pub is_captured : AttemptState → Bool
is_captured AttemptState.captured = true
is_captured _ = false

-- Another row of the index with the key of `row`.
abbrev pub blocks_mandate : SettlementRow → SettlementRow → Bool
blocks_mandate row s =
    not (s.id === row.id) && (is_live s.state && (s.mandate_id === row.mandate_id))

abbrev pub blocks_cart : SettlementRow → SettlementRow → Bool
blocks_cart row s =
    not (s.id === row.id)
    && (holds_cart s.state && (s.mandate_cart_hash_hex === row.mandate_cart_hash_hex))

-- The unique index that a settlement would violate, were it to stand among `rows`.
unfoldable pub settlement_violation : SettlementRow → List SettlementRow → Option Constraint
settlement_violation row rows =
    if holds_cart row.state && any (blocks_cart row) rows
    then some Constraint.one_settlement_per_cart
    else if is_live row.state && any (blocks_mandate row) rows
    then some Constraint.one_live_settlement_per_mandate
    else none

abbrev pub blocks_active : AttemptRow → AttemptRow → Bool
blocks_active row a =
    not (a.id === row.id) && (is_active a.state && (a.settlement_id === row.settlement_id))

abbrev pub blocks_captured : AttemptRow → AttemptRow → Bool
blocks_captured row a =
    not (a.id === row.id) && (is_captured a.state && (a.settlement_id === row.settlement_id))

unfoldable pub attempt_violation : AttemptRow → List AttemptRow → Option Constraint
attempt_violation row rows =
    if is_active row.state && any (blocks_active row) rows
    then some Constraint.one_active_attempt
    else if is_captured row.state && any (blocks_captured row) rows
    then some Constraint.one_captured_attempt
    else none

-- COALESCE(new, old)
abbrev pub coalesce {ℓ} : {A : Type ℓ} → Option A → Option A → Option A
coalesce none old = old
coalesce (some a) old = some a

abbrev pub in_state : Text → SettlementState → SettlementRow → Bool
in_state id from row = (row.id === id) && is_state row.state from

abbrev pub settlement_moved : ℕ → SettlementState → Option Text → SettlementRow → SettlementRow
settlement_moved clock to reject_reason row = record row {
  state = to;
  reject_reason = coalesce reject_reason row.reject_reason;
  entered_at = λ s. if is_state s to then some clock else row.entered_at s;
}

-- An UPDATE fails, and changes nothing, if it would violate an index.
abbrev guarded : Option Constraint → Db → Action (Unit {0})
guarded (some constraint) new = throw (sqlite_constraint constraint)
guarded none new = modify (λ _. new)

-- The UPDATE `WHERE id = ? AND state = ?`: no row is a StaleTransition.
abbrev write_settlement :
    Option SettlementRow
    → (SettlementRow → SettlementRow)
    → (SettlementRow → Bool)
    → Action (Unit {0})
write_settlement none f p = throw stale_transition
write_settlement (some row) f p = λ db.
    guarded (settlement_violation (f row) db.settlements)
      (record db { settlements = update p f db.settlements }) db

unfoldable pub transition_settlement :
    Text → (from to : SettlementState) → (reject_reason : Option Text) → Action (Unit {0})
transition_settlement id from to reject_reason =
    if not (can_move from to) then throw invalid_transition else λ db.
    write_settlement (find (in_state id from) db.settlements)
      (settlement_moved db.clock to reject_reason) (in_state id from) db

abbrev pub attempt_in_state : Text → AttemptState → AttemptRow → Bool
attempt_in_state id from row = (row.id === id) && is_attempt_state row.state from

abbrev pub attempt_moved : ℕ → AttemptState → AttemptRow → AttemptRow
attempt_moved clock to row = record row { state = to; updated_at = clock }

abbrev write_attempt :
    Option AttemptRow → (AttemptRow → AttemptRow) → (AttemptRow → Bool) → Action (Unit {0})
write_attempt none f p = throw stale_transition
write_attempt (some row) f p = λ db.
    guarded (attempt_violation (f row) db.attempts)
      (record db { attempts = update p f db.attempts }) db

unfoldable pub transition_attempt : Text → (from to : AttemptState) → Action (Unit {0})
transition_attempt id from to =
    if not (can_move_attempt from to) then throw invalid_transition else λ db.
    write_attempt (find (attempt_in_state id from) db.attempts) (attempt_moved db.clock to)
      (attempt_in_state id from) db
