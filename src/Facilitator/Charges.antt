-- ===== src/Facilitator/Charges.antt =====
-- What `settlement_attempts` of packages/facilitator/src/db/schema.sql promises: no settlement is
-- charged twice, or has two attempts under way.
pub mod Rows
pub mod Moves
use hundi.Common.{ℕ, ◌≤◌, ◌≡◌, Bool, true, false, not, ◌&&◌, List, [], ◌∷◌, Text, any, count, ◌===◌}
use hundi.Facilitator.Db.{AttemptState, AttemptRow, Db}
use hundi.Facilitator.Distinct.{HasDistinct}
use hundi.Facilitator.StateMachine.{is_active, is_captured}

-- An attempt of the settlement in one of the states.
abbrev pub is_of : (kind : AttemptState → Bool) → (settlement_id : Text) → AttemptRow → Bool
is_of kind settlement_id a = kind a.state && (a.settlement_id === settlement_id)

-- Another attempt than `row`, of the same settlement.
abbrev pub blocks : (kind : AttemptState → Bool) → AttemptRow → AttemptRow → Bool
blocks kind row a =
    not (a.id === row.id) && (kind a.state && (a.settlement_id === row.settlement_id))

abbrev pub active_attempts : Text → Db → ℕ
active_attempts settlement_id db = count (is_of is_active settlement_id) db.attempts

abbrev pub captured_attempts : Text → Db → ℕ
captured_attempts settlement_id db = count (is_of is_captured settlement_id) db.attempts

-- The primary key of `settlement_attempts`.
abbrev pub HasDistinctIds : List AttemptRow → Type 0
HasDistinctIds rows = HasDistinct (λ a. a.id) rows

pub record IsChargedOnce (attempts : List AttemptRow) : Type 0 where
  pub distinct : HasDistinctIds attempts
  pub active : (settlement_id : Text) → count (is_of is_active settlement_id) attempts ≤ 1
  pub captured : (settlement_id : Text) → count (is_of is_captured settlement_id) attempts ≤ 1

unfoldable pub IsChargedOnceDb : Db → Type 0
IsChargedOnceDb db = IsChargedOnce db.attempts
