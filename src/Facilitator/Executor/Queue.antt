-- ===== src/Facilitator/Executor/Queue.antt =====
-- packages/facilitator/src/executor.ts: createExecutor. One promise chain runs the kicks one after
-- another; `in_flight` keeps a settlement from being in the chain twice.
pub mod Once
use hundi.Common.{List, [], ◌∷◌, ◌++◌, Text, any, ◌===◌, if◌then◌else◌}

pub data Kick : Type 0 where
  execute resume_settling : (settlement_id : Text) → Kick

abbrev pub id_of : Kick → Text
id_of (execute settlement_id) = settlement_id
id_of (resume_settling settlement_id) = settlement_id

-- The chain holds the kicks that have not finished; its first one runs.
pub record Executor : Type 0 where
  pub in_flight : List Text
  pub chain : List Kick

abbrev pub idle : Executor
idle = record { in_flight = []; chain = [] }

-- `inFlight.delete(settlementId)`
unfoldable pub delete : Text → List Text → List Text
delete settlement_id [] = []
delete settlement_id (id ∷ ids) =
    if id === settlement_id then delete settlement_id ids else id ∷ delete settlement_id ids

-- `kick`, through `execute` and `resumeSettling`.
unfoldable pub kick : Kick → Executor → Executor
kick k e =
    if any (λ id. id === id_of k) e.in_flight
    then e
    else record e { in_flight = id_of k ∷ e.in_flight; chain = e.chain ++ k ∷ [] }

-- The run at the head of the chain settles, with an outcome or an error: its `finally` clause.
unfoldable pub settled : Executor → Executor
settled e = after e.chain
  where
    after : List Kick → Executor
    after [] = e
    after (k ∷ rest) = record { in_flight = delete (id_of k) e.in_flight; chain = rest }
