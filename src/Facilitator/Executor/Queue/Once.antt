-- ===== src/Facilitator/Executor/Queue/Once.antt =====
-- The promise chain of packages/facilitator/src/executor.ts: a settlement is in it at most once.
use hundi.Common.{
  ap, ◌∙◌, ◌≡◌, refl, sym, arith, ℕ, zero, suc, length, inl, inr, Bool, true, false, not, ◌&&◌,
  ◌++◌, List, [], ◌∷◌, Text, any, ◌===◌, Bool-cases, if◌then◌else◌,
}
use hundi.Facilitator.Distinct.{HasDistinct, append-HasDistinct}
use hundi.Facilitator.Wallet.Rows.{same_text}
use hundi.Facilitator.Executor.Queue.{Kick, id_of, Executor, idle, delete, kick, settled}

-- What happens to the executor.
pub data Event : Type 0 where
  kicked : Kick → Event
  head_settled : Event

unfoldable pub after_events : List Event → Executor → Executor
after_events [] e = e
after_events (kicked k ∷ events) e = after_events events (kick k e)
after_events (head_settled ∷ events) e = after_events events (settled e)

-- The head settles, so many times.
unfoldable pub settle_times : ℕ → Executor → Executor
settle_times zero e = e
settle_times (suc n) e = settle_times n (settled e)

abbrev pub is_queued : Text → List Kick → Bool
is_queued id chain = any (λ k. id_of k === id) chain

abbrev pub is_in_flight : Text → Executor → Bool
is_in_flight id e = any (λ i. i === id) e.in_flight

-- `in_flight` names the kicks of the chain, and no two of them are for one settlement.
pub record IsConsistent (e : Executor) : Type 0 where
  pub distinct : HasDistinct id_of e.chain
  pub tracked : (id : Text) → is_in_flight id e ≡ is_queued id e.chain

any-delete :
    (gone id : Text) (ids : List Text)
    → any (λ i. i === id) (delete gone ids) ≡ not (gone === id) && any (λ i. i === id) ids
unfolding delete
any-delete gone id [] = ground arith
any-delete gone id (i ∷ ids) = ground (arith, any-delete gone id ids)

is_queued-append :
    (id : Text) (chain : List Kick) (k : Kick)
    → is_queued id (chain ++ k ∷ []) ≡ (if id_of k === id then true else is_queued id chain)
is_queued-append id [] k = ground arith
is_queued-append id (c ∷ chain) k = ground (arith, is_queued-append id chain k)

kick-IsConsistent : (k : Kick) (e : Executor) → IsConsistent e → IsConsistent (kick k e)
unfolding kick
kick-IsConsistent k e h = elim (Bool-cases (is_in_flight (id_of k) e)) [
  | inl busy ↦ rw busy h
  | inr free ↦ rw free (record {
    distinct = append-HasDistinct id_of e.chain k h.distinct (sym (h.tracked (id_of k)) ∙ free);
    tracked = λ id. ground (arith, h.tracked id, is_queued-append id e.chain k);
  })
]

gone-queued :
    (k : Kick) (chain : List Kick) (id : Text)
    → is_queued (id_of k) chain ≡ false
    → not (id_of k === id) && is_queued id (k ∷ chain) ≡ is_queued id chain
gone-queued k chain id out = elim (Bool-cases (id_of k === id)) [
  | inr other ↦ ground arith
  | inl same ↦
      let ids : id_of k ≡ id = same_text (id_of k) id same in
      let out' : is_queued id chain ≡ false = rw (sym ids) out in ground arith
]

settled-IsConsistent : (e : Executor) → IsConsistent e → IsConsistent (settled e)
unfolding settled
settled-IsConsistent e h = go e.chain e.in_flight h
  where
    go :
        (chain : List Kick) (in_flight : List Text)
        → IsConsistent (record { in_flight = in_flight; chain = chain })
        → IsConsistent (settled (record { in_flight = in_flight; chain = chain }))
    go [] in_flight h = h
    go (k ∷ chain) in_flight h = record {
      distinct = h.distinct.1;
      tracked = λ id.
          any-delete (id_of k) id in_flight
          ∙ (ap (λ b. not (id_of k === id) && b) (h.tracked id)
              ∙ gone-queued k chain id h.distinct.0);
    }

after_events-IsConsistent :
    (events : List Event) (e : Executor) → IsConsistent e → IsConsistent (after_events events e)
unfolding after_events
after_events-IsConsistent [] e h = h
after_events-IsConsistent (kicked k ∷ events) e h =
    after_events-IsConsistent events (kick k e) (kick-IsConsistent k e h)
after_events-IsConsistent (head_settled ∷ events) e h =
    after_events-IsConsistent events (settled e) (settled-IsConsistent e h)

idle-IsConsistent : IsConsistent idle
idle-IsConsistent = record { distinct = tt; tracked = λ id. refl }

-- With an empty chain nothing is in flight.
empty-idle : (e : Executor) → IsConsistent e → e.chain ≡ [] → e ≡ idle
empty-idle e h none_left = go e.in_flight e.chain h none_left
  where
    go :
        (in_flight : List Text) (chain : List Kick)
        → IsConsistent (record { in_flight = in_flight; chain = chain })
        → chain ≡ []
        → (record { in_flight = in_flight; chain = chain }) ≡ idle
    go [] [] h e' = refl
    go (i ∷ ids) [] h e' = absurd (ground (arith, h.tracked i))
    go in_flight (k ∷ chain) h e' = absurd (cc e')

settled-length : (n : ℕ) (e : Executor) → length e.chain ≡ suc n → length (settled e).chain ≡ n
unfolding settled
settled-length n e size = ground arith

settle_times-idle :
    (n : ℕ) (e : Executor) → IsConsistent e → length e.chain ≡ n → settle_times n e ≡ idle
unfolding settle_times
settle_times-idle zero e h size = empty-idle e h (ground arith)
settle_times-idle (suc n) e h size =
    settle_times-idle n (settled e) (settled-IsConsistent e h) (settled-length n e size)

-- Whatever was kicked and has settled, in any order: no two kicks in the chain are for one
-- settlement, a kick is ignored exactly if its settlement is in the chain, and once the kicks of
-- the chain have settled, nothing is in flight.
pub kick-once :
    (events : List Event) (k : Kick)
    → HasDistinct id_of (after_events events idle).chain
      × (kick k (after_events events idle) ≡ (
          if is_queued (id_of k) (after_events events idle).chain
          then after_events events idle
          else record {
            in_flight = id_of k ∷ (after_events events idle).in_flight;
            chain = (after_events events idle).chain ++ k ∷ [];
          }))
      × (settle_times (length (after_events events idle).chain) (after_events events idle) ≡ idle)
unfolding kick
kick-once events k =
    let h = after_events-IsConsistent events idle idle-IsConsistent in
    (h.distinct, rw (h.tracked (id_of k)) refl, settle_times-idle _ _ h refl)
