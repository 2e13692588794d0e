-- ===== src/Outbox/Rows.antt =====
-- The consistency of a row of the outbox, and the writes to one row that keep it.
use multi_agent_system.Base.{
  ◌&&◌, false, ℕ, String, List, [], ◌∷◌, none, some, true, ◌≡◌, refl, sym, arith, Uuid, DateTime,
  ◌==◌, is_some, find_first, All, Bool-cases, inl, inr,
}
use multi_agent_system.Base.Keys.{IsDistinct}
use multi_agent_system.Persistence.{World, OutboxMessageRecord}
use multi_agent_system.Schemas.{DeliveryResult}
use multi_agent_system.Outbox.Repository.{text_is, lease, failed, published, is_claimable}
use multi_agent_system.Outbox.Claims.{messages}

-- What holds of the row of a message between two transactions: it is locked by a worker exactly
-- when it is locked at a time, and it is not locked once it is published or dead-lettered, nor
-- both of these.
pub record IsSound (r : OutboxMessageRecord) : Type 0 where
  pub paired : is_some r.locked_at ≡ is_some r.locked_by
  pub released : (is_some r.published_at && is_some r.locked_by) ≡ false
  pub buried : (is_some r.dead_lettered_at && is_some r.locked_by) ≡ false
  pub once : (is_some r.published_at && is_some r.dead_lettered_at) ≡ false

abbrev pub IsTable : World → Type 0
IsTable w = All IsSound (messages w) × IsDistinct (λ r. r.id) (messages w)

pub lease_id :
    (worker : String) (now : DateTime) (r : OutboxMessageRecord) → (lease worker now r).id ≡ r.id
unfolding lease
lease_id worker now r = refl

pub claimable_pending :
    (now stale_before : DateTime) (r : OutboxMessageRecord)
    → is_claimable now stale_before r ≡ true
    → (r.published_at ≡ none) × (r.dead_lettered_at ≡ none)
unfolding is_claimable
claimable_pending now stale_before r h = (ground arith, ground arith)

pub lease-IsSound :
    (worker : String) (now : DateTime) (r : OutboxMessageRecord)
    → r.published_at ≡ none
    → r.dead_lettered_at ≡ none
    → IsSound (lease worker now r)
unfolding lease
lease-IsSound worker now r h k = record {
  paired = refl;
  released = ground arith;
  buried = ground arith;
  once = ground arith;
}

pub published-IsSound :
    (d : DeliveryResult) (now : DateTime) (r : OutboxMessageRecord)
    → r.dead_lettered_at ≡ none
    → IsSound (published d now r)
unfolding published
published-IsSound d now r h = record {
  paired = refl;
  released = ground arith;
  buried = ground arith;
  once = ground arith;
}

pub failed-IsSound :
    (error_type : String) (retry_at now : DateTime) (max_attempts : ℕ) (r : OutboxMessageRecord)
    → r.published_at ≡ none
    → r.dead_lettered_at ≡ none
    → IsSound (failed error_type retry_at max_attempts now r)
unfolding failed
failed-IsSound error_type retry_at now max_attempts r h k = record {
  paired = ground arith;
  released = ground arith;
  buried = ground arith;
  once = ground arith;
}

-- The row that a search by key finds is sound, and has its own key.
pub find-IsSound :
    (i : Uuid) (rows : List OutboxMessageRecord) (r : OutboxMessageRecord)
    → All IsSound rows
    → find_first (λ s. s.id == i) rows ≡ some r
    → IsSound r × (r.id ≡ i)
find-IsSound i [] r h e = ground arith
find-IsSound i (s ∷ rows) r h e = elim (Bool-cases (s.id == i)) [
  | inl same ↦ let first : s ≡ r = ground arith in (rw (sym first) h.0, ground arith)
  | inr other ↦ find-IsSound i rows r h.1 (ground arith)
]

pub leased_open :
    (worker : String) (r : OutboxMessageRecord)
    → IsSound r
    → text_is r.locked_by worker ≡ true
    → (r.published_at ≡ none) × (r.dead_lettered_at ≡ none)
leased_open worker r sound e =
    let released = sound.released in let buried = sound.buried in (ground arith, ground arith)

pub published_id :
    (d : DeliveryResult) (now : DateTime) (r : OutboxMessageRecord) → (published d now r).id ≡ r.id
unfolding published
published_id d now r = refl

pub failed_id :
    (error_type : String) (retry_at now : DateTime) (max_attempts : ℕ) (r : OutboxMessageRecord)
    → (failed error_type retry_at max_attempts now r).id ≡ r.id
unfolding failed
failed_id error_type retry_at now max_attempts r = ground arith
