-- ===== src/Outbox/Writes.antt =====
-- The branches of `mark_published` and `record_failure`.
use multi_agent_system.Base.{
  ℕ, ◌+◌, String, some, true, false, ◌≡◌, arith, inl, inr, Uuid, DateTime, ◌==◌, leb, str_eq,
  is_some, find_first, update_where, Option-cases, Bool-cases,
}
use multi_agent_system.Exec.{Error, ok, err, value_error, message_not_found, lease_lost}
use multi_agent_system.Persistence.{World, OutboxMessageRecord, GovernedActionRecord}
use multi_agent_system.Schemas.{DeliveryResult, approval_workflow_start}
use multi_agent_system.Outbox.Repository.{
  message_of, text_is, mark_published, publish_once, publish_leased, require_lease, record_failure,
  failed, write_published, reference_of, with_messages,
}

pub data Marked (i : Uuid) (worker : String) (d : DeliveryResult) (now : DateTime) (w : World)
    : Type 0 where
  refuses : (e : Error) → mark_published i worker d now w ≡ (err e, w) → Marked i worker d now w
  repeats :
      (r : OutboxMessageRecord)
      → message_of w i ≡ some r
      → is_some r.published_at ≡ true
      → mark_published i worker d now w ≡ (ok tt, w)
      → Marked i worker d now w
  publishes :
      (r : OutboxMessageRecord) (a : GovernedActionRecord) (reference : String)
      → message_of w i ≡ some r
      → is_some r.published_at ≡ false
      → text_is r.locked_by worker ≡ true
      → reference_of d ≡ some reference
      → mark_published i worker d now w ≡ (ok tt, write_published r.id a.id reference d now w)
      → Marked i worker d now w

module _ (i : Uuid) (worker : String) (d : DeliveryResult) (now : DateTime) (w : World) where
  marks_leased :
      (r : OutboxMessageRecord)
      → message_of w i ≡ some r
      → is_some r.published_at ≡ false
      → text_is r.locked_by worker ≡ true
      → Marked i worker d now w
  unfolding mark_published publish_once publish_leased require_lease
  marks_leased r h p l = elim (Bool-cases (str_eq r.event_type approval_workflow_start)) [
    | inr other ↦ refuses value_error (ground arith)
    | inl start ↦ elim (Option-cases (reference_of d)) [
      | inl no_reference ↦ refuses value_error (ground arith)
      | inr (reference, ref) ↦
          elim (Option-cases
            (find_first (λ a. a.id == r.payload_json.action_id) w.database.governed_actions)) [
              | inl no_action ↦ refuses value_error (ground arith)
              | inr (a, act) ↦ publishes r a reference h p l ref (ground arith)
            ]
    ]
  ]

  pub marks : Marked i worker d now w
  unfolding mark_published publish_once publish_leased require_lease
  marks = elim (Option-cases (message_of w i)) [
    | inl missing ↦ refuses message_not_found (ground arith)
    | inr (r, h) ↦ elim (Bool-cases (is_some r.published_at)) [
      | inl again ↦ repeats r h again (ground arith)
      | inr pending ↦ elim (Bool-cases (text_is r.locked_by worker)) [
        | inr lost ↦ refuses lease_lost (ground arith)
        | inl leased ↦ marks_leased r h pending leased
      ]
    ]
  ]

abbrev pub retried : Uuid → String → DateTime → ℕ → DateTime → World → World
unfolding with_messages
retried i error_type retry_at max_attempts now =
    with_messages (update_where (λ s. s.id == i) (failed error_type retry_at max_attempts now))

pub data Failed (i : Uuid) (worker error_type : String) (retry_at : DateTime) (max_attempts : ℕ)
    (now : DateTime) (w : World) : Type 0 where
  refuses :
      (e : Error)
      → record_failure i worker error_type retry_at max_attempts now w ≡ (err e, w)
      → Failed i worker error_type retry_at max_attempts now w
  records :
      (r : OutboxMessageRecord)
      → message_of w i ≡ some r
      → text_is r.locked_by worker ≡ true
      → record_failure i worker error_type retry_at max_attempts now w ≡ (
        ok (leb max_attempts (r.attempt_count + 1)),
        retried r.id error_type retry_at max_attempts now w,
      )
      → Failed i worker error_type retry_at max_attempts now w

pub fails :
    (i : Uuid) (worker error_type : String) (retry_at : DateTime) (max_attempts : ℕ)
    (now : DateTime) (w : World)
    → Failed i worker error_type retry_at max_attempts now w
unfolding record_failure require_lease
fails i worker error_type retry_at max_attempts now w = elim (Option-cases (message_of w i)) [
  | inl missing ↦ refuses message_not_found (ground arith)
  | inr (r, h) ↦ elim (Bool-cases (text_is r.locked_by worker)) [
    | inr lost ↦ refuses lease_lost (ground arith)
    | inl leased ↦ records r h leased (ground arith)
  ]
]
