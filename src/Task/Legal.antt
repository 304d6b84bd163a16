-- ===== src/Task/Legal.antt =====
-- The steps that the methods of internal/store let a stored task take.
use taskpulse.Prelude.{◌≡◌, false}
use taskpulse.Task.{Task, terminal_statuses}
use taskpulse.Task.WellFormed.{IsWellFormed}

-- A live task may become `t`: its request, its id and its creation stay.
pub record IsLegal (p t : Task) : Type 0 where
  pub live : terminal_statuses p.status ≡ false
  pub same_id : t.id ≡ p.id
  pub same_version : t.version ≡ p.version
  pub same_key : t.idempotency_key ≡ p.idempotency_key
  pub same_workflow : t.workflow ≡ p.workflow
  pub same_input : t.input ≡ p.input
  pub same_budget : t.max_retries ≡ p.max_retries
  pub same_creation : t.created_at ≡ p.created_at
  pub sound : IsWellFormed p → IsWellFormed t
