-- ===== src/Http/TaskSteps.antt =====
-- internal/transport/http: what the handlers of tasks do to the stores.
use taskpulse.Prelude.{ℕ, ◌≡◌, refl, ◌∙◌, false, Option, none, some, ℤ}
use taskpulse.Result.{Result, ok, err, Context}
use taskpulse.Task.{Task}
use taskpulse.Store.Both.{Stores}
use taskpulse.Application.Codec.{Codec}
use taskpulse.Application.TaskDetail.{DetailCodec, get_task_detail}
use taskpulse.Application.TaskLists.{list_tasks as service_list_tasks}
use taskpulse.System.{create, cancel, perform}
use taskpulse.Http.{Handler, Request}
use taskpulse.Http.Decoding.{Decoders, decode_json}
use taskpulse.Http.TaskHandlers as Tasks
use taskpulse.Http.TaskHandlers.{Handling, with_body, create_input, list_input, after_cancel}
use taskpulse.Http.WorkerHandlers.{Claims}
use taskpulse.Http.Router.{
  Endpoint, dashboard, dashboard_script, metrics_handler, create_task, list_tasks, get_task_stats,
  get_task, cancel_task, list_task_events, Draws, handle,
}
use taskpulse.Http.Readings.{
  list_task_events-IsReading, get_task_detail-IsReading, list_tasks-IsReading,
  get_task_stats-IsReading,
}
use taskpulse.Http.Steps.{
  IsStep, IsRefused, operation_of, unasked, performed, respond-state, with_body-IsStep, own,
  is_worker,
}

module _ {Seconds : Type 0} (seconds : ℕ → Seconds) (codec : Codec) (details : DetailCodec)
    (decoders : Decoders) (h : Handler) where
  open decoders use {at_end, parse_duration, atoi}

  after_cancel-state :
      (read : Handling Seconds) (out : Result Task × Stores)
      → ((s : Stores) → (read s).1 ≡ s)
      → (after_cancel read out).1 ≡ out.1
  after_cancel-state read (ok t, s) reads = reads s
  after_cancel-state read (err e, s) reads = refl

  get_task-state :
      (ctx : Context) (r : Request) (now : ℕ) (s : Stores)
      → (Tasks.get_task {Seconds = Seconds} details ctx r now s).1 ≡ s
  unfolding Tasks.get_task
  get_task-state ctx r now s =
      respond-state _ (get_task_detail details ctx r.task_id now s)
      ∙ get_task_detail-IsReading details ctx r.task_id now s

  list_tasks-state :
      (r : Request) (ctx : Context) (s : Stores)
      → (Tasks.list_tasks {Seconds = Seconds} codec decoders ctx r s).1 ≡ s
  unfolding Tasks.list_tasks
  list_tasks-state r ctx s = limited _
    where
      limited :
          (limit : Option ℤ)
          → (Tasks.list_limited {Seconds = Seconds} codec decoders ctx r limit s).1 ≡ s
      limited none = refl
      limited (some n) =
          respond-state _ (service_list_tasks codec ctx (list_input r n) s)
          ∙ list_tasks-IsReading codec ctx (list_input r n) s

  pub task_handlers-IsStep :
      (endpoint : Endpoint) (r : Request) (d : Draws) (c : Claims)
      → is_worker endpoint ≡ false
      → let out = handle seconds codec details decoders h endpoint r d c in
        IsStep codec
          (IsRefused out.0)
          d.ctx
          (operation_of decoders endpoint r d)
          c.stores
          out.1.stores
  unfolding operation_of handle perform Tasks.create_task Tasks.list_tasks Tasks.get_task_stats
      Tasks.cancel_task Tasks.list_task_events
  task_handlers-IsStep dashboard r d c e = unasked refl refl
  task_handlers-IsStep dashboard_script r d c e = unasked refl refl
  task_handlers-IsStep metrics_handler r d c e = unasked refl refl
  task_handlers-IsStep create_task r d c e =
      with_body-IsStep codec d.ctx own c.stores (decode_json at_end decoders.create r.body) _ _
        (λ q. performed (create (create_input r q) d.fresh) refl (respond-state _ _))
  task_handlers-IsStep list_tasks r d c e = unasked refl (list_tasks-state r d.ctx c.stores)
  task_handlers-IsStep get_task_stats r d c e =
      unasked refl
        (respond-state _ _ ∙ get_task_stats-IsReading seconds d.ctx d.now d.read_at _ c.stores)
  task_handlers-IsStep get_task r d c e = unasked refl (get_task-state d.ctx r d.now c.stores)
  task_handlers-IsStep cancel_task r d c e = performed (cancel r.task_id d.event_id d.now) refl (
      after_cancel-state (Tasks.get_task details d.later_ctx r d.read_at) _
        (get_task-state d.later_ctx r d.read_at))
  task_handlers-IsStep list_task_events r d c e =
      unasked refl (respond-state _ _ ∙ list_task_events-IsReading d.ctx r.task_id c.stores)
  task_handlers-IsStep _ r d c e = cc
