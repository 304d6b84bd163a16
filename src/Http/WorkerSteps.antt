-- ===== src/Http/WorkerSteps.antt =====
-- internal/transport/http: what the handlers of workers do to the stores.
use taskpulse.Prelude.{ℕ, refl, ◌≡◌, true}
use taskpulse.Application.Codec.{Codec}
use taskpulse.Application.TaskDetail.{DetailCodec}
use taskpulse.System.{claim, heartbeat, complete, progress, fail, release, perform}
use taskpulse.Http.{Handler, Request}
use taskpulse.Http.Decoding.{Decoders, decode_json, parse_lease_duration, parse_optional_duration}
use taskpulse.Http.WorkerHandlers.{
  Claims, claim_worker_task, heartbeat_worker_task, complete_worker_task, report_worker_progress,
  fail_worker_task, release_worker_task,
}
use taskpulse.Http.Router.{Endpoint, Draws, handle}
use taskpulse.Http.Steps.{
  IsStep, IsRefused, operation_of, performed, respond-state, claim_response-state,
  with_duration-IsStep, worker_call-IsStep, own, is_worker,
}

module _ {Seconds : Type 0} (seconds : ℕ → Seconds) (codec : Codec) (details : DetailCodec)
    (decoders : Decoders) (h : Handler) where
  open decoders use {at_end, parse_duration, atoi}

  pub worker_handlers-IsStep :
      (endpoint : Endpoint) (r : Request) (d : Draws) (c : Claims)
      → is_worker endpoint ≡ true
      → let out = handle seconds codec details decoders h endpoint r d c in
        IsStep codec
          (IsRefused out.0)
          d.ctx
          (operation_of decoders endpoint r d)
          c.stores
          out.1.stores
  unfolding operation_of handle perform claim_worker_task heartbeat_worker_task complete_worker_task
      report_worker_progress fail_worker_task release_worker_task
  worker_handlers-IsStep Endpoint.claim r d c e =
      worker_call-IsStep codec d.ctx (λ u. u.stores) c h r
        (decode_json at_end decoders.claim r.body) _ _
        (λ q.
          with_duration-IsStep codec d.ctx (λ u. u.stores) c
            (parse_lease_duration parse_duration q.lease_duration) _ _
            (λ lease.
              performed
                (claim
                  (record {
                    worker_id = q.worker_id;
                    workflow = q.workflow;
                    lease_duration = lease;
                  })
                  d.now d.event_id)
                refl (claim_response-state Seconds h.claim_metrics q.workflow _ _)))
  worker_handlers-IsStep Endpoint.heartbeat r d c e =
      worker_call-IsStep codec d.ctx own c.stores h r (decode_json at_end decoders.heartbeat r.body)
        _ _
        (λ q.
          with_duration-IsStep codec d.ctx own c.stores
            (parse_lease_duration parse_duration q.lease_duration) _ _
            (λ lease.
              performed
                (heartbeat
                  (record {
                    task_id = r.task_id;
                    worker_id = q.worker_id;
                    lease_token = q.lease_token;
                    lease_duration = lease;
                  })
                  d.now)
                refl (respond-state _ _)))
  worker_handlers-IsStep Endpoint.progress r d c e =
      worker_call-IsStep codec d.ctx own c.stores h r (decode_json at_end decoders.progress r.body)
        _ _
        (λ q.
          performed
            (progress
              (record {
                task_id = r.task_id;
                worker_id = q.worker_id;
                lease_token = q.lease_token;
                progress = q.progress;
                message = q.message;
              })
              d.clock d.event_id)
            refl (respond-state _ _))
  worker_handlers-IsStep Endpoint.complete r d c e =
      worker_call-IsStep codec d.ctx own c.stores h r (decode_json at_end decoders.complete r.body)
        _ _
        (λ q.
          performed
            (complete
              (record {
                task_id = r.task_id;
                worker_id = q.worker_id;
                lease_token = q.lease_token;
                output = q.output;
                result_ref = q.result_ref;
              })
              d.clock d.event_id)
            refl (respond-state _ _))
  worker_handlers-IsStep Endpoint.fail r d c e =
      worker_call-IsStep codec d.ctx own c.stores h r (decode_json at_end decoders.fail r.body) _ _
        (λ q.
          with_duration-IsStep codec d.ctx own c.stores
            (parse_optional_duration parse_duration q.retry_after) _ _
            (λ retry_after.
              performed
                (fail d.int63n
                  (record {
                    task_id = r.task_id;
                    worker_id = q.worker_id;
                    lease_token = q.lease_token;
                    error_code = q.error_code;
                    error_message = q.error_message;
                    retryable = q.retryable;
                    retry_after = retry_after;
                  })
                  d.clock d.event_id d.retry_at d.retry_id)
                refl (respond-state _ _)))
  worker_handlers-IsStep Endpoint.release r d c e =
      worker_call-IsStep codec d.ctx own c.stores h r (decode_json at_end decoders.release r.body) _
        _
        (λ q.
          performed
            (release
              (record { task_id = r.task_id; worker_id = q.worker_id; lease_token = q.lease_token })
              d.clock d.event_id)
            refl (respond-state _ _))
  worker_handlers-IsStep _ r d c e = cc
