-- ===== src/Http/Authorization.antt =====
-- internal/transport/http/handler.go: who may call the protocol of workers.
use taskpulse.Prelude.{
  ℕ, String, ◌≡◌, ◌⊎◌, refl, ap, inl, inr, Bool, true, false, not, Option, none, some, arith,
  text_eq_iff, text_append, is_empty, strip_prefix-append, strip_prefix-eq-some, Bool-cases,
  if◌then◌else◌,
}
use taskpulse.Application.Codec.{Codec}
use taskpulse.Result.{Context}
use taskpulse.Store.Both.{Stores}
use taskpulse.Application.WorkerTasks.Operations.{Clock, RetryScheduling}
use taskpulse.Application.TaskDetail.{DetailCodec}
use taskpulse.Http.{Handler, Request, authorize_worker, is_token, bearer_prefix, write_error}
use taskpulse.Http.Decoding.{Decoders}
use taskpulse.Http.WorkerHandlers.{
  Claims, claim_worker_task, heartbeat_worker_task, complete_worker_task, report_worker_progress,
  fail_worker_task, release_worker_task,
}
use taskpulse.Http.Router.{Endpoint, Draws, handled, handle, with_stores, with_claims}
use taskpulse.Http.Steps.{is_worker}

-- The request carries the token behind the prefix.
abbrev pub IsBearer : Handler → Request → Type 0
IsBearer h r = r.header "Authorization" ≡ text_append bearer_prefix h.worker_auth_token

token_cases : (h : Handler) (o : Option String) → is_token h o ≡ true → o ≡ some h.worker_auth_token
token_cases h none e = cc
token_cases h (some t) e = ground (arith, text_eq_iff t h.worker_auth_token)

pub authorize_worker-IsBearer :
    (h : Handler) (r : Request)
    → is_empty h.worker_auth_token ≡ false
    → authorize_worker h r ≡ true
    → IsBearer h r
unfolding authorize_worker
authorize_worker-IsBearer h r given allowed =
    strip_prefix-eq-some bearer_prefix (r.header "Authorization") h.worker_auth_token
      (token_cases h _ (rw given at allowed))

pub IsBearer-authorize_worker :
    (h : Handler) (r : Request) → IsBearer h r → authorize_worker h r ≡ true
unfolding authorize_worker
IsBearer-authorize_worker h r bearer = elim (Bool-cases (is_empty h.worker_auth_token)) [
  | inl absent ↦ rw absent
  | inr given ↦
      rw (given, bearer, strip_prefix-append bearer_prefix h.worker_auth_token)
        ((text_eq_iff h.worker_auth_token h.worker_auth_token).1 refl)
]

-- The handler without a token: every worker may call.
abbrev pub unlocked : Handler → Handler
unlocked h = record h { worker_auth_token = "" }

unlocked-authorize : (h : Handler) (r : Request) → authorize_worker (unlocked h) r ≡ true
unfolding authorize_worker
unlocked-authorize h r = refl

-- The two checks at the head of a handler.
checks_refuse :
    {A : Type 0} (b c : Bool) (x y z : A)
    → b ≡ true
    → c ≡ false
    → (if not b then x else if not c then y else z) ≡ y
checks_refuse b c x y z p q = ground arith

checks_pass :
    {A : Type 0} (b c : Bool) (x y z : A)
    → c ≡ true
    → (if not b then x else if not c then y else z)
      ≡ (if not b then x else if not true then y else z)
checks_pass b c x y z p = ground arith

-- A handler of workers under an authorised call, with its token and without.
module _ {Seconds : Type 0} (codec : Codec) (decoders : Decoders) (ctx : Context) (h : Handler)
    (r : Request) (p : authorize_worker h r ≡ true) where
  claim_worker_task-unlocked :
      (now : ℕ) (id : String) (c : Claims)
      → claim_worker_task {Seconds = Seconds} codec decoders ctx h r now id c
        ≡ claim_worker_task codec decoders ctx (unlocked h) r now id c
  unfolding claim_worker_task
  claim_worker_task-unlocked now id c =
      checks_pass h.worker_task_service (authorize_worker h r) _ _ _ p

  heartbeat_worker_task-unlocked :
      (now : ℕ) (s : Stores)
      → heartbeat_worker_task {Seconds = Seconds} codec decoders ctx h r now s
        ≡ heartbeat_worker_task codec decoders ctx (unlocked h) r now s
  unfolding heartbeat_worker_task
  heartbeat_worker_task-unlocked now s =
      checks_pass h.worker_task_service (authorize_worker h r) _ _ _ p

  report_worker_progress-unlocked :
      (clock : Clock) (id : String) (s : Stores)
      → report_worker_progress {Seconds = Seconds} codec decoders ctx h r clock id s
        ≡ report_worker_progress codec decoders ctx (unlocked h) r clock id s
  unfolding report_worker_progress
  report_worker_progress-unlocked clock id s =
      checks_pass h.worker_task_service (authorize_worker h r) _ _ _ p

  complete_worker_task-unlocked :
      (clock : Clock) (id : String) (s : Stores)
      → complete_worker_task {Seconds = Seconds} codec decoders ctx h r clock id s
        ≡ complete_worker_task codec decoders ctx (unlocked h) r clock id s
  unfolding complete_worker_task
  complete_worker_task-unlocked clock id s =
      checks_pass h.worker_task_service (authorize_worker h r) _ _ _ p

  fail_worker_task-unlocked :
      (scheduler : Option RetryScheduling) (clock : Clock) (id : String) (s : Stores)
      → fail_worker_task {Seconds = Seconds} codec decoders ctx h r scheduler clock id s
        ≡ fail_worker_task codec decoders ctx (unlocked h) r scheduler clock id s
  unfolding fail_worker_task
  fail_worker_task-unlocked scheduler clock id s =
      checks_pass h.worker_task_service (authorize_worker h r) _ _ _ p

  release_worker_task-unlocked :
      (clock : Clock) (id : String) (s : Stores)
      → release_worker_task {Seconds = Seconds} codec decoders ctx h r clock id s
        ≡ release_worker_task codec decoders ctx (unlocked h) r clock id s
  unfolding release_worker_task
  release_worker_task-unlocked clock id s =
      checks_pass h.worker_task_service (authorize_worker h r) _ _ _ p

module _ {Seconds : Type 0} (seconds : ℕ → Seconds) (codec : Codec) (details : DetailCodec)
    (decoders : Decoders) (h : Handler) where
  refused :
      (e : Endpoint) (r : Request) (d : Draws) (c : Claims)
      → is_worker e ≡ true
      → h.worker_task_service ≡ true
      → authorize_worker h r ≡ false
      → handle seconds codec details decoders h e r d c
        ≡ (handled (write_error 401 "worker authentication is required"), c)
  unfolding handle claim_worker_task heartbeat_worker_task complete_worker_task
      report_worker_progress fail_worker_task release_worker_task
  refused Endpoint.claim r d c worker there denied =
      ap with_claims (checks_refuse _ (authorize_worker h r) _ _ _ there denied)
  refused Endpoint.heartbeat r d c worker there denied =
      ap (with_stores c) (checks_refuse _ (authorize_worker h r) _ _ _ there denied)
  refused Endpoint.progress r d c worker there denied =
      ap (with_stores c) (checks_refuse _ (authorize_worker h r) _ _ _ there denied)
  refused Endpoint.complete r d c worker there denied =
      ap (with_stores c) (checks_refuse _ (authorize_worker h r) _ _ _ there denied)
  refused Endpoint.fail r d c worker there denied =
      ap (with_stores c) (checks_refuse _ (authorize_worker h r) _ _ _ there denied)
  refused Endpoint.release r d c worker there denied =
      ap (with_stores c) (checks_refuse _ (authorize_worker h r) _ _ _ there denied)
  refused _ r d c worker there denied = cc

  allowed :
      (e : Endpoint) (r : Request) (d : Draws) (c : Claims)
      → authorize_worker h r ≡ true
      → handle seconds codec details decoders h e r d c
        ≡ handle seconds codec details decoders (unlocked h) e r d c
  unfolding handle
  allowed Endpoint.claim r d c p =
      ap with_claims (claim_worker_task-unlocked codec decoders d.ctx h r p d.now d.event_id c)
  allowed Endpoint.heartbeat r d c p =
      ap (with_stores c) (heartbeat_worker_task-unlocked codec decoders d.ctx h r p d.now c.stores)
  allowed Endpoint.progress r d c p =
      ap (with_stores c)
        (report_worker_progress-unlocked codec decoders d.ctx h r p d.clock d.event_id c.stores)
  allowed Endpoint.complete r d c p =
      ap (with_stores c)
        (complete_worker_task-unlocked codec decoders d.ctx h r p d.clock d.event_id c.stores)
  allowed Endpoint.fail r d c p =
      ap (with_stores c)
        (fail_worker_task-unlocked codec decoders d.ctx h r p _ d.clock d.event_id c.stores)
  allowed Endpoint.release r d c p =
      ap (with_stores c)
        (release_worker_task-unlocked codec decoders d.ctx h r p d.clock d.event_id c.stores)
  allowed _ r d c p = refl

  -- Where a token is configured and the protocol of workers is there, a call of it either carries
  -- the header "Bearer " and the token, and is handled as if no token were configured; or does not,
  -- and is answered with status 401, while the stores and the metrics stay as they are.
  pub worker_access :
      (e : Endpoint) (r : Request) (d : Draws) (c : Claims)
      → is_worker e ≡ true
      → h.worker_task_service ≡ true
      → is_empty h.worker_auth_token ≡ false
      → (IsBearer h r
          × (handle seconds codec details decoders h e r d c
              ≡ handle seconds codec details decoders (unlocked h) e r d c))
        ⊎ ((¬ IsBearer h r)
            × (handle seconds codec details decoders h e r d c
                ≡ (handled (write_error 401 "worker authentication is required"), c)))
  worker_access e r d c worker there given = elim (Bool-cases (authorize_worker h r)) [
    | inl p ↦ inl (authorize_worker-IsBearer h r given p, allowed e r d c p)
    | inr p ↦ inr (
      λ bearer. absurd (ground (arith, IsBearer-authorize_worker h r bearer)),
      refused e r d c worker there p,
    )
  ]
