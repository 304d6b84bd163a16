-- ===== src/Http/Readings.antt =====
-- The operations of internal/application that the handlers call to read: they leave the stores alone.
use taskpulse.Prelude.{
  ℕ, Bool, true, false, not, String, ◌≡◌, refl, ap, ◌∙◌, inl, inr, none, some, arith, Bool-cases,
  is_empty, trim_space, text_eq,
}
use taskpulse.Result.{
  Error, Result, ok, err, Context, Exec, continue, ◌>>=◌, Result-cases, check, fail_if, lift,
}
use taskpulse.Store.Tasks.{MemoryTaskStore, get}
use taskpulse.Store.Events.{MemoryEventStore, list_by_task_id}
use taskpulse.Store.Both.{on_tasks, on_events}
use taskpulse.Store.Query.{ListTasksOptions, validate, list_tasks as stored_tasks}
use taskpulse.Store.Stats.{TaskStatsFilter, validate_filter, snapshot_filtered_task_stats}
use taskpulse.Application.Codec.{Codec}
use taskpulse.Application.TaskService.{get_task, list_task_events}
use taskpulse.Application.TaskLists.{ListTasksInput, list_tasks, query_of}
use taskpulse.Application.TaskStats.{TaskStatsInput, get_task_stats}
use taskpulse.Application.TaskDetail.{DetailCodec, get_task_detail}

-- A method that only reads.
abbrev pub IsReading : {S A : Type 0} → Exec S A → Type 0
IsReading {S} m = (s : S) → (m s).1 ≡ s

bind-IsReading :
    {S A B : Type 0} (m : Exec S A) (f : A → Exec S B)
    → IsReading m
    → ((a : A) → IsReading (f a))
    → IsReading (m >>= f)
bind-IsReading m f h k s = step (m s) (h s)
  where
    step : (out : Result _ × _) → out.1 ≡ s → (continue out.0 f out.1).1 ≡ s
    step (ok a, s') e = k a s' ∙ e
    step (err x, s') e = e

check-IsReading : {S : Type 0} (ctx : Context) → IsReading (check {S = S} ctx)
check-IsReading none s = refl
check-IsReading (some e) s = refl

fail_if-IsReading : {S : Type 0} (b : Bool) (e : Error) → IsReading (fail_if {S = S} b e)
fail_if-IsReading true e s = refl
fail_if-IsReading false e s = refl

get-IsReading : (ctx : Context) (id : String) → IsReading (get ctx id)
unfolding get
get-IsReading ctx id s = ground arith

list_by_task_id-IsReading : (ctx : Context) (id : String) → IsReading (list_by_task_id ctx id)
unfolding list_by_task_id
list_by_task_id-IsReading ctx id s = ground arith

stored_tasks-IsReading : (ctx : Context) (o : ListTasksOptions) → IsReading (stored_tasks ctx o)
unfolding stored_tasks
stored_tasks-IsReading ctx o s =
    bind-IsReading (check ctx) _ (check-IsReading ctx)
      (λ x. bind-IsReading (lift (validate o)) _ (λ s'. refl) (λ y s'. refl)) s

snapshot-IsReading :
    (ctx : Context) (clock now : ℕ) (f : TaskStatsFilter)
    → IsReading (snapshot_filtered_task_stats ctx clock now f)
unfolding snapshot_filtered_task_stats
snapshot-IsReading ctx clock now f s =
    bind-IsReading (check ctx) _ (check-IsReading ctx)
      (λ x. bind-IsReading (lift (validate_filter f)) _ (λ s'. refl) (λ y s'. refl)) s

on_tasks-IsReading :
    {A : Type 0} (m : Exec MemoryTaskStore A) → IsReading m → IsReading (on_tasks m)
on_tasks-IsReading m h s = ap (λ tasks. record s { task_store = tasks }) (h s.task_store)

on_events-IsReading :
    {A : Type 0} (m : Exec MemoryEventStore A) → IsReading m → IsReading (on_events m)
on_events-IsReading m h s = ap (λ events. record s { event_store = events }) (h s.event_store)

get_task-IsReading : (ctx : Context) (id : String) → IsReading (get_task ctx id)
unfolding get_task
get_task-IsReading ctx id s = elim (Bool-cases (is_empty id)) [
  | inl bad ↦ rw bad
  | inr good ↦ rw good (on_tasks-IsReading (get ctx id) (get-IsReading ctx id) s)
]

pub list_task_events-IsReading : (ctx : Context) (id : String) → IsReading (list_task_events ctx id)
unfolding list_task_events
list_task_events-IsReading ctx id s = elim (Bool-cases (is_empty id)) [
  | inl bad ↦ rw bad
  | inr good ↦ rw good (
      bind-IsReading (on_tasks (get ctx id)) (λ t. on_events (list_by_task_id ctx id))
        (on_tasks-IsReading (get ctx id) (get-IsReading ctx id))
        (λ t. on_events-IsReading (list_by_task_id ctx id) (list_by_task_id-IsReading ctx id)) s)
]

pub get_task_detail-IsReading :
    (details : DetailCodec) (ctx : Context) (id : String) (now : ℕ)
    → IsReading (get_task_detail details ctx id now)
unfolding get_task_detail
get_task_detail-IsReading details ctx id now =
    bind-IsReading (get_task ctx id) _ (get_task-IsReading ctx id) (λ t.
      bind-IsReading (on_events (list_by_task_id ctx id)) _
        (on_events-IsReading (list_by_task_id ctx id) (list_by_task_id-IsReading ctx id))
        (λ es s. refl))

pub list_tasks-IsReading :
    (codec : Codec) (ctx : Context) (i : ListTasksInput) → IsReading (list_tasks codec ctx i)
unfolding list_tasks
list_tasks-IsReading codec ctx i s = elim (Result-cases (query_of codec i)) [
  | inl (o, e) ↦ rw e (
      bind-IsReading (on_tasks (stored_tasks ctx o)) _
        (on_tasks-IsReading (stored_tasks ctx o) (stored_tasks-IsReading ctx o)) (λ items s'. refl)
        s)
  | inr (x, e) ↦ rw e
]

pub get_task_stats-IsReading :
    {Seconds : Type 0} (seconds : ℕ → Seconds) (ctx : Context) (clock now : ℕ) (i : TaskStatsInput)
    → IsReading (get_task_stats seconds ctx clock now i)
unfolding get_task_stats
get_task_stats-IsReading seconds ctx clock now i =
    let f : TaskStatsFilter = record { workflow = i.workflow; status = i.status } in
    bind-IsReading (fail_if (not (text_eq (trim_space i.workflow) i.workflow)) _) _
      (fail_if-IsReading (not (text_eq (trim_space i.workflow) i.workflow)) _)
      (λ x.
        bind-IsReading (lift _) _ (λ s. refl)
          (λ y.
            bind-IsReading (on_tasks (snapshot_filtered_task_stats ctx clock now f)) _
              (on_tasks-IsReading (snapshot_filtered_task_stats ctx clock now f)
                (snapshot-IsReading ctx clock now f))
              (λ snapshot s. refl)))
