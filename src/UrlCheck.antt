-- ===== src/UrlCheck.antt =====
-- internal/executor/urlcheck: a batch of URLs, checked by several goroutines that take jobs from one
-- channel. The parsing of a URL, the HTTP client, the clock and encoding/json are parameters.
pub mod Schedules
pub mod Checked
use taskpulse.Prelude.{
  ℕ, suc, ◌+◌, String, Bool, true, false, not, ◌&&◌, ◌||◌, Option, none, some, List, [], ◌∷◌, ◌++◌,
  ltb, leb, ◌==◌, text_eq, text_append, is_empty, if◌then◌else◌, length, set, ℤ, is_nonpos,
  magnitude, ◌≡◌, ◌<◌, ◌⊎◌, inl, inr,
}
use taskpulse.Worker.Processing.{
  ExecutionResult, ExecutionOutcome, outcome_succeeded, outcome_partial, outcome_failed,
}

pub record ItemResult : Type 0 where
  pub url : String
  pub status_code : ℕ
  pub final_url : String
  pub duration_ms : ℕ
  pub error : String

pub record Output : Type 0 where
  pub total : ℕ
  pub succeeded : ℕ
  pub failed : ℕ
  pub items : List ItemResult

-- What `url.ParseRequestURI` finds, and what `client.Do` gives.
pub record Uri : Type 0 where
  pub scheme : String
  pub host : String
  pub text : String

pub data Fetched : Type 0 where
  no_request : String → Fetched
  no_response : ℕ → String → Fetched
  responded : ℕ → ℕ → String → Fetched

-- The parameters. The clock and the client may answer each job differently, so what a job is given
-- depends on its index.
pub record Environment : Type 0 where
  pub parse_request_uri : String → Option Uri
  pub fetch : ℕ → String → Fetched
  -- `strconv`'s decimal digits, as `fmt` prints them.
  pub decimal : ℕ → String
  pub unmarshal_urls : String → Option (List String)
  pub marshal_output : Output → Option String

abbrev pub empty_item : ItemResult
empty_item = record { url = ""; status_code = 0; final_url = ""; duration_ms = 0; error = "" }

abbrev pub max_urls : ℕ
max_urls = 100

pub record CheckJob : Type 0 where
  pub index : ℕ
  pub url : String

-- The channel of jobs, the jobs that the goroutines hold, and the results so far.
pub record Pool : Type 0 where
  pub jobs : List CheckJob
  pub busy : List CheckJob
  pub items : List ItemResult

-- `NewWithConcurrency`: not more goroutines than asked for, and at least one.
unfoldable pub new_with_concurrency : ℤ → ℕ
new_with_concurrency n = if is_nonpos n then 1 else magnitude n

-- `for index, rawURL := range urls { jobs <- checkJob{...} }`, from the index `k` on.
unfoldable pub jobs_from : ℕ → List String → List CheckJob
jobs_from k [] = []
jobs_from k (u ∷ urls) = record { index = k; url = u } ∷ jobs_from (suc k) urls

-- `make([]ItemResult, len(urls))`
unfoldable pub blank_items : List String → List ItemResult
blank_items [] = []
blank_items (u ∷ urls) = empty_item ∷ blank_items urls

unfoldable pub new_pool : List String → Pool
unfolding jobs_from blank_items
new_pool urls = record { jobs = jobs_from 0 urls; busy = []; items = blank_items urls }

abbrev pub min : ℕ → ℕ → ℕ
min a b = if ltb a b then a else b

-- `workerCount := min(e.maxConcurrency, len(urls))`
abbrev pub worker_count : ℕ → List String → ℕ
worker_count concurrency urls = min concurrency (length urls)

abbrev pub is_http : Uri → Bool
is_http u = (text_eq u.scheme "http" || text_eq u.scheme "https") && not (is_empty u.host)

abbrev pub named : String → ItemResult
named raw = record empty_item { url = raw }

module _ (env : Environment) where
  open env use {parse_request_uri, fetch, decimal, unmarshal_urls, marshal_output}

  abbrev pub fetched_item : String → Fetched → ItemResult
  fetched_item raw (no_request error) = record (named raw) { error = error }
  fetched_item raw (no_response ms error) = record (named raw) { duration_ms = ms; error = error }
  fetched_item raw (responded ms status final) = record {
    url = raw;
    status_code = status;
    final_url = final;
    duration_ms = ms;
    error =
        if ltb status 200 || leb 400 status
        then text_append "unexpected HTTP status " (decimal status)
        else "";
  }

  abbrev pub parsed_item : ℕ → String → Option Uri → ItemResult
  parsed_item index raw none = record (named raw) { error = "invalid HTTP URL" }
  parsed_item index raw (some u) =
      if is_http u
      then fetched_item raw (fetch index u.text)
      else record (named raw) { error = "invalid HTTP URL" }

  unfoldable pub check : CheckJob → ItemResult
  check j = parsed_item j.index j.url (parse_request_uri j.url)

  -- A free goroutine takes a job, or one that holds a job writes its result.
  pub data Step (workers : ℕ) (p : Pool) : Pool → Type 0 where
    take_job :
        (j : CheckJob) (js : List CheckJob)
        → p.jobs ≡ j ∷ js
        → length p.busy < workers
        → Step workers p (record p { jobs = js; busy = j ∷ p.busy })
    write_item :
        (before : List CheckJob) (j : CheckJob) (after : List CheckJob)
        → p.busy ≡ before ++ (j ∷ after)
        → Step workers p
            (record p { busy = before ++ after; items = set p.items j.index (check j) })

  -- What the goroutines do, step by step, in any order; the number of steps.
  pub data Schedule (workers : ℕ) (p : Pool) : ℕ → Pool → Type 0 where
    begin : Schedule workers p 0 p
    then_step :
        {n : ℕ} {q r : Pool}
        → Schedule workers p n q
        → Step workers q r
        → Schedule workers p (suc n) r

  -- `waitGroup.Wait` returns: the channel is empty and every goroutine is done.
  abbrev pub IsDone : Pool → Type 0
  IsDone p = (p.jobs ≡ []) × (p.busy ≡ [])

  -- The loop that counts.
  unfoldable pub tally : List ItemResult → Output → Output
  tally [] out = out
  tally (i ∷ is) out = tally is (
      if is_empty i.error
      then record out { succeeded = out.succeeded + 1 }
      else record out { failed = out.failed + 1 })

  abbrev pub output_of : List String → List ItemResult → Output
  output_of urls items =
      tally items (record { total = length urls; succeeded = 0; failed = 0; items = items })

  abbrev pub outcome_of : Output → ExecutionOutcome
  outcome_of out =
      if out.succeeded == 0
      then outcome_failed
      else if ltb 0 out.failed
      then outcome_partial
      else outcome_succeeded

  abbrev pub error_message_of : Output → String
  error_message_of out =
      if ltb 0 out.failed
      then text_append (decimal out.failed)
          (text_append " of " (text_append (decimal out.total) " URL checks failed"))
      else ""

  -- `Execute` up to the checks: the URLs, or the text of an error.
  unfoldable pub read_input : String → String ⊎ List String
  read_input input = elim (unmarshal_urls input) [
    | none ↦ inl "decode URL check input"
    | some urls ↦
        if length urls == 0
        then inl "at least one URL is required"
        else if ltb max_urls (length urls)
        then inl "URL count exceeds limit of 100"
        else inr urls
  ]

  -- `Execute` from the results of the checks on.
  unfoldable pub finish_checks : List String → List ItemResult → Option ExecutionResult
  unfolding tally
  finish_checks urls items =
      let out = output_of urls items in
      elim (marshal_output out) [
        | none ↦ none
        | some payload ↦ some (record {
          output = payload;
          outcome = outcome_of out;
          error_message = error_message_of out;
        })
      ]
