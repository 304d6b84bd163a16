-- ===== src/Tests/Batches.antt =====
-- A batch of two URLs, checked by two goroutines of which the second is done first.
use taskpulse.Prelude.{
  ℕ, ◌*◌, ◌≤◌, ◌≡◌, ◌⊎◌, refl, none, some, [], ◌∷◌, List, String, pos, arith, length, set,
}
use taskpulse.UrlCheck.{
  CheckJob, Pool, Environment, new_with_concurrency, worker_count, new_pool, check, Step, take_job,
  write_item, Schedule, begin, then_step, IsDone, responded,
}
use taskpulse.UrlCheck.Checked.{IsChecked, check_all_ends}

abbrev environment : Environment
environment = record {
  parse_request_uri = λ raw. some (record { scheme = "http"; host = raw; text = raw });
  fetch = λ index text. responded 3 200 text;
  decimal = λ n. "";
  unmarshal_urls = λ input. none;
  marshal_output = λ out. none;
}

abbrev urls : List String
urls = "a" ∷ "b" ∷ []

abbrev job_a : CheckJob
job_a = record { index = 0; url = "a" }

abbrev job_b : CheckJob
job_b = record { index = 1; url = "b" }

abbrev five : ℕ
five = worker_count (new_with_concurrency (pos 5)) urls

-- Both jobs are taken, and the one that was taken last is written.
abbrev after_three : Pool
after_three = record {
  jobs = [];
  busy = job_a ∷ [];
  items = set (new_pool urls).items 1 (check environment job_b);
}

three_steps : Schedule environment five (new_pool urls) 3 after_three
unfolding new_pool new_with_concurrency
three_steps =
    then_step
      (then_step (then_step begin (take_job job_a (job_b ∷ []) refl (omega arith)))
        (take_job job_b [] refl (omega arith)))
      (write_item [] job_b (job_a ∷ []) refl)

check_all_ends_example :
    (3 ≤ 2 * length urls)
    × (((3 ≡ 2 * length urls)
          × IsDone environment after_three
          × IsChecked environment urls after_three)
        ⊎ ((q : Pool) × Step environment five after_three q))
check_all_ends_example =
    check_all_ends environment urls (pos 5) 3 after_three (omega arith) three_steps
