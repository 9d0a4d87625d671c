-- ===== src/Threadpool/Task/Tests.antt =====
-- Two calls.
use my_practise.Base.{ℕ, ◌+◌, ◌*◌, ◌≡◌, List, [], ◌∷◌, map, some}
use my_practise.Threadpool.Task.{Posts, no_posts, run_left_jobs}
use my_practise.Threadpool.Task.Results.{emplace_all, run_left_jobs-emplace_all}

abbrev calls : List ((ℕ → ℕ) × ℕ)
calls = ((λ x. x + 1), 5) ∷ ((λ x. x * x), 7) ∷ []

run_left_jobs-emplace_all_example :
    (s : Posts ℕ) × (run_left_jobs (emplace_all calls no_posts).1 ≡ some s)
    × (map s.results (emplace_all calls no_posts).0 ≡ map (λ c. some (c.0 c.1)) calls)
run_left_jobs-emplace_all_example = run_left_jobs-emplace_all calls
