-- ===== src/Tests/PoolTests.antt =====
-- A pool of two workers run, and the witnesses of the theorems of the pool.
use cpp_project.Prelude.{
  ℕ, ◌+◌, ◌<◌, ◌≡◌, ◌≢◌, ◌⊎◌, inl, refl, Bool, true, [], ◌++◌, length, count, SameElements, arith,
}
use cpp_project.CannonProxy.ThreadPool.{
  Destructor, Pool, is_asleep, is_returned, is_awake, new, turn_at, turn, finish, enqueued, enqueue,
  stop_all, notify_all, work, end_task, hand, destroy, notify_rest, Reach, start, later,
}
use cpp_project.CannonProxy.ThreadPool.Invariant.{runs}
use cpp_project.CannonProxy.ThreadPool.Progress.{Reach-order, Reach-drained, Reach-CanMove}

-- Two tasks are handed over, and a worker takes the first.
abbrev handed_two : Pool ℕ
handed_two = enqueued (enqueued (new 2) 7) 8

abbrev one_runs : Pool ℕ
one_runs = turn handed_two 1

one_runs-Reach : Reach 2 one_runs
unfolding new turn turn_at enqueue enqueued
one_runs-Reach = later (later (later start (hand 7 _ refl)) (hand 8 _ refl)) (work 1 refl)

some_left : one_runs.tasks ≢ []
unfolding new turn turn_at enqueued
some_left = cc

Reach-order_example :
    (one_runs.handed ≡ one_runs.begun ++ one_runs.tasks)
    × ((q : ℕ → Bool)
        → count q one_runs.begun ≡ count q one_runs.finished + count (runs q) one_runs.workers)
Reach-order_example = Reach-order (omega arith) one_runs-Reach

Reach-CanMove_example :
    (0 < count is_awake one_runs.workers)
    ⊎ ((one_runs.destructor ≡ Destructor.unlocked)
        ⊎ ((0 < one_runs.notices) × (0 < count is_asleep one_runs.workers)))
Reach-CanMove_example = Reach-CanMove (omega arith) one_runs-Reach (inl some_left)

-- The pool is destroyed; the second task is run after that.
abbrev all_home : Pool ℕ
all_home = turn (turn (finish (turn (finish (notify_all (stop_all one_runs)) 1 7) 1) 1 8) 1) 0

all_home-Reach : Reach 2 all_home
unfolding new turn turn_at enqueued finish stop_all notify_all
all_home-Reach =
    let stopped = later (later one_runs-Reach (destroy refl)) (notify_rest refl) in
    let second = later (later stopped (end_task 1 7 refl)) (work 1 refl) in
    later (later (later second (end_task 1 8 refl)) (work 1 refl)) (work 0 refl)

all_home_returned : count is_returned all_home.workers ≡ length all_home.workers
unfolding new turn turn_at enqueued finish stop_all notify_all count
all_home_returned = refl

Reach-drained_example :
    (all_home.stop ≡ true)
    × (all_home.tasks ≡ [])
    × (all_home.begun ≡ all_home.handed)
    × SameElements all_home.finished all_home.handed
Reach-drained_example = Reach-drained (omega arith) all_home-Reach all_home_returned
