-- ===== src/CannonProxy/ThreadPool/Progress.antt =====
-- What the pool of cannon_proxy/src/thread_pool/ThreadPool.h promises to those who hand it tasks.
use cpp_project.Prelude.{
  ℕ, zero, suc, ◌+◌, ◌<◌, ◌≡◌, ◌≢◌, ◌⊎◌, inl, inr, refl, sym, ap, ◌∙◌, Bool, true, List, [], ◌∷◌,
  ◌++◌, append-nil, length, count, count-le-length, SameElements, arith,
}
use cpp_project.CannonProxy.ThreadPool.{
  Worker, ready, asleep, returned, running, Destructor, Pool, is_asleep, is_returned, is_awake,
  Reach,
}
use cpp_project.CannonProxy.ThreadPool.Invariant.{runs, count-workers, Reach-IsPool}

awake_or_due :
    {D : Type 0} (up due down : ℕ)
    → 0 < due + up
    → 0 < down + up
    → (0 < up) ⊎ (D ⊎ ((0 < due) × (0 < down)))
awake_or_due zero due down some_due some_there = inr (inr (omega arith, omega arith))
awake_or_due (suc up) due down some_due some_there = inl (omega arith)

module _ {Task : Type 0} where
  -- In every reachable state of a pool with workers the tasks that workers have taken, followed by
  -- those in the queue, are the tasks that were handed to the pool, in the same order; and each task
  -- that was taken has ended, or is being run by one worker.
  pub Reach-order :
      {threads : ℕ} {p : Pool Task}
      → 0 < threads
      → Reach threads p
      → (p.handed ≡ p.begun ++ p.tasks)
        × ((q : Task → Bool) → count q p.begun ≡ count q p.finished + count (runs q) p.workers)
  Reach-order some_threads reached =
      let is = Reach-IsPool some_threads reached in (is.order, is.ran)

  none_running :
      (q : Task → Bool) (ws : List (Worker Task))
      → count is_returned ws ≡ length ws
      → count (runs q) ws ≡ 0
  unfolding count
  none_running q [] home = refl
  none_running q (returned ∷ ws) home = omega (arith, none_running q ws (omega arith))
  none_running q (ready ∷ ws) home = absurd (omega (arith, count-le-length is_returned ws))
  none_running q (asleep ∷ ws) home = absurd (omega (arith, count-le-length is_returned ws))
  none_running q (running t ∷ ws) home = absurd (omega (arith, count-le-length is_returned ws))

  -- When all workers of a pool have left their loops, which is what the destructor waits for, then
  -- the pool was stopped and the queue is empty: all tasks that were handed to the pool were taken,
  -- in their order, and each has ended.
  pub Reach-drained :
      {threads : ℕ} {p : Pool Task}
      → 0 < threads
      → Reach threads p
      → count is_returned p.workers ≡ length p.workers
      → (p.stop ≡ true) × (p.tasks ≡ []) × (p.begun ≡ p.handed) × SameElements p.finished p.handed
  Reach-drained {p} some_threads reached home =
      let is = Reach-IsPool some_threads reached in
      elim is.home [
        | inl h ↦ absurd (omega (arith, is.size))
        | inr (stopped, empty) ↦
            let all = sym (is.order ∙ (ap (λ ts. p.begun ++ ts) empty ∙ append-nil p.begun)) in
            (
              stopped,
              empty,
              all,
              λ q. omega (arith, is.ran q, none_running q p.workers home, ap (count q) all),
            )
      ]

  -- No task is forgotten in a pool whose workers all sleep. In every reachable state of a pool with
  -- workers in which there is a task in the queue, or the pool is stopped and not all workers have
  -- left their loops: a worker is awake, or the destructor is about to notify all, or a worker is
  -- asleep and a notice for one is due.
  pub Reach-CanMove :
      {threads : ℕ} {p : Pool Task}
      → 0 < threads
      → Reach threads p
      → (p.tasks ≢ []) ⊎ ((p.stop ≡ true) × (count is_returned p.workers < length p.workers))
      → (0 < count is_awake p.workers)
        ⊎ ((p.destructor ≡ Destructor.unlocked)
            ⊎ ((0 < p.notices) × (0 < count is_asleep p.workers)))
  Reach-CanMove {p} some_threads reached (inl some_left) =
      let is = Reach-IsPool some_threads reached in
      elim is.home [
        | inr (stopped, empty) ↦ absurd (some_left empty)
        | inl none_home ↦ elim is.awake [
          | inl empty ↦ absurd (some_left empty)
          | inr some_due ↦
              awake_or_due (count is_awake p.workers) p.notices (count is_asleep p.workers) some_due
                (omega (arith, is.size, count-workers p.workers))
        ]
      ]
  Reach-CanMove {p} some_threads reached (inr (stopped, some_out)) =
      let is = Reach-IsPool some_threads reached in
      elim is.told [
        | inl goes ↦ absurd cc
        | inr (inl due) ↦ inr (inl due)
        | inr (inr none_asleep) ↦ inl (omega (arith, count-workers p.workers))
      ]
