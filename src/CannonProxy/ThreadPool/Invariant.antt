-- ===== src/CannonProxy/ThreadPool/Invariant.antt =====
-- The order of the tasks of a pool and the states of its workers, in every reachable state.
use cpp_project.Prelude.{
  ℕ, zero, suc, ◌+◌, ◌≤◌, ◌<◌, ◌≡◌, ◌⊎◌, inl, inr, refl, sym, ap, ◌∙◌, Bool, true, false, List, [],
  ◌∷◌, ◌++◌, append_assoc, map, some, length, length-set, length-replicate, get_elem?, replicate,
  count, count-append, count-set, count-pos, holds_at-get_elem?, Bool-cases, arith,
}
use mathlib.Core.Path.{subst}
use cpp_project.Run.{ok}
use cpp_project.CannonProxy.ThreadPool.{
  Worker, ready, asleep, returned, running, Destructor, Pool, is_asleep, is_returned, is_awake,
  wake, new, turn_at, turn, finish, enqueued, enqueue, wake_one, stop_all, notify_all, Step, work,
  end_task, spurious, hand, notify_one, notify_nobody, destroy, notify_rest, join, Reach, start,
  later,
}

module _ {Task : Type 0} where
  -- The worker is in a task that passes the test.
  abbrev pub runs : (Task → Bool) → Worker Task → Bool
  runs q (running t) = q t
  runs q ready = false
  runs q asleep = false
  runs q returned = false

  pub record IsPool (threads : ℕ) (p : Pool Task) : Type 0 where
    pub size : length p.workers ≡ threads
    pub order : p.handed ≡ p.begun ++ p.tasks
    pub ran : (q : Task → Bool) → count q p.begun ≡ count q p.finished + count (runs q) p.workers
    pub home : (count is_returned p.workers ≡ 0) ⊎ ((p.stop ≡ true) × (p.tasks ≡ []))
    pub awake : (p.tasks ≡ []) ⊎ (0 < p.notices + count is_awake p.workers)
    pub told :
        (p.stop ≡ false) ⊎ ((p.destructor ≡ Destructor.unlocked) ⊎ (count is_asleep p.workers ≡ 0))

  count-replicate :
      (q : Worker Task → Bool) (n : ℕ) → q ready ≡ false → count q (replicate n ready) ≡ 0
  unfolding count
  count-replicate q zero misses = refl
  count-replicate q (suc n) misses = ground (arith, count-replicate q n misses)

  count-at :
      (q : Worker Task → Bool) (ws : List (Worker Task)) (i : ℕ) (w : Worker Task)
      → get_elem? ws i ≡ some w
      → q w ≡ true
      → 0 < count q ws
  count-at q ws i w at passes = count-pos q ws i (holds_at-get_elem? q ws i w at ∙ passes)

  new-IsPool : (threads : ℕ) → IsPool threads (new threads)
  unfolding new count
  new-IsPool threads = record {
    size = length-replicate threads ready;
    order = refl;
    ran = λ q. omega (arith, count-replicate (runs q) threads refl);
    home = inl (count-replicate is_returned threads refl);
    awake = inl refl;
    told = inl refl;
  }

  -- The test of `wait`, and what follows it.
  turn_at-IsPool :
      {threads : ℕ} (p : Pool Task) (i : ℕ) (stop : Bool) (tasks : List Task)
      → p.stop ≡ stop
      → p.tasks ≡ tasks
      → get_elem? p.workers i ≡ some ready
      → IsPool threads p
      → IsPool threads (turn_at p i stop tasks)
  unfolding turn_at count
  turn_at-IsPool p i false [] goes none_left at is = record {
    size = length-set p.workers i asleep ∙ is.size;
    order = is.order;
    ran = λ q. omega (arith, is.ran q, count-set (runs q) p.workers i ready asleep at);
    home = elim is.home [
      | inl h ↦ inl (omega (arith, count-set is_returned p.workers i ready asleep at))
      | inr h ↦ inr h
    ];
    awake = inl none_left;
    told = inl goes;
  }
  turn_at-IsPool p i true [] goes none_left at is = record {
    size = length-set p.workers i returned ∙ is.size;
    order = is.order;
    ran = λ q. omega (arith, is.ran q, count-set (runs q) p.workers i ready returned at);
    home = inr (goes, none_left);
    awake = inl none_left;
    told = elim is.told [
      | inl h ↦ inl h
      | inr (inl h) ↦ inr (inl h)
      | inr (inr h) ↦ inr (inr (omega (arith, count-set is_asleep p.workers i ready returned at)))
    ];
  }
  turn_at-IsPool p i stop (task ∷ rest) goes some_left at is = record {
    size = length-set p.workers i (running task) ∙ is.size;
    order =
        is.order
        ∙ (ap (λ ts. p.begun ++ ts) some_left ∙ sym (append_assoc p.begun (task ∷ []) rest));
    ran = λ q. omega (
      arith,
      is.ran q,
      count-append q p.begun (task ∷ []),
      count-set (runs q) p.workers i ready (running task) at,
    );
    home = elim is.home [
      | inl h ↦ inl (omega (arith, count-set is_returned p.workers i ready (running task) at))
      | inr h ↦ absurd cc
    ];
    awake = inr (
        omega (
          arith,
          count-set is_awake p.workers i ready (running task) at,
          count-at is_awake p.workers i ready at refl,
        ));
    told = elim is.told [
      | inl h ↦ inl h
      | inr (inl h) ↦ inr (inl h)
      | inr (inr h) ↦
          inr (inr (omega (arith, count-set is_asleep p.workers i ready (running task) at)))
    ];
  }

  finish-IsPool :
      {threads : ℕ} (p : Pool Task) (i : ℕ) (task : Task)
      → get_elem? p.workers i ≡ some (running task)
      → IsPool threads p
      → IsPool threads (finish p i task)
  unfolding finish count
  finish-IsPool p i task at is = record {
    size = length-set p.workers i ready ∙ is.size;
    order = is.order;
    ran = λ q. omega (
      arith,
      is.ran q,
      count-append q p.finished (task ∷ []),
      count-set (runs q) p.workers i (running task) ready at,
    );
    home = elim is.home [
      | inl h ↦ inl (omega (arith, count-set is_returned p.workers i (running task) ready at))
      | inr h ↦ inr h
    ];
    awake = inr (
        omega (
          arith,
          count-set is_awake p.workers i (running task) ready at,
          count-at is_awake p.workers i (running task) at refl,
        ));
    told = elim is.told [
      | inl h ↦ inl h
      | inr (inl h) ↦ inr (inl h)
      | inr (inr h) ↦
          inr (inr (omega (arith, count-set is_asleep p.workers i (running task) ready at)))
    ];
  }

  -- A worker leaves `wait`; the number of notices that are due does not matter.
  wake_one-IsPool :
      {threads : ℕ} (p : Pool Task) (i notices : ℕ)
      → get_elem? p.workers i ≡ some asleep
      → IsPool threads p
      → IsPool threads (record (wake_one p i) { notices = notices })
  unfolding wake_one
  wake_one-IsPool p i notices at is = record {
    size = length-set p.workers i ready ∙ is.size;
    order = is.order;
    ran = λ q. omega (arith, is.ran q, count-set (runs q) p.workers i asleep ready at);
    home = elim is.home [
      | inl h ↦ inl (omega (arith, count-set is_returned p.workers i asleep ready at))
      | inr h ↦ inr h
    ];
    awake = inr (omega (arith, count-set is_awake p.workers i asleep ready at));
    told = elim is.told [
      | inl h ↦ inl h
      | inr (inl h) ↦ inr (inl h)
      | inr (inr h) ↦ inr (inr (omega (arith, count-set is_asleep p.workers i asleep ready at)))
    ];
  }

  enqueued-IsPool :
      {threads : ℕ} (p : Pool Task) (task : Task)
      → p.stop ≡ false
      → IsPool threads p
      → IsPool threads (enqueued p task)
  unfolding enqueued
  enqueued-IsPool p task open_now is = record {
    size = is.size;
    order = ap (λ ts. ts ++ task ∷ []) is.order ∙ append_assoc p.begun p.tasks (task ∷ []);
    ran = is.ran;
    home = elim is.home [ inl h ↦ inl h | inr h ↦ absurd cc ];
    awake = inr (omega arith);
    told = is.told;
  }

  enqueue-IsPool :
      {threads : ℕ} (p : Pool Task) (task : Task) (p' : Pool Task)
      → enqueue p task ≡ ok p'
      → IsPool threads p
      → IsPool threads p'
  unfolding enqueue
  enqueue-IsPool {threads} p task p' run is = elim (Bool-cases p.stop) [
    | inl stopped ↦ absurd (cc (run, stopped))
    | inr open_now ↦
        subst (IsPool threads) (cc (run, open_now)) (enqueued-IsPool p task open_now is)
  ]

  count-wake :
      (q : Worker Task → Bool)
      → q ready ≡ q asleep
      → (ws : List (Worker Task)) → count q (map wake ws) ≡ count q ws
  unfolding count
  count-wake q same [] = refl
  count-wake q same (ready ∷ ws) = omega (arith, count-wake q same ws)
  count-wake q same (asleep ∷ ws) = ground (arith, same, count-wake q same ws)
  count-wake q same (returned ∷ ws) = omega (arith, count-wake q same ws)
  count-wake q same (running t ∷ ws) = omega (arith, count-wake q same ws)

  none_asleep-wake : (ws : List (Worker Task)) → count is_asleep (map wake ws) ≡ 0
  unfolding count
  none_asleep-wake [] = refl
  none_asleep-wake (ready ∷ ws) = omega (arith, none_asleep-wake ws)
  none_asleep-wake (asleep ∷ ws) = omega (arith, none_asleep-wake ws)
  none_asleep-wake (returned ∷ ws) = omega (arith, none_asleep-wake ws)
  none_asleep-wake (running t ∷ ws) = omega (arith, none_asleep-wake ws)

  -- No worker is stopped by being woken.
  awake-wake : (ws : List (Worker Task)) → count is_awake ws ≤ count is_awake (map wake ws)
  unfolding count
  awake-wake [] = omega arith
  awake-wake (ready ∷ ws) = omega (arith, awake-wake ws)
  awake-wake (asleep ∷ ws) = omega (arith, awake-wake ws)
  awake-wake (returned ∷ ws) = omega (arith, awake-wake ws)
  awake-wake (running t ∷ ws) = omega (arith, awake-wake ws)

  length-wake : (ws : List (Worker Task)) → length (map wake ws) ≡ length ws
  length-wake [] = refl
  length-wake (w ∷ ws) = ap suc (length-wake ws)

  notify_all-IsPool :
      {threads : ℕ} (p : Pool Task) → IsPool threads p → IsPool threads (notify_all p)
  unfolding notify_all
  notify_all-IsPool p is = record {
    size = length-wake p.workers ∙ is.size;
    order = is.order;
    ran = λ q. omega (arith, is.ran q, count-wake (runs q) refl p.workers);
    home = elim is.home [
      | inl h ↦ inl (omega (arith, count-wake is_returned refl p.workers))
      | inr h ↦ inr h
    ];
    awake = elim is.awake [ inl h ↦ inl h | inr h ↦ inr (omega (arith, awake-wake p.workers)) ];
    told = inr (inr (none_asleep-wake p.workers));
  }

  -- Every worker is asleep, awake or past its loop.
  pub count-workers :
      (ws : List (Worker Task))
      → count is_asleep ws + count is_awake ws + count is_returned ws ≡ length ws
  unfolding count
  count-workers [] = refl
  count-workers (ready ∷ ws) = omega (arith, count-workers ws)
  count-workers (asleep ∷ ws) = omega (arith, count-workers ws)
  count-workers (returned ∷ ws) = omega (arith, count-workers ws)
  count-workers (running t ∷ ws) = omega (arith, count-workers ws)

  -- A notice that finds no worker asleep is lost, but then a worker is awake.
  notify_nobody-IsPool :
      {threads : ℕ} (p : Pool Task) (notices : ℕ)
      → 0 < threads
      → count is_asleep p.workers ≡ 0
      → IsPool threads p
      → IsPool threads (record p { notices = notices })
  notify_nobody-IsPool p notices some_threads none_asleep is = record {
    size = is.size;
    order = is.order;
    ran = is.ran;
    home = is.home;
    awake = elim is.home [
      | inl h ↦ inr (omega (arith, h, is.size, count-workers p.workers))
      | inr h ↦ inl h.1
    ];
    told = is.told;
  }

  Step-IsPool :
      {threads : ℕ} {p p' : Pool Task}
      → 0 < threads
      → Step p p'
      → IsPool threads p
      → IsPool threads p'
  unfolding turn stop_all wake_one
  Step-IsPool {p} some_threads (work i at) is = turn_at-IsPool p i p.stop p.tasks refl refl at is
  Step-IsPool {p} some_threads (end_task i task at) is = finish-IsPool p i task at is
  Step-IsPool {p} some_threads (spurious i at) is = wake_one-IsPool p i p.notices at is
  Step-IsPool {p} some_threads (hand task p' run) is = enqueue-IsPool p task p' run is
  Step-IsPool {p} some_threads (notify_one i notices due at) is = wake_one-IsPool p i notices at is
  Step-IsPool {p} some_threads (notify_nobody notices due none_asleep) is =
      notify_nobody-IsPool p notices some_threads none_asleep is
  Step-IsPool {p} some_threads (destroy first) is = record {
    size = is.size;
    order = is.order;
    ran = is.ran;
    home = elim is.home [ inl h ↦ inl h | inr h ↦ inr (refl, h.1) ];
    awake = is.awake;
    told = inr (inl refl);
  }
  Step-IsPool {p} some_threads (notify_rest first) is = notify_all-IsPool p is
  Step-IsPool {p} some_threads (join waits home) is = record {
    size = is.size;
    order = is.order;
    ran = is.ran;
    home = is.home;
    awake = is.awake;
    told = elim is.told [ inl h ↦ inl h | inr (inl h) ↦ absurd cc | inr (inr h) ↦ inr (inr h) ];
  }

  pub Reach-IsPool :
      {threads : ℕ} {p : Pool Task} → 0 < threads → Reach threads p → IsPool threads p
  Reach-IsPool {threads} some_threads start = new-IsPool threads
  Reach-IsPool some_threads (later before step) =
      Step-IsPool some_threads step (Reach-IsPool some_threads before)
