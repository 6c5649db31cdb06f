-- ===== src/Tests/Pools.antt =====
-- A thread pool with a few connections.
use video_match.Base.{none, some, ℕ, ◌≤◌, ◌≡◌, refl, true, false, List, [], ◌∷◌, count, length}
use video_match.ThreadPool.{
  ThreadState, Pool, no_threads, max_thread_size, choose, process, lock, push, move, Runs, stop,
  goes, choosing, choose_queue, change, wait, push_to_threadpool, thread_proc, shortest,
}
use video_match.ThreadPool.Counting.{held, Runs-count}
use video_match.ThreadPool.Shortest.{Chooses, choose-Chooses}

abbrev at_work : List ThreadState
at_work =
    record { q = 4 ∷ 5 ∷ []; locked = true }
    ∷ record { q = []; locked = false }
    ∷ record { q = 6 ∷ []; locked = false }
    ∷ []

choose-Chooses_example : Chooses at_work (choose at_work)
choose-Chooses_example = choose-Chooses at_work

abbrev one_chosen : Pool
one_chosen = record {
  threads = record { q = []; locked = false } ∷ [];
  processed = [];
  choice = some 0;
}

abbrev one_waiting : Pool
one_waiting = record {
  threads = record { q = 7 ∷ []; locked = false } ∷ [];
  processed = [];
  choice = none;
}

abbrev one_locked : Pool
one_locked = record {
  threads = record { q = 7 ∷ []; locked = true } ∷ [];
  processed = [];
  choice = none;
}

abbrev one_processed : Pool
one_processed = record {
  threads = record { q = []; locked = true } ∷ [];
  processed = 7 ∷ [];
  choice = none;
}

-- The new thread looks at its queue before the connection is there.
one_run : Runs no_threads (7 ∷ []) one_processed
unfolding choose_queue choose push_to_threadpool change shortest thread_proc
one_run = goes [] (7 ∷ []) (choosing no_threads one_chosen refl refl) (
    goes [] (7 ∷ [])
      (move lock [] [] (record { q = []; locked = false }) (record { q = []; locked = true }) [] []
        (some 0) refl)
      (goes [] (7 ∷ [])
        (move wait [] [] (record { q = []; locked = true }) (record { q = []; locked = false }) []
          [] (some 0) refl)
        (goes (7 ∷ []) [] (push 7 one_chosen one_waiting refl refl) (
          goes [] []
            (move lock [] [] (record { q = 7 ∷ []; locked = false })
              (record { q = 7 ∷ []; locked = true }) [] [] none refl)
            (goes [] []
              (move process [] [] (record { q = 7 ∷ []; locked = true })
                (record { q = []; locked = true }) (7 ∷ []) [] none refl)
              (stop one_processed))))))

Runs-count_example :
    ((c : ℕ) → held c one_processed ≡ count c (7 ∷ []))
    × (length one_processed.threads ≤ max_thread_size)
Runs-count_example = Runs-count (7 ∷ []) one_processed one_run
