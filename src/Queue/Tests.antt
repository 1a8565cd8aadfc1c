-- ===== src/Queue/Tests.antt =====
-- The theorems on include/utils/message_queue.h at one run of two threads.
use four_in_a_row.Base.{ℕ, ◌≤◌, ◌<◌, ◌≡◌, ◌≢◌, refl, [], ◌∷◌, ◌++◌, length, arith}
use four_in_a_row.Queue.{
  Pool, push_signal, signal, pull_wait, resume, try_pull, Steps, pushes, pulls, resumes, done,
  later, start,
}
use four_in_a_row.Queue.Fifo.{Steps-fifo, Steps-bounded}
use four_in_a_row.Queue.Wakeup.{threads, never_all_asleep}

-- One thread has taken 7 after its sleep, the other is busy, and 8 is waiting.
abbrev at_work : Pool ℕ
at_work = record { msg_queue = 8 ∷ []; sleeping = 0; woken = 0; busy = 2 }

-- A thread goes to sleep, two elements come in, and the thread takes the first.
a_run : Steps 10 (start 2) (7 ∷ 8 ∷ []) (7 ∷ []) at_work
unfolding push_signal signal pull_wait resume try_pull
a_run =
    later (later (later (later done (pulls (omega arith))) (pushes 7 refl)) (pushes 8 refl))
      (resumes (omega arith))

Steps-fifo_example : (start 2).msg_queue ++ (7 ∷ 8 ∷ []) ≡ (7 ∷ []) ++ at_work.msg_queue
Steps-fifo_example = Steps-fifo a_run

Steps-bounded_example : length at_work.msg_queue ≤ 10
Steps-bounded_example = Steps-bounded a_run (omega arith)

never_all_asleep_example : (threads at_work ≡ 2) × (at_work.msg_queue ≢ [] → at_work.sleeping < 2)
never_all_asleep_example = never_all_asleep (omega arith) a_run
