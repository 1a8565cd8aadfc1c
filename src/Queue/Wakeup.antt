-- ===== src/Queue/Wakeup.antt =====
-- include/utils/message_queue.h: no element is left in the queue with every thread asleep, although
-- `pushSignal` signals only the push into an empty queue.
use four_in_a_row.Base.{
  ℕ, ◌+◌, ◌-◌, ◌<◌, ◌≡◌, ◌≢◌, refl, inl, inr, List, [], ◌∷◌, ◌++◌, ltb, ◌==◌, length, Bool-cases,
  arith,
}
use four_in_a_row.Queue.{
  Pool, signal, push_signal, try_pull, pull_wait, resume, Step, pushes, refuses, pulls, resumes,
  wakes, Steps, done, later, start,
}

module _ {T : Type 0} where
  abbrev pub threads : Pool T → ℕ
  threads s = s.sleeping + s.woken + s.busy

  -- An element is waiting only if some thread is awake.
  record Served (n : ℕ) (s : Pool T) : Type 0 where
    all : threads s ≡ n
    awake : s.msg_queue ≢ [] → 0 < s.woken + s.busy

  signal-Served : (n : ℕ) (s : Pool T) → 0 < n → threads s ≡ n → Served n (signal s)
  unfolding signal
  signal-Served n s some_thread e = elim (Bool-cases (s.sleeping == 0)) [
    | inl z ↦ rw z (record { all = e; awake = λ _. ground arith })
    | inr z ↦ rw z (record { all = ground arith; awake = λ _. omega arith })
  ]

  push_signal-Served :
      (n max_size : ℕ) (s : Pool T) (e : T)
      → 0 < n
      → Served n s
      → Served n (push_signal max_size s e).0
  unfolding push_signal
  push_signal-Served n max_size s e some_thread v =
      elim (Bool-cases (ltb (length s.msg_queue) max_size)) [
        | inl h ↦ elim (Bool-cases (length (s.msg_queue ++ e ∷ []) == 1)) [
          | inl o ↦ rw (h, o) (signal-Served n _ some_thread v.all)
          | inr o ↦
              rw (h, o)
                (record {
                  all = v.all;
                  awake = λ _. v.awake (λ empty. let c = (rw empty at o) in cc);
                })
        ]
        | inr h ↦ rw h v
      ]

  try_pull-Served :
      (n : ℕ) (q : List T) (a b c : ℕ)
      → a + b + c + 1 ≡ n
      → Served n (try_pull (record { msg_queue = q; sleeping = a; woken = b; busy = c })).0
  unfolding try_pull
  try_pull-Served n [] a b c e = record { all = omega arith; awake = λ ne. absurd (ne refl) }
  try_pull-Served n (x ∷ q) a b c e = record { all = omega arith; awake = λ ne. omega arith }

  Step-Served :
      {max_size n : ℕ} {s t : Pool T} {ins outs : List T}
      → 0 < n
      → Step max_size s ins outs t
      → Served n s
      → Served n t
  Step-Served {max_size = m} {n = n} {s = s} some_thread (pushes e h) v =
      push_signal-Served n m s e some_thread v
  Step-Served {max_size = m} {n = n} {s = s} some_thread (refuses e h) v =
      push_signal-Served n m s e some_thread v
  Step-Served {n = n} {s = s} some_thread (pulls h) v =
      unfold pull_wait in
      try_pull-Served n s.msg_queue s.sleeping s.woken (s.busy - 1) (omega (arith, v.all))
  Step-Served {n = n} {s = s} some_thread (resumes h) v =
      unfold resume in
      try_pull-Served n s.msg_queue s.sleeping (s.woken - 1) s.busy (omega (arith, v.all))
  Step-Served some_thread (wakes h) v = record {
    all = omega (arith, v.all);
    awake = λ _. omega arith;
  }

  Steps-Served :
      {max_size n : ℕ} {s t : Pool T} {ins outs : List T}
      → 0 < n
      → Steps max_size s ins outs t
      → Served n s
      → Served n t
  Steps-Served some_thread done v = v
  Steps-Served some_thread (later a b) v = Step-Served some_thread b (Steps-Served some_thread a v)

  -- With at least one thread, and whatever the threads do from the start on, none is lost, and as
  -- long as an element waits in the queue, some thread is woken or busy.
  pub never_all_asleep :
      {max_size n : ℕ} {t : Pool T} {ins outs : List T}
      → 0 < n
      → Steps max_size (start n) ins outs t
      → (threads t ≡ n) × (t.msg_queue ≢ [] → t.sleeping < n)
  never_all_asleep some_thread steps =
      let v =
        Steps-Served some_thread steps
          (record { all = omega arith; awake = λ ne. absurd (ne refl) }) in
      (v.all, λ ne. omega (arith, v.all, v.awake ne))
