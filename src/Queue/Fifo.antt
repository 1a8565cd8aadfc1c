-- ===== src/Queue/Fifo.antt =====
-- include/utils/message_queue.h as a queue: order and capacity.
use four_in_a_row.Base.{
  ℕ, ◌-◌, ◌≤◌, ◌<◌, ◌≡◌, refl, ap, inl, inr, true, List, [], ◌∷◌, ◌++◌, ltb, ◌==◌, if◌then◌else◌,
  length, length-append, append_assoc, append-nil, Bool-cases, arith,
}
use four_in_a_row.Queue.{
  Pool, signal, push_signal, try_pull, pull_wait, resume, taken, Step, pushes, refuses, pulls,
  resumes, wakes, Steps, done, later,
}

module _ {T : Type 0} where
  signal-queue : (s : Pool T) → (signal s).msg_queue ≡ s.msg_queue
  unfolding signal
  signal-queue s = ground arith

  push_signal-queue :
      (n : ℕ) (s : Pool T) (e : T)
      → (push_signal n s e).0.msg_queue
        ≡ (if (push_signal n s e).1 then s.msg_queue ++ e ∷ [] else s.msg_queue)
  unfolding push_signal
  push_signal-queue n s e = elim (Bool-cases (ltb (length s.msg_queue) n)) [
    | inl h ↦ elim (Bool-cases (length (s.msg_queue ++ e ∷ []) == 1)) [
      | inl o ↦ rw (h, o) (signal-queue (record s { msg_queue = s.msg_queue ++ e ∷ [] }))
      | inr o ↦ rw (h, o)
    ]
    | inr h ↦ rw h
  ]

  push_signal-room :
      (n : ℕ) (s : Pool T) (e : T) → ((push_signal n s e).1 ≡ true) → length s.msg_queue < n
  unfolding push_signal
  push_signal-room n s e h = ground arith

  try_pull_fields :
      (q : List T) (a b c : ℕ)
      → taken (try_pull (record { msg_queue = q; sleeping = a; woken = b; busy = c })).1
          ++ (try_pull (record { msg_queue = q; sleeping = a; woken = b; busy = c })).0.msg_queue
        ≡ q
  unfolding try_pull
  try_pull_fields [] a b c = refl
  try_pull_fields (e ∷ es) a b c = refl

  try_pull-queue : (s : Pool T) → taken (try_pull s).1 ++ (try_pull s).0.msg_queue ≡ s.msg_queue
  try_pull-queue s = try_pull_fields s.msg_queue s.sleeping s.woken s.busy

  Step-fifo :
      {n : ℕ} {s t : Pool T} {ins outs : List T}
      → Step n s ins outs t
      → s.msg_queue ++ ins ≡ outs ++ t.msg_queue
  Step-fifo {n = n} {s = s} (pushes e h) = rw (push_signal-queue n s e, h)
  Step-fifo {n = n} {s = s} (refuses e h) = rw (push_signal-queue n s e, h) (append-nil s.msg_queue)
  Step-fifo {s = s} (pulls h) =
      unfold pull_wait in
      rw (append-nil s.msg_queue, try_pull-queue (record s { busy = s.busy - 1 }))
  Step-fifo {s = s} (resumes h) =
      unfold resume in
      rw (append-nil s.msg_queue, try_pull-queue (record s { woken = s.woken - 1 }))
  Step-fifo {s = s} (wakes h) = append-nil s.msg_queue

  -- However the threads take turns, what was in the queue and then what was pushed with success is
  -- what came out, in this order, and then what is in the queue now.
  pub Steps-fifo :
      {n : ℕ} {s t : Pool T} {ins outs : List T}
      → Steps n s ins outs t
      → s.msg_queue ++ ins ≡ outs ++ t.msg_queue
  Steps-fifo {s = s} done = append-nil s.msg_queue
  Steps-fifo {s = s} {t = t} (later {t = v} {ins = i} {ins' = i'} {outs = o} {outs' = o'} a b) =
      let p = Steps-fifo a in
      let q = Step-fifo b in
      rw (
        ← append_assoc s.msg_queue i i',
        p,
        append_assoc o v.msg_queue i',
        q,
        append_assoc o o' t.msg_queue,
      )

  shorter : {n : ℕ} (s : Pool T) → length s.msg_queue ≤ n → length (try_pull s).0.msg_queue ≤ n
  shorter s b = omega (
    arith,
    ap length (try_pull-queue s),
    length-append (taken (try_pull s).1) (try_pull s).0.msg_queue,
  )

  Step-bounded :
      {n : ℕ} {s t : Pool T} {ins outs : List T}
      → Step n s ins outs t
      → length s.msg_queue ≤ n
      → length t.msg_queue ≤ n
  Step-bounded {n = n} {s = s} (pushes e h) b =
      rw (push_signal-queue n s e, h)
        (omega (arith, push_signal-room n s e h, length-append s.msg_queue (e ∷ [])))
  Step-bounded {n = n} {s = s} (refuses e h) b = rw (push_signal-queue n s e, h) b
  Step-bounded {s = s} (pulls h) b = unfold pull_wait in shorter (record s { busy = s.busy - 1 }) b
  Step-bounded {s = s} (resumes h) b = unfold resume in shorter (record s { woken = s.woken - 1 }) b
  Step-bounded (wakes h) b = b

  -- A queue that holds at most `max_size` elements never holds more, whatever the threads do.
  pub Steps-bounded :
      {n : ℕ} {s t : Pool T} {ins outs : List T}
      → Steps n s ins outs t
      → length s.msg_queue ≤ n
      → length t.msg_queue ≤ n
  Steps-bounded done b = b
  Steps-bounded (later a c) b = Step-bounded c (Steps-bounded a b)
