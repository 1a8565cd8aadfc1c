-- ===== src/Queue.antt =====
-- include/utils/message_queue.h: the class MessageQueue, and the threads that use it.
-- Its mutex is held through each method, so a method is one step, up to the wait in `pullWait`.
pub mod Fifo
pub mod Wakeup
mod Tests
use four_in_a_row.Base.{
  ℕ, zero, suc, ◌+◌, ◌-◌, ◌<◌, ◌≡◌, Bool, true, false, Option, none, some, List, [], ◌∷◌, ◌++◌, ltb,
  ◌==◌, if◌then◌else◌, length,
}

-- The queue with the threads that take from it: those that sleep on `available_messages`, those
-- that have been woken and wait for the mutex, and those that are busy elsewhere.
pub record Pool (T : Type 0) : Type 0 where
  pub msg_queue : List T
  pub sleeping : ℕ
  pub woken : ℕ
  pub busy : ℕ

module _ {T : Type 0} where
  -- `pthread_cond_signal`: without a sleeping thread it does nothing.
  unfoldable pub signal : Pool T → Pool T
  signal s =
      if s.sleeping == 0 then s else record s { sleeping = s.sleeping - 1; woken = s.woken + 1 }

  unfoldable pub push : ℕ → Pool T → T → Pool T × Bool
  push max_size s e =
      if ltb (length s.msg_queue) max_size
      then (record s { msg_queue = s.msg_queue ++ e ∷ [] }, true)
      else (s, false)

  unfoldable pub push_signal : ℕ → Pool T → T → Pool T × Bool
  unfolding signal
  push_signal max_size s e =
      let s' = record s { msg_queue = s.msg_queue ++ e ∷ [] } in
      if ltb (length s.msg_queue) max_size
      then ((if length s'.msg_queue == 1 then signal s' else s'), true)
      else (s, false)

  -- `none` is `front` of an empty queue, which is undefined.
  unfoldable pub pull : Pool T → Option (Pool T × T)
  pull s = elim s.msg_queue [ [] ↦ none | e ∷ es ↦ some (record s { msg_queue = es }, e) ]

  -- A thread inside `pullWait`, with the mutex: it goes to sleep, or leaves with an element.
  unfoldable pub try_pull : Pool T → Pool T × Option T
  try_pull s = elim s.msg_queue [
    | [] ↦ (record s { sleeping = s.sleeping + 1 }, none)
    | e ∷ es ↦ (record s { msg_queue = es; busy = s.busy + 1 }, some e)
  ]

  -- A busy thread calls `pullWait`; a woken one gets the mutex back and tests again.
  unfoldable pub pull_wait : Pool T → Pool T × Option T
  unfolding try_pull
  pull_wait s = try_pull (record s { busy = s.busy - 1 })

  unfoldable pub resume : Pool T → Pool T × Option T
  unfolding try_pull
  resume s = try_pull (record s { woken = s.woken - 1 })

  abbrev pub taken : Option T → List T
  taken none = []
  taken (some e) = e ∷ []

  -- What the threads can do, with the elements that go in and those that come out. A sleeping
  -- thread may also wake up without a signal.
  pub data Step (max_size : ℕ) (s : Pool T) : List T → List T → Pool T → Type 0 where
    pushes :
        (e : T)
        → (push_signal max_size s e).1 ≡ true
        → Step max_size s (e ∷ []) [] (push_signal max_size s e).0
    refuses :
        (e : T)
        → (push_signal max_size s e).1 ≡ false
        → Step max_size s [] [] (push_signal max_size s e).0
    pulls : 0 < s.busy → Step max_size s [] (taken (pull_wait s).1) (pull_wait s).0
    resumes : 0 < s.woken → Step max_size s [] (taken (resume s).1) (resume s).0
    wakes :
        0 < s.sleeping
        → Step max_size s [] [] (record s { sleeping = s.sleeping - 1; woken = s.woken + 1 })

  pub data Steps (max_size : ℕ) (s : Pool T) : List T → List T → Pool T → Type 0 where
    done : Steps max_size s [] [] s
    later :
        {t v : Pool T} {ins ins' outs outs' : List T}
        → Steps max_size s ins outs t
        → Step max_size t ins' outs' v
        → Steps max_size s (ins ++ ins') (outs ++ outs') v

  -- An empty queue, with `n` threads that have not called `pullWait` yet.
  abbrev pub start : ℕ → Pool T
  start n = record { msg_queue = []; sleeping = 0; woken = 0; busy = n }
