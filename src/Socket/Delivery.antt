-- ===== src/Socket/Delivery.antt =====
-- However the stream is cut, `readPartMsg` of src/network/socket_wrapper.cpp finds the messages that
-- `sendMsg` put into it.
use native.Mathlib.Decide.{dec_lt}
use four_in_a_row.Base.{
  ℕ, ◌+◌, ◌≤◌, ◌<◌, ◌≡◌, refl, ap, some, List, [], ◌∷◌, ◌++◌, length, drop, length-append,
  append_assoc, All, arith,
}
use four_in_a_row.Wire.Buffer.{be2}
use four_in_a_row.Socket.{request, read_part_msg, receive, frame, incomplete, payload}

abbrev pub flatten : List (List ℕ) → List ℕ
flatten [] = []
flatten (xs ∷ xss) = xs ++ flatten xss

abbrev pub frames : List (List ℕ) → List ℕ
frames [] = []
frames (p ∷ ps) = frame p ++ frames ps

-- `read` returns at least one byte, and at most as many as it is asked for.
abbrev pub Obeys : List ℕ → List (List ℕ) → Type 0
Obeys buf [] = Unit {0}
Obeys buf (got ∷ gots) =
    (0 < length got) × (length got ≤ request buf) × Obeys (read_part_msg buf (some got)).0 gots

-- A message that `sendMsg` sends: at least its type, and not more than the other side accepts.
abbrev pub Sendable : List ℕ → Type 0
Sendable p = (0 < length p) × (length p + 2 ≤ 8192)

length-frame : (p : List ℕ) → length (frame p) ≡ length p + 2
unfolding frame
length-frame p = omega arith

cons_head : {x y : ℕ} {xs ys : List ℕ} → ◌≡◌ {A = List ℕ} (x ∷ xs) (y ∷ ys) → x ≡ y
cons_head e = cc

cons_tail : {x y : ℕ} {xs ys : List ℕ} → ◌≡◌ {A = List ℕ} (x ∷ xs) (y ∷ ys) → xs ≡ ys
cons_tail e = cc

-- Two lists with the same beginning length and the same bytes have the same beginning.
same_split : (a b c d : List ℕ) → a ++ c ≡ b ++ d → length a ≡ length b → (a ≡ b) × (c ≡ d)
same_split [] [] c d e h = (refl, e)
same_split [] (y ∷ b) c d e h = absurd (omega arith)
same_split (x ∷ a) [] c d e h = absurd (omega arith)
same_split (x ∷ a) (y ∷ b) c d e h =
    let (p, q) = same_split a b c d (cons_tail e) (omega arith) in (rw (cons_head e, p), q)

-- The first two bytes of the stream are the length of the frame.
be2-frame :
    (p buf more rest : List ℕ)
    → length p + 2 ≤ 8192
    → 2 ≤ length buf
    → buf ++ more ≡ frame p ++ rest
    → be2 buf ≡ length p + 2
unfolding frame
be2-frame p [] more rest b h e = absurd (omega arith)
be2-frame p (x ∷ []) more rest b h e = absurd (omega arith)
be2-frame p (x ∷ y ∷ buf) more rest b h e = omega (arith, cons_head e, cons_head (cons_tail e))

-- `readPartMsg` does not ask for bytes behind the frame.
request_within :
    (p buf more rest : List ℕ) (n : ℕ)
    → Sendable p
    → buf ++ more ≡ frame p ++ rest
    → length buf < length p + 2
    → n ≤ request buf
    → length buf + n ≤ length p + 2
unfolding request
request_within p buf more rest n v e lt le = elim (dec_lt (length buf) 2) [
  | yes short ↦ ground arith
  | no long ↦ ground (arith, be2-frame p buf more rest v.1 (omega arith) e)
]

-- A piece that does not complete the frame is kept.
read_part_msg_more :
    (p buf got more rest : List ℕ)
    → Sendable p
    → 0 < length got
    → (buf ++ got) ++ more ≡ frame p ++ rest
    → length (buf ++ got) < length p + 2
    → read_part_msg buf (some got) ≡ (buf ++ got, incomplete)
unfolding read_part_msg
read_part_msg_more p buf [] more rest v h e lt = absurd (omega arith)
read_part_msg_more p buf (g ∷ gs) more rest v h e lt = elim (dec_lt (length (buf ++ g ∷ gs)) 2) [
  | yes short ↦ ground arith
  | no long ↦ ground (arith, be2-frame p (buf ++ g ∷ gs) more rest v.1 (omega arith) e)
]

-- The piece that completes the frame gives the message, and the buffer is empty again.
read_part_msg_last :
    (p buf got : List ℕ)
    → Sendable p
    → 0 < length got
    → buf ++ got ≡ frame p
    → read_part_msg buf (some got) ≡ ([], payload p)
unfolding read_part_msg frame
read_part_msg_last p buf [] v h e = absurd (omega arith)
read_part_msg_last p buf (g ∷ gs) v h e =
    let known : be2 (frame p) ≡ length p + 2 = omega arith in
    let long : length (frame p) ≡ length p + 2 = omega arith in
    let body : drop 2 (frame p) ≡ p = refl in rw e (ground (arith, known, long, body, v.0, v.1))

-- What is in the buffer is less than the frame that is being read.
abbrev Begun : List ℕ → List (List ℕ) → Type 0
Begun buf [] = Unit {0}
Begun buf (p ∷ ps) = length buf < length p + 2

fresh : (ps : List (List ℕ)) → Begun [] ps
fresh [] = tt
fresh (p ∷ ps) = omega arith

receive_from :
    (buf : List ℕ) (gots ps : List (List ℕ))
    → All Sendable ps
    → Begun buf ps
    → buf ++ flatten gots ≡ frames ps
    → Obeys buf gots
    → receive buf gots ≡ ([], ps)
unfolding receive
receive_from [] [] [] v b e o = refl
receive_from (x ∷ buf) [] [] v b e o = absurd (cc)
receive_from buf [] (p ∷ ps) v b e o = absurd (
    omega (
      arith,
      ap length e,
      length-append buf [],
      length-append (frame p) (frames ps),
      length-frame p,
    ))
receive_from buf (got ∷ gots) [] v b e o = absurd (
    omega (
      arith,
      o.0,
      ap length e,
      length-append buf (got ++ flatten gots),
      length-append got (flatten gots),
    ))
receive_from buf (got ∷ gots) (p ∷ ps) v b e o =
    let e' : (buf ++ got) ++ flatten gots ≡ frame p ++ frames ps =
      rw (append_assoc buf got (flatten gots)) e in
    let bound = request_within p buf (got ++ flatten gots) (frames ps) (length got) v.0 e b o.1 in
    elim (dec_lt (length (buf ++ got)) (length p + 2)) [
      | yes short ↦
          let part = read_part_msg_more p buf got (flatten gots) (frames ps) v.0 o.0 e' short in
          rw part (rw (receive_from (buf ++ got) gots (p ∷ ps) v short e' (rw part at o.2)) refl)
      | no full ↦
          let same : length (buf ++ got) ≡ length (frame p) =
            omega (arith, full, bound, length-append buf got, length-frame p) in
          let (h, t) = same_split (buf ++ got) (frame p) (flatten gots) (frames ps) e' same in
          let part = read_part_msg_last p buf got v.0 o.0 h in
          rw part (rw (receive_from [] gots ps v.1 (fresh ps) t (rw part at o.2)) refl)
    ]

-- Messages that `sendMsg` may send, put one behind the other into a stream, come out of
-- `readPartMsg` as they were and in their order, and the buffer is empty at the end: however `read`
-- cuts the stream, as long as it returns at least one byte and at most as many as it is asked for.
pub receive-frames :
    (gots msgs : List (List ℕ))
    → All Sendable msgs
    → flatten gots ≡ frames msgs
    → Obeys [] gots
    → receive [] gots ≡ ([], msgs)
receive-frames gots msgs v e o = receive_from [] gots msgs v (fresh msgs) e o
