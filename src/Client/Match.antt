-- ===== src/Client/Match.antt =====
-- Two users of src/client/multi_player.cpp face each other through every round.
use four_in_a_row.Base.{
  ℕ, ◌-◌, ◌≤◌, ◌≡◌, ◌≢◌, refl, sym, ap, ◌∙◌, ◌⊎◌, inl, inr, true, false, Option, some, List, [],
  ◌∷◌, All, arith,
}
use four_in_a_row.Base.Int.{pos}
use four_in_a_row.Board.{Board, Outcome, win, placed, column_full, board_full}
use four_in_a_row.Board.Grid.{Inv}
use four_in_a_row.Board.Mirror.{Renaming, mirror, mirror_result, play-mirror}
use four_in_a_row.Client.{
  Turn, my_turn, their_turn, Game, Progress, going, returned, own_turn, peer_turn, after_own,
  after_peer, move_of, char_of,
}
use four_in_a_row.Client.Rounds.{delivered, round, swap, on_turn, go_on, rounds}
use four_in_a_row.Client.Moves.{Moved, play-Moved, own_column}

pub data Opposite : Turn → Turn → Type 0 where
  first : Opposite my_turn their_turn
  second : Opposite their_turn my_turn

-- Two sides in the middle of a game: the same board up to the names of the tokens, on which the
-- player of one is the adversary of the other.
pub record Facing (f : ℕ → ℕ) (a b : Game) : Type 0 where
  pub boards : b.c ≡ mirror f a.c
  pub turns : Opposite a.turn b.turn
  pub inv : Inv a.c
  pub room : a.c.full ≡ false
  pub width : a.c.cols ≡ 7
  pub player : a.c.player ≢ 0
  pub adversary : a.c.adversary ≢ 0

-- Both go on, or both have returned 0, on the same board.
abbrev pub Agree : (ℕ → ℕ) → Progress → Progress → Type 0
Agree f (going a) (going b) = Facing f a b
Agree f (returned c x) (returned d y) = (d ≡ mirror f c) × (x ≡ 0) × (y ≡ 0)
Agree f _ _ = ⊥

module _ (f : ℕ → ℕ) (r : Renaming f) (c : Board) where
  record Open : Type 0 where
    inv : Inv c
    room : c.full ≡ false
    width : c.cols ≡ 7
    player : c.player ≢ 0
    adversary : c.adversary ≢ 0

  facing :
      (q : Board × Outcome) (t u : Turn)
      → Open
      → Moved c q
      → Opposite t u
      → (q.1 ≡ placed) ⊎ (q.1 ≡ column_full)
      → Facing f (record { c = q.0; turn = t }) (record { c = mirror f q.0; turn = u })
  facing q t u o m opposite still = record {
    boards = refl;
    turns = opposite;
    inv = m.inv;
    room = m.open_board still;
    width = m.width ∙ o.width;
    player = λ z. o.player (sym m.names.0 ∙ z);
    adversary = λ z. o.adversary (sym m.names.1 ∙ z);
  }

  -- The first side has moved.
  after_first-Moved :
      (k : ℕ) (q : Board × Outcome)
      → Open
      → Moved c q
      → peer_turn (mirror f c) (some (char_of (pos k))) ≡ some (after_peer (mirror_result f q))
      → (p : Progress × Progress) × (delivered
            (mirror f c)
            (some (after_own true q, move_of (pos k) q.1))
          ≡ some p)
        × Agree f p.0 p.1
  after_first-Moved k (c', win) o m e =
      ((returned c' 0, returned (mirror f c') 0), rw e refl, (refl, refl, refl))
  after_first-Moved k (c', board_full) o m e =
      ((returned c' 0, returned (mirror f c') 0), rw e refl, (refl, refl, refl))
  after_first-Moved k (c', placed) o m e = (
    (
      going (record { c = c'; turn = their_turn }),
      going (record { c = mirror f c'; turn = my_turn }),
    ),
    rw e refl,
    facing (c', placed) their_turn my_turn o m second (inl refl),
  )
  after_first-Moved k (c', column_full) o m e = (
    (
      going (record { c = c'; turn = my_turn }),
      going (record { c = mirror f c'; turn = their_turn }),
    ),
    rw (m.unmoved refl) refl,
    facing (c', column_full) my_turn their_turn o m first (inr refl),
  )

  -- The second side has moved.
  after_second-Moved :
      (k : ℕ) (q : Board × Outcome)
      → Open
      → Moved c q
      → peer_turn c (some (char_of (pos k))) ≡ some (after_peer q)
      → (p : Progress × Progress) × (swap
            (delivered c (some (after_own true (mirror_result f q), move_of (pos k) q.1)))
          ≡ some p)
        × Agree f p.0 p.1
  after_second-Moved k (c', win) o m e =
      ((returned c' 0, returned (mirror f c') 0), rw e refl, (refl, refl, refl))
  after_second-Moved k (c', board_full) o m e =
      ((returned c' 0, returned (mirror f c') 0), rw e refl, (refl, refl, refl))
  after_second-Moved k (c', placed) o m e = (
    (
      going (record { c = c'; turn = my_turn }),
      going (record { c = mirror f c'; turn = their_turn }),
    ),
    rw e refl,
    facing (c', placed) my_turn their_turn o m first (inl refl),
  )
  after_second-Moved k (c', column_full) o m e = (
    (
      going (record { c = c'; turn = their_turn }),
      going (record { c = mirror f c'; turn = my_turn }),
    ),
    rw (m.unmoved refl) refl,
    facing (c', column_full) their_turn my_turn o m second (inr refl),
  )

  round-Agree :
      (t u : Turn) (n : ℕ)
      → Opposite t u
      → Open
      → 1 ≤ n
      → n ≤ 7
      → (p : Progress × Progress) × (on_turn t c (mirror f c) n ≡ some p) × Agree f p.0 p.1
  unfolding round own_turn peer_turn
  round-Agree my_turn my_turn n x o low high = elim x [ ]
  round-Agree their_turn their_turn n x o low high = elim x [ ]
  round-Agree my_turn their_turn n first o low high =
      let (col, int) = own_column n low high in
      let (q, e, m) =
        play-Moved c (n - 1) c.player o.inv o.room o.player (omega (arith, o.width)) in
      let peer = play-mirror f r c (pos (n - 1)) c.player o.player in
      let (p, run, agree) = after_first-Moved (n - 1) q o m (rw (int, peer, e) refl) in
      (p, rw (col, e) run, agree)
  round-Agree their_turn my_turn n second o low high =
      let (col, int) = own_column n low high in
      let (q, e, m) =
        play-Moved c (n - 1) c.adversary o.inv o.room o.adversary (omega (arith, o.width)) in
      let own = play-mirror f r c (pos (n - 1)) c.adversary o.adversary in
      let (p, run, agree) = after_second-Moved (n - 1) q o m (rw (int, e) refl) in
      (p, rw (col, own, e) run, agree)

go_on-Agree :
    (f : ℕ → ℕ) (rest : Game → Game → Option (Progress × Progress)) (p : Progress × Progress)
    → Agree f p.0 p.1
    → ((a b : Game)
        → Facing f a b
        → (q : Progress × Progress) × (rest a b ≡ some q) × Agree f q.0 q.1)
    → (q : Progress × Progress) × (go_on rest (some p) ≡ some q) × Agree f q.0 q.1
go_on-Agree f rest (going a, going b) agree h = h a b agree
go_on-Agree f rest (going a, returned d y) agree h = absurd agree
go_on-Agree f rest (returned c x, going b) agree h = absurd agree
go_on-Agree f rest (returned c x, returned d y) agree h =
    ((returned c x, returned d y), refl, agree)

-- Two sides that face each other stay so in every round for columns from 1 to 7, whatever they
-- choose: no move leaves the board, both always show the same tokens up to their names, and both
-- return at the same time, with 0.
pub rounds-Agree :
    (f : ℕ → ℕ) (a b : Game) (ns : List ℕ)
    → Renaming f
    → Facing f a b
    → All (λ n. (1 ≤ n) × (n ≤ 7)) ns
    → (p : Progress × Progress) × (rounds a b ns ≡ some p) × Agree f p.0 p.1
unfolding rounds
rounds-Agree f a b [] r v h = ((going a, going b), refl, v)
rounds-Agree f a b (n ∷ ns) r v h =
    let o : Open f r a.c = record {
      inv = v.inv;
      room = v.room;
      width = v.width;
      player = v.player;
      adversary = v.adversary;
    } in
    let (p, e, agree) = round-Agree f r a.c a.turn b.turn n v.turns o h.0.0 h.0.1 in
    let (q, run, good) =
      go_on-Agree f (λ a' b'. rounds a' b' ns) p agree
        (λ a' b' w. rounds-Agree f a' b' ns r w h.1) in
    let step : on_turn a.turn a.c b.c n ≡ some p = ap (λ d. on_turn a.turn a.c d n) v.boards ∙ e in
    (q, ap (go_on (λ a' b'. rounds a' b' ns)) step ∙ run, good)
