-- ===== src/Server/Duel/Pair.antt =====
-- Two users under the handlers of src/server/server.cpp, with all that a challenge changes.
use four_in_a_row.Base.{
  ℕ, ◌<◌, ◌≡◌, ◌≢◌, refl, sym, ap, ◌∙◌, List, [], ◌∷◌, ◌++◌, length, length-set,
}
use four_in_a_row.Server.Map.{Name}
use four_in_a_row.Server.User.{UserState, deref, set_state, set_opponent}
use four_in_a_row.Server.Heap.{deref-set_self, deref-set_ne}
use four_in_a_row.Server.World.{World, Call, Env, put_state, put_opponent, call}
use four_in_a_row.Server.Frames.{heap_of}
use four_in_a_row.Server.Duel.{Calm}

module _ {Cert Key : Type 0} (u c : ℕ) (nu nc : Name) (listing : List (Name × ℕ)) where
  -- The users `u` and `c`, named `nu` and `nc`: their states, their opponents, and the calls so far.
  pub record Pair (su sc : UserState) (ou oc : Name) (cs : List (Call Cert Key))
      (w : World Cert Key) : Type 0 where
    pub apart : u ≢ c
    pub inside : u < length (heap_of w)
    pub inside' : c < length (heap_of w)
    pub state : (deref (heap_of w) u).state ≡ su
    pub state' : (deref (heap_of w) c).state ≡ sc
    pub name : (deref (heap_of w) u).username ≡ nu
    pub name' : (deref (heap_of w) c).username ≡ nc
    pub opponent : (deref (heap_of w) u).opponent_username ≡ ou
    pub opponent' : (deref (heap_of w) c).opponent_username ≡ oc
    pub listed : w.users.by_username ≡ listing
    pub calls : w.calls ≡ cs

  module _ {su sc : UserState} {ou oc : Name} {cs : List (Call Cert Key)} where
    pub Calm-Pair :
        {w v : World Cert Key} → Calm w v → Pair su sc ou oc cs w → Pair su sc ou oc cs v
    Calm-Pair k p = record {
      apart = p.apart;
      inside = rw (k.extent) p.inside;
      inside' = rw (k.extent) p.inside';
      state = k.states u ∙ p.state;
      state' = k.states c ∙ p.state';
      name = k.names u ∙ p.name;
      name' = k.names c ∙ p.name';
      opponent = k.opponents u ∙ p.opponent;
      opponent' = k.opponents c ∙ p.opponent';
      listed = k.listed ∙ p.listed;
      calls = k.calls ∙ p.calls;
    }

    pub put_state-Pair :
        (s : UserState) (w : World Cert Key)
        → Pair su sc ou oc cs w
        → Pair s sc ou oc cs (put_state u s w).1
    unfolding put_state set_state
    put_state-Pair s w p =
        let here =
          deref-set_self (heap_of w) u (record (deref (heap_of w) u) { state = s }) p.inside in
        let there =
          deref-set_ne (heap_of w) u c (record (deref (heap_of w) u) { state = s }) p.apart in
        record {
          apart = p.apart;
          inside = rw (length-set (heap_of w) u _) p.inside;
          inside' = rw (length-set (heap_of w) u _) p.inside';
          state = rw here refl;
          state' = rw there p.state';
          name = rw here p.name;
          name' = rw there p.name';
          opponent = rw here p.opponent;
          opponent' = rw there p.opponent';
          listed = p.listed;
          calls = p.calls;
        }

    pub put_opponent-Pair :
        (n : Name) (w : World Cert Key)
        → Pair su sc ou oc cs w
        → Pair su sc n oc cs (put_opponent u n w).1
    unfolding put_opponent set_opponent
    put_opponent-Pair n w p =
        let named = record (deref (heap_of w) u) { opponent_username = n } in
        let here = deref-set_self (heap_of w) u named p.inside in
        let there = deref-set_ne (heap_of w) u c named p.apart in
        record {
          apart = p.apart;
          inside = rw (length-set (heap_of w) u _) p.inside;
          inside' = rw (length-set (heap_of w) u _) p.inside';
          state = rw here p.state;
          state' = rw there p.state';
          name = rw here p.name;
          name' = rw there p.name';
          opponent = rw here refl;
          opponent' = rw there p.opponent';
          listed = p.listed;
          calls = p.calls;
        }

    pub call-Pair :
        (env : Env Cert) (k : Call Cert Key) (w : World Cert Key)
        → Pair su sc ou oc cs w
        → Pair su sc ou oc (cs ++ k ∷ []) (call env k w).1
    unfolding call
    call-Pair env k w p = record {
      apart = p.apart;
      inside = p.inside;
      inside' = p.inside';
      state = p.state;
      state' = p.state';
      name = p.name;
      name' = p.name';
      opponent = p.opponent;
      opponent' = p.opponent';
      listed = p.listed;
      calls = ap (λ l. l ++ k ∷ []) p.calls;
    }

-- The pair seen from the other side.
pub Pair-sym :
    {Cert Key : Type 0} {u c : ℕ} {nu nc : Name} {listing : List (Name × ℕ)} {su sc : UserState}
    {ou oc : Name} {cs : List (Call Cert Key)} {w : World Cert Key}
    → Pair u c nu nc listing su sc ou oc cs w
    → Pair c u nc nu listing sc su oc ou cs w
Pair-sym p = record {
  apart = λ e. p.apart (sym e);
  inside = p.inside';
  inside' = p.inside;
  state = p.state';
  state' = p.state;
  name = p.name';
  name' = p.name;
  opponent = p.opponent';
  opponent' = p.opponent;
  listed = p.listed;
  calls = p.calls;
}
