-- ===== src/Server/Links.antt =====
-- The pointers of src/server/user_list.cpp: what `UserList` finds is a live user with that key.
use native.Mathlib.Decide.{ℕ_discrete, dec_lt}
use mathlib.Core.Bool.{false≢true}
use four_in_a_row.Base.{
  ℕ, ◌<◌, ◌≡◌, ◌≢◌, refl, sym, ap, ◌∙◌, subst, ◌⊎◌, inl, inr, false, some, List, [], ◌∷◌, set,
  arith, length,
}
use four_in_a_row.Server.Map.{Name, Key, name_key, fd_key, find, insert, erase, find-erase}
use four_in_a_row.Server.User.{
  User, UserState, Heap, deref, just_connected, securely_connected, available, challenged, playing,
  disconnected,
}
use four_in_a_row.Server.Heap.{deref-outside, deref-set_self, deref-set_ne, field-set, set-outside}
use four_in_a_row.Server.UserList.{Users}

-- The states of a user who has registered: the others are not listed by name.
abbrev pub Named : UserState → Type 0
Named just_connected = ⊥
Named securely_connected = ⊥
Named available = Unit
Named challenged = Unit
Named playing = Unit
Named disconnected = Unit

abbrev pub Live : Heap → ℕ → Type 0
Live h p = (deref h p).freed ≡ false

module _ {K V : Type 0} ⦃key : Key K⦄ where
  -- Of every entry that is found.
  abbrev pub Found : (K → V → Type 0) → List (K × V) → Type 0
  Found P m = (k : K) (v : V) → find k m ≡ some v → P k v

  -- What is found after an insertion was there before, or is what was inserted.
  find-insert_only :
      (k j : K) (v x : V) (m : List (K × V))
      → find j (insert k v m) ≡ some x
      → (find j m ≡ some x) ⊎ ((j ≡ k) × (x ≡ v))
  unfolding find insert
  find-insert_only k j v x [] e = ground (arith, key.same_iff k j)
  find-insert_only k j v x ((i, w) ∷ m) e =
      ground
        (arith, key.same_iff i k, key.same_iff i j, key.same_iff k j, find-insert_only k j v x m)

  -- What is found after an erasure was there before, under another key.
  find-erase_only :
      (k j : K) (x : V) (m : List (K × V))
      → find j (erase k m) ≡ some x
      → (find j m ≡ some x) × (j ≢ k)
  find-erase_only k j x m e = ground (arith, find-erase k j m, key.same_iff k j)

  pub insert-Found :
      (P : K → V → Type 0) (k : K) (v : V) (m : List (K × V))
      → P k v
      → Found P m
      → Found P (insert k v m)
  insert-Found P k v m p all j x e = elim (find-insert_only k j v x m e) [
    | inl old ↦ all j x old
    | inr (same, is) ↦ rw (same, is) p
  ]

  pub erase-Found :
      (P Q : K → V → Type 0) (k : K) (m : List (K × V))
      → ((j : K) (x : V) → j ≢ k → P j x → Q j x)
      → Found P m
      → Found Q (erase k m)
  erase-Found P Q k m keep all j x e =
      let old = find-erase_only k j x m e in keep j x old.1 (all j x old.0)

pub Live-in_heap : (h : Heap) (p : ℕ) → Live h p → p < length h
Live-in_heap h p live = elim (dec_lt p (length h)) [
  | yes lt ↦ lt
  | no ge ↦ absurd (false≢true (sym live ∙ ap (λ v. v.freed) (deref-outside h p ge)))
]

-- What a descriptor or a name finds has not been deleted and has that descriptor or that name, and
-- a user found by name has registered.
abbrev pub HasFd : Heap → ℕ → ℕ → Type 0
HasFd h g p = Live h p × ((deref h p).fd ≡ g)

abbrev pub HasName : Heap → Name → ℕ → Type 0
HasName h n p = Live h p × ((deref h p).username ≡ n) × Named (deref h p).state

pub record Linked (s : Users) : Type 0 where
  pub fds : Found (HasFd s.heap) s.by_fd
  pub names : Found (HasName s.heap) s.by_username

-- A change of the heap that the two maps do not see.
pub record Relabels (h h' : Heap) : Type 0 where
  pub fds : (q : ℕ) → (deref h' q).fd ≡ (deref h q).fd
  pub lives : (q : ℕ) → (deref h' q).freed ≡ (deref h q).freed
  pub names : (q : ℕ) → Named (deref h q).state → (deref h' q).username ≡ (deref h q).username
  pub stays : (q : ℕ) → Named (deref h q).state → Named (deref h' q).state

-- A change of the list that leaves the two maps alone.
pub record Kept (s t : Users) : Type 0 where
  pub heaps : Relabels s.heap t.heap
  pub same_fds : t.by_fd ≡ s.by_fd
  pub same_names : t.by_username ≡ s.by_username

pub only_heap :
    {s t : Users}
    → Relabels s.heap t.heap
    → t.by_fd ≡ s.by_fd
    → t.by_username ≡ s.by_username
    → Kept s t
only_heap r ef en = record { heaps = r; same_fds = ef; same_names = en }

pub Kept-refl : (s : Users) → Kept s s
Kept-refl s =
    only_heap (record { fds = λ q. refl; lives = λ q. refl; names = λ q n. refl; stays = λ q n. n })
      refl refl

pub Kept-trans : {s t r : Users} → Kept s t → Kept t r → Kept s r
Kept-trans a b =
    let x = a.heaps in
    let y = b.heaps in
    record {
      heaps = record {
        fds = λ q. y.fds q ∙ x.fds q;
        lives = λ q. y.lives q ∙ x.lives q;
        names = λ q n. y.names q (x.stays q n) ∙ x.names q n;
        stays = λ q n. y.stays q (x.stays q n);
      };
      same_fds = b.same_fds ∙ a.same_fds;
      same_names = b.same_names ∙ a.same_names;
    }

pub Kept-Linked : {s t : Users} → Kept s t → Linked s → Linked t
Kept-Linked {s = s} {t = t} k l =
    let r = k.heaps in
    record {
      fds = λ g p e.
          let old = l.fds g p (ap (find g) (sym k.same_fds) ∙ e) in
          (r.lives p ∙ old.0, r.fds p ∙ old.1);
      names = λ n p e.
          let old = l.names n p (ap (find n) (sym k.same_names) ∙ e) in
          (r.lives p ∙ old.0, r.names p old.2 ∙ old.1, r.stays p old.2);
    }

deref-set_cases :
    (h : Heap) (p q : ℕ) (u : User) → (deref (set h p u) q ≡ u) ⊎ (deref (set h p u) q ≡ deref h q)
deref-set_cases h p q u = elim (ℕ_discrete p q) [
  | yes same ↦ elim (dec_lt p (length h)) [
    | yes lt ↦ inl (rw (← same) (deref-set_self h p u lt))
    | no ge ↦ inr (rw (set-outside h p u ge))
  ]
  | no ne ↦ inr (deref-set_ne h p q u ne)
]

-- A write that keeps the descriptor, the name and the life of a user, and his state if he is named.
pub set-Relabels :
    (h : Heap) (p : ℕ) (u : User)
    → u.fd ≡ (deref h p).fd
    → u.freed ≡ (deref h p).freed
    → u.username ≡ (deref h p).username
    → Named u.state
    → Relabels h (set h p u)
set-Relabels h p u fd life name named = record {
  fds = λ q. field-set (λ v. v.fd) h p q u fd;
  lives = λ q. field-set (λ v. v.freed) h p q u life;
  names = λ q n. field-set (λ v. v.username) h p q u name;
  stays = λ q n. elim (deref-set_cases h p q u) [
    | inl e ↦ subst (λ v. Named (v.state)) (sym e) named
    | inr e ↦ subst (λ v. Named (v.state)) (sym e) n
  ];
}

-- A write that keeps the state too.
pub set_still-Relabels :
    (h : Heap) (p : ℕ) (u : User)
    → u.fd ≡ (deref h p).fd
    → u.freed ≡ (deref h p).freed
    → u.username ≡ (deref h p).username
    → u.state ≡ (deref h p).state
    → Relabels h (set h p u)
set_still-Relabels h p u fd life name state = record {
  fds = λ q. field-set (λ v. v.fd) h p q u fd;
  lives = λ q. field-set (λ v. v.freed) h p q u life;
  names = λ q n. field-set (λ v. v.username) h p q u name;
  stays = λ q n. subst Named (sym (field-set (λ v. v.state) h p q u state)) n;
}

-- A write to a user who is not named keeps his descriptor and his life, and leaves him unnamed or
-- names him.
pub set_unnamed-Relabels :
    (h : Heap) (p : ℕ) (u : User)
    → u.fd ≡ (deref h p).fd
    → u.freed ≡ (deref h p).freed
    → ¬ Named (deref h p).state
    → Relabels h (set h p u)
set_unnamed-Relabels h p u fd life unnamed =
    let other = λ (q : ℕ) (n : Named (deref h q).state).
      deref-set_ne h p q u (λ e. unnamed (subst (λ x. Named ((deref h x).state)) (sym e) n)) in
    record {
      fds = λ q. field-set (λ v. v.fd) h p q u fd;
      lives = λ q. field-set (λ v. v.freed) h p q u life;
      names = λ q n. ap (λ v. v.username) (other q n);
      stays = λ q n. subst (λ v. Named (v.state)) (sym (other q n)) n;
    }
