-- ===== src/Server/Heap.antt =====
-- Reads and writes of the users on the heap of src/server/user.h.
use native.Mathlib.Decide.{ℕ_discrete, dec_lt}
use four_in_a_row.Base.{
  ℕ, suc, ◌+◌, ◌-◌, ◌%◌, ◌^◌, ◌<◌, ◌≡◌, ◌≢◌, refl, ap, Bool, List, [], ◌∷◌, zero, set, length,
  length-set, get_or-set_self, get_or-set_ne, get_or-outside, get_or-append, get_or-append_old,
  ◌++◌, arith,
}
use four_in_a_row.Server.User.{
  User, UserState, Heap, no_user, deref, increase_refs, decrease_refs, set_state, set_username,
  set_opponent, set_locked,
}
use four_in_a_row.Server.Map.{Name}

pub deref-set_self : (h : Heap) (p : ℕ) (u : User) → p < length h → deref (set h p u) p ≡ u
unfolding deref
deref-set_self h p u lt = get_or-set_self h p u no_user lt

pub deref-set_ne : (h : Heap) (p q : ℕ) (u : User) → p ≢ q → deref (set h p u) q ≡ deref h q
unfolding deref
deref-set_ne h p q u ne = get_or-set_ne h p q u no_user ne

pub deref-outside : (h : Heap) (p : ℕ) → ¬ (p < length h) → deref h p ≡ no_user
unfolding deref
deref-outside h p ge = get_or-outside h p no_user ge

-- A user at the end of the heap.
pub deref-new : (h : Heap) (u : User) → deref (h ++ u ∷ []) (length h) ≡ u
unfolding deref
deref-new h u = get_or-append h u no_user

pub deref-old : (h : Heap) (p : ℕ) (u : User) → p < length h → deref (h ++ u ∷ []) p ≡ deref h p
unfolding deref
deref-old h p u lt = get_or-append_old h u no_user p lt

-- A write behind the end of the heap changes nothing.
pub set-outside {ℓ} :
    {A : Type ℓ} (xs : List A) (i : ℕ) (v : A) → ¬ (i < length xs) → set xs i v ≡ xs
set-outside [] i v h = refl
set-outside (x ∷ xs) zero v h = absurd (h (omega arith))
set-outside (x ∷ xs) (suc i) v h = ap (◌∷◌ x) (set-outside xs i v (λ lt. h (omega arith)))

-- A write that leaves one field of the user alone leaves it alone everywhere.
module _ {B : Type 0} (field : User → B) where
  pub field-set :
      (h : Heap) (p q : ℕ) (u : User)
      → field u ≡ field (deref h p)
      → field (deref (set h p u) q) ≡ field (deref h q)
  field-set h p q u e = elim (ℕ_discrete p q) [
    | yes same ↦ elim (dec_lt p (length h)) [
      | yes lt ↦ rw (← same, deref-set_self h p u lt) e
      | no ge ↦ rw (set-outside h p u ge)
    ]
    | no ne ↦ rw (deref-set_ne h p q u ne)
  ]

-- The setters of a user, seen at the user.
module _ (h : Heap) (p : ℕ) (lt : p < length h) where
  pub deref-set_state :
      (s : UserState) → deref (set_state h p s) p ≡ record (deref h p) { state = s }
  unfolding set_state
  deref-set_state s = deref-set_self h p _ lt

  pub deref-set_username :
      (n : Name) → deref (set_username h p n) p ≡ record (deref h p) { username = n }
  unfolding set_username
  deref-set_username n = deref-set_self h p _ lt

  pub deref-set_opponent :
      (n : Name) → deref (set_opponent h p n) p ≡ record (deref h p) { opponent_username = n }
  unfolding set_opponent
  deref-set_opponent n = deref-set_self h p _ lt

  pub deref-set_locked : (b : Bool) → deref (set_locked h p b) p ≡ record (deref h p) { locked = b }
  unfolding set_locked
  deref-set_locked b = deref-set_self h p _ lt

  pub deref-increase_refs :
      deref (increase_refs h p) p
      ≡ record (deref h p) { references = ((deref h p).references + 1) % 2 ^ 32 }
  unfolding increase_refs
  deref-increase_refs = deref-set_self h p _ lt

  pub deref-decrease_refs :
      deref (decrease_refs h p) p
      ≡ record (deref h p) { references = ((deref h p).references + 2 ^ 32 - 1) % 2 ^ 32 }
  unfolding decrease_refs
  deref-decrease_refs = deref-set_self h p _ lt

-- No setter moves the end of the heap.
module _ (h : Heap) (p : ℕ) where
  pub length-set_state : (s : UserState) → length (set_state h p s) ≡ length h
  unfolding set_state
  length-set_state s = length-set h p _

  pub length-set_username : (n : Name) → length (set_username h p n) ≡ length h
  unfolding set_username
  length-set_username n = length-set h p _

  pub length-set_locked : (b : Bool) → length (set_locked h p b) ≡ length h
  unfolding set_locked
  length-set_locked b = length-set h p _

  pub length-increase_refs : length (increase_refs h p) ≡ length h
  unfolding increase_refs
  length-increase_refs = length-set h p _
