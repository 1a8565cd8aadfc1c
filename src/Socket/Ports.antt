-- ===== src/Socket/Ports.antt =====
-- `bind_random_port` of src/network/inet_utils.cpp.
use four_in_a_row.Base.{
  ℕ, zero, suc, ◌+◌, ◌-◌, ◌%◌, ◌≤◌, ◌<◌, ◌≡◌, ◌≢◌, sym, subst, ◌∙◌, refl, ◌⊎◌, inl, inr, Bool, true,
  false, ◌==◌, if◌then◌else◌, Bool-cases, arith,
}

abbrev pub from_port : ℕ
from_port = 49152

abbrev pub to_port : ℕ
to_port = 65535

abbrev pub random_port : ℕ → ℕ
random_port r = r % (to_port - from_port + 1) + from_port

abbrev pub next_port : ℕ → ℕ
next_port port = (port - from_port + 1) % (to_port - from_port + 1) + from_port

-- The loop with `n` tries left, at the next port to try; `free` tells whether `bind` takes a port.
unfoldable pub try_ports : (ℕ → Bool) → ℕ → ℕ → ℕ
try_ports free zero port = 0
try_ports free (suc n) port =
    let rest = try_ports free n (next_port port) in if free port then port else rest

-- With a number from `rand`.
unfoldable pub bind_random_port : (ℕ → Bool) → ℕ → ℕ → ℕ
bind_random_port free max_tries r = try_ports free max_tries (random_port r)

-- The port `i` places behind `port` in the cycle of the ports.
abbrev pub port_at : ℕ → ℕ → ℕ
port_at port i = (port - from_port + i) % (to_port - from_port + 1) + from_port

abbrev pub max_tries : ℕ
max_tries = 256

-- `bindPort` without a port: its result, and whether `listen` has been called with success.
unfoldable pub bind_port : (ℕ → Bool) → ℕ → Bool → ℕ × Bool
bind_port free r listens =
    let ret = bind_random_port free max_tries r in
    if ret == 0 then (ret, false) else if listens then (0, true) else (1, false)

InRange : ℕ → Type 0
InRange port = (from_port ≤ port) × (port ≤ to_port)

next_port-InRange : (port : ℕ) → InRange (next_port port)
unfolding InRange
next_port-InRange port = (omega arith, omega arith)

port_at_zero : (port : ℕ) → InRange port → port_at port 0 ≡ port
unfolding InRange
port_at_zero port (low, high) = omega arith

port_at-next_port : (port i : ℕ) → port_at (next_port port) i ≡ port_at port (suc i)
port_at-next_port port i = omega arith

-- The first free port among `n`, or none of them is free.
abbrev pub FirstFree : (ℕ → Bool) → ℕ → ℕ → ℕ → Type 0
FirstFree free n port found =
    ((i : ℕ) × (i < n)
      × (found ≡ port_at port i)
      × (free found ≡ true)
      × ((j : ℕ) → j < i → free (port_at port j) ≡ false))
    ⊎ ((found ≡ 0) × ((j : ℕ) → j < n → free (port_at port j) ≡ false))

taken_before :
    (free : ℕ → Bool) (n port : ℕ)
    → InRange port
    → free port ≡ false
    → ((j : ℕ) → j < n → free (port_at (next_port port) j) ≡ false)
    → (j : ℕ) → j < suc n
    → free (port_at port j) ≡ false
taken_before free n port h taken rest zero lt =
    subst (λ p. free p ≡ false) (sym (port_at_zero port h)) taken
taken_before free n port h taken rest (suc j) lt =
    subst (λ p. free p ≡ false) (port_at-next_port port j) (rest j (omega arith))

try_ports-FirstFree :
    (free : ℕ → Bool) (n port : ℕ) → InRange port → FirstFree free n port (try_ports free n port)
unfolding try_ports
try_ports-FirstFree free zero port h = inr (refl, λ j lt. absurd (omega arith))
try_ports-FirstFree free (suc n) port h = elim (Bool-cases (free port)) [
  | inl good ↦
      rw good (inl (0, omega arith, sym (port_at_zero port h), good, λ j lt. absurd (omega arith)))
  | inr taken ↦
      rw taken (elim (try_ports-FirstFree free n (next_port port) (next_port-InRange port)) [
        | inl (i, lt, e, good, before) ↦ inl (
          suc i,
          omega arith,
          e ∙ port_at-next_port port i,
          good,
          taken_before free i port h taken before,
        )
        | inr (e, all) ↦ inr (e, taken_before free n port h taken all)
      ])
]

-- `bind_random_port` returns the first port that `bind` takes among the 256 that follow the random
-- one in the cycle from 49152 to 65535; or it takes none of them, the result is 0, and `bindPort`
-- returns 0 as well, without a call of `listen`.
pub bind_port_cases :
    (free : ℕ → Bool) (r : ℕ) (listens : Bool)
    → let found = bind_random_port free 256 r in
      FirstFree free 256 (random_port r) found
      × ((found ≢ 0) ⊎ (bind_port free r listens ≡ (0, false)))
unfolding bind_random_port bind_port InRange
bind_port_cases free r listens = (
  try_ports-FirstFree free 256 (random_port r) (omega arith, omega arith),
  elim (Bool-cases (try_ports free 256 (random_port r) == 0)) [
    | inl z ↦
        let none_free : try_ports free 256 (random_port r) ≡ 0 = ground arith in
        inr (rw none_free refl)
    | inr other ↦ inl (ground arith)
  ],
)
