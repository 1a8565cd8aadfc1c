-- ===== src/Client/Peers.antt =====
-- waitForPeer and connectToPeer of src/client/multi_player.cpp.
pub mod Proved
pub mod Sides
mod Tests
use four_in_a_row.Base.{
  ℕ, zero, suc, ◌+◌, Bool, true, false, Option, none, some, List, [], ◌∷◌, if◌then◌else◌,
}
use four_in_a_row.Wire.Result.{Result, ok, failed, raised, fault}
use four_in_a_row.Wire.Message.{Message, start_game_peer, start_game_message}
use four_in_a_row.Secure.{Suite, Channel, init, send_msg}
use four_in_a_row.Secure.Receive.{receive_msg}
use four_in_a_row.Secure.Peers.{
  Attempt, succeeds, fails, throws, crashes, waiting, ◌>>=◌, from_option, accept_client,
  connect_server, of_sent, on_message, handshake_server, handshake_client,
}

-- The tries of `connectToPeer`.
abbrev pub max_retries : ℕ
max_retries = 10

module _ {Cert Key Priv : Type 0} (suite : Suite Cert Key Priv) where
  -- The loop with `n` tries left; `connects` tells of the `k`-th `connect`.
  unfoldable pub try_connect :
      Option Cert → (ℕ → Bool) → ℕ → ℕ → Channel Cert Key Priv → Attempt (Channel Cert Key Priv)
  unfolding connect_server
  try_connect host_cert connects zero k c = fails
  try_connect host_cert connects (suc n) k c =
      let q = connect_server suite c host_cert (connects k) in
      let rest = try_connect host_cert connects n (k + 1) q.0 in if q.1 then succeeds q.0 else rest

module _ {Cert Key Priv : Type 0} (suite : Suite Cert Key Priv)
    (send : Message Cert Key → Bool) where
  -- With whether `bindPort` returns 0, the user's certificate and key, the certificate of the peer,
  -- what arrives during the three waits, and the nonce and the key pair of the handshake.
  unfoldable pub wait_for_peer :
      Bool
      → Cert
      → Priv
      → Cert
      → List (Result (Message Cert Key))
      → List (Result (Message Cert Key))
      → List (Result (Message Cert Key))
      → ℕ
      → Priv
      → Attempt (Channel Cert Key Priv)
  unfolding accept_client handshake_server
  wait_for_peer binds cert key host_cert hellos verifies starts nonce eph =
      if binds
      then from_option (accept_client suite cert key host_cert)
        >>= (λ s. handshake_server suite send s hellos verifies nonce eph)
        >>= (λ s.
            on_message suite fails (λ c m. succeeds c)
              (receive_msg suite (start_game_peer ∷ []) s starts))
      else fails

  unfoldable pub connect_to_peer :
      Cert
      → Priv
      → Option Cert
      → (ℕ → Bool)
      → List (Result (Message Cert Key))
      → ℕ
      → Priv
      → Attempt (Channel Cert Key Priv)
  unfolding try_connect handshake_client
  connect_to_peer cert key host_cert connects hellos nonce eph =
      try_connect suite host_cert connects max_retries 0 (init suite cert key)
      >>= (λ c. handshake_client suite send c hellos nonce eph)
      >>= (λ c. of_sent suite (send_msg suite c start_game_message send))
