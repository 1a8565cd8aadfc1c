-- ===== src/Secure/Thrown.antt =====
-- What the methods of src/security/secure_socket_wrapper.cpp leave behind when a call in them throws.
use four_in_a_row.Base.{ℕ, Bool, true, false, some, List}
use four_in_a_row.Wire.Result.{Result, ok, failed, raised, fault}
use four_in_a_row.Secure.{Suite, Channel}
use four_in_a_row.Secure.Handshake.{client, server, generate_keys, check_signature}

-- The four buffers that `generateKeys` fills, at the time of the throw.
pub record Buffers : Type 0 where
  pub send_key : List ℕ
  pub recv_key : List ℕ
  pub send_iv_static : List ℕ
  pub recv_iv_static : List ℕ

module _ {Cert Key Priv : Type 0} (suite : Suite Cert Key Priv) where
  abbrev pub with_buffers : Buffers → Channel Cert Key Priv → Channel Cert Key Priv
  with_buffers b c = record c {
    send_key = b.send_key;
    recv_key = b.recv_key;
    send_iv_static = b.send_iv_static;
    recv_iv_static = b.recv_iv_static;
  }

  -- `generateKeys` throws with some of the buffers written, or a later call throws.
  abbrev pub after_keys :
      Buffers
      → Channel Cert Key Priv
      → (Channel Cert Key Priv → Channel Cert Key Priv)
      → Result (Channel Cert Key Priv)
      → Channel Cert Key Priv
  after_keys b c later (ok k) = later k
  after_keys b c later failed = with_buffers b c
  after_keys b c later raised = with_buffers b c
  after_keys b c later fault = with_buffers b c

  -- `sendClientVerify` throws when the peer is already marked.
  abbrev pub after_check : Channel Cert Key Priv → Result Bool → Channel Cert Key Priv
  after_check k (ok true) = record k { peer_authenticated = true }
  after_check k (ok false) = k
  after_check k failed = k
  after_check k raised = k
  after_check k fault = k

  unfoldable pub left_by_server_hello :
      Buffers → Channel Cert Key Priv → Key → ℕ → List ℕ → Channel Cert Key Priv
  left_by_server_hello b c key nonce ds =
      let c' = record c { sv_nonce = nonce; other_eph_key = some key } in
      after_keys b c' (λ k. after_check k (check_signature suite ds client k))
        (generate_keys suite client c')

  unfoldable pub left_by_client_hello :
      Buffers → Channel Cert Key Priv → Key → ℕ → ℕ → Priv → Channel Cert Key Priv
  left_by_client_hello b c key nonce sv_nonce eph =
      let c' = record c {
        cl_nonce = nonce;
        other_eph_key = some key;
        sv_nonce = sv_nonce;
        my_eph_key = some eph;
      } in
      after_keys b c' (λ k. k) (generate_keys suite server c')
