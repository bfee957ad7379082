-- ===== src/Socks5/Tests.antt =====
-- Runs of the SOCKS5 negotiation, and its theorems on concrete bytes.
use iwa_brook_quic.Base.{ℕ, ◌≡◌, refl, true, List, [], ◌∷◌, map, arith}
use iwa_brook_quic.Socks5.{
  chunk, failed, unsupported_command, ensure_bytes, read_request, choose_method, handle_handshake,
  reply_bytes,
}
use iwa_brook_quic.Socks5.Negotiation.{Granted, domain}
use iwa_brook_quic.Socks5.Handshake.{handle_handshake-grants}

-- BIND is refused with code 7.
bind_run :
    handle_handshake
      (λ bytes. bytes)
      true
      (5 ∷ 1 ∷ [])
      (chunk (0 ∷ 5 ∷ 2 ∷ []) ∷ chunk (0 ∷ 1 ∷ []) ∷ [])
    ≡ ((5 ∷ 0 ∷ []) ∷ reply_bytes 7 ∷ [], failed unsupported_command)
unfolding handle_handshake choose_method read_request ensure_bytes
bind_run = refl

abbrev asked : List ℕ
asked = 3 ∷ 2 ∷ 97 ∷ 98 ∷ 1 ∷ 187 ∷ []

-- The methods 2 and 0, the domain name "ab", port 443, and a byte of what follows.
handle_handshake-grants_example : Granted ((5 ∷ 0 ∷ []) ∷ []) asked (42 ∷ []) (
    handle_handshake
      (λ bytes. bytes)
      true
      (5 ∷ [])
      (map chunk
        ((2 ∷ 2 ∷ []) ∷ (0 ∷ 5 ∷ 1 ∷ 0 ∷ 3 ∷ []) ∷ (2 ∷ 97 ∷ 98 ∷ 1 ∷ 187 ∷ 42 ∷ []) ∷ [])))
handle_handshake-grants_example =
    handle_handshake-grants (λ bytes. bytes) (2 ∷ 0 ∷ []) 0 asked (42 ∷ []) (5 ∷ [])
      ((2 ∷ 2 ∷ []) ∷ (0 ∷ 5 ∷ 1 ∷ 0 ∷ 3 ∷ []) ∷ (2 ∷ 97 ∷ 98 ∷ 1 ∷ 187 ∷ 42 ∷ []) ∷ [])
      (domain 2 (97 ∷ 98 ∷ 1 ∷ 187 ∷ []) (omega arith) (omega arith) refl) refl (omega arith) refl
