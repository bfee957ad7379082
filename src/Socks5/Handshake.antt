-- ===== src/Socks5/Handshake.antt =====
-- `handleHandshake` as a whole, on a well-formed negotiation in any chunks.
use iwa_brook_quic.Base.{
  ℕ, ◌+◌, ◌≤◌, ◌<◌, ◌≡◌, ◌∙◌, sym, ap, true, List, [], ◌∷◌, ◌++◌, length, take, drop, map, arith,
  length-append, take-append, drop-append, drop-drop, length-drop,
}
use iwa_brook_quic.Bytes.{byte_at}
use iwa_brook_quic.Socks5.{
  chunk, Reply, after_writing, offers_no_auth, choose_method, handle_handshake,
}
use iwa_brook_quic.Socks5.Negotiation.{
  joined_chunks, Address, Granted, byte_kept, drop_kept, take_kept, filled, request_stream,
  request-Granted,
}

Granted-after :
    (bytes : List ℕ) (written : List (List ℕ)) (dst rest : List ℕ) (r : Reply)
    → Granted written dst rest r
    → Granted (bytes ∷ written) dst rest (after_writing bytes r)
Granted-after bytes written dst rest r g = record {
  request = g.request;
  unread_chunks = g.unread_chunks;
  is_reply = ap (after_writing bytes) g.is_reply;
  is_dst = g.is_dst;
  is_unread = g.is_unread;
  is_rest = g.is_rest;
}

-- What a client sends: version 5, its methods, then the request.
abbrev pub client_stream : List ℕ → ℕ → List ℕ → List ℕ → List ℕ
client_stream methods rsv dst rest = 5 ∷ length methods ∷ (methods ++ request_stream rsv dst rest)

module _ (decode : List ℕ → List ℕ) (methods : List ℕ) (rsv : ℕ) (dst rest : List ℕ) where
  chosen :
      (buf : List ℕ) (cs : List (List ℕ))
      → Address dst
      → offers_no_auth methods ≡ true
      → buf ++ joined_chunks cs ≡ client_stream methods rsv dst rest
      → 2 + length methods ≤ length buf
      → Granted ((5 ∷ 0 ∷ []) ∷ []) dst rest (choose_method decode true buf (map chunk cs))
  unfolding choose_method
  chosen buf cs address offers e enough =
      let stream = client_stream methods rsv dst rest in
      let n = length methods in
      let behind = drop_kept buf (joined_chunks cs) stream in
      let count : byte_at buf 1 ≡ n = byte_kept buf (joined_chunks cs) stream 1 e (omega arith) in
      let listed : take n (drop 2 buf) ≡ methods =
        take_kept (drop 2 buf) (joined_chunks cs) (methods ++ request_stream rsv dst rest) n
          (behind 2 e (omega arith)) (omega (arith, length-drop 2 buf))
        ∙ take-append methods (request_stream rsv dst rest) in
      let left : drop (2 + n) buf ++ joined_chunks cs ≡ request_stream rsv dst rest =
        behind (2 + n) e enough
        ∙ sym (drop-drop 2 n stream)
        ∙ drop-append methods (request_stream rsv dst rest) in
      rw (count, listed, offers)
        (Granted-after (5 ∷ 0 ∷ []) [] dst rest _
          (request-Granted decode rsv rest dst (drop (2 + n) buf) cs address left))

  -- If what the client sends is version 5, at most 255 methods with NO AUTH among them, and a
  -- well-formed CONNECT request, then in whatever chunks it comes the negotiation is granted: the
  -- one reply is NO AUTH, the destination is the request's own bytes, and no later byte is lost.
  pub handle_handshake-grants :
      (initial_chunk : List ℕ) (chunks : List (List ℕ))
      → Address dst
      → offers_no_auth methods ≡ true
      → length methods < 256
      → initial_chunk ++ joined_chunks chunks ≡ client_stream methods rsv dst rest
      → Granted
          ((5 ∷ 0 ∷ []) ∷ [])
          dst
          rest
          (handle_handshake decode true initial_chunk (map chunk chunks))
  unfolding handle_handshake
  handle_handshake-grants initial_chunk chunks address offers small e =
      let stream = client_stream methods rsv dst rest in
      let P = Granted ((5 ∷ 0 ∷ []) ∷ []) dst rest in
      filled P 2 initial_chunk chunks stream _ e (omega arith) (omega arith) (λ b cs e' enough.
        let at = λ (i : ℕ) (h : i < length b). byte_kept b (joined_chunks cs) stream i e' h in
        rw (at 0 (omega arith), at 1 enough)
          (filled P (2 + length methods) b cs stream _ e'
            (omega (arith, length-append methods (request_stream rsv dst rest))) (omega arith)
            (λ b' cs' e'' enough'. chosen b' cs' address offers e'' enough')))
