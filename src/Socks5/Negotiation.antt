-- ===== src/Socks5/Negotiation.antt =====
-- A well-formed negotiation succeeds, however the client cuts it into chunks.
use iwa_brook_quic.Base.{
  ℕ, ◌+◌, ◌≤◌, ◌<◌, ◌≡◌, ◌∙◌, refl, sym, ap, subst, ltb, leb, ◌==◌, either_way, true, List, [], ◌∷◌,
  ◌++◌, length, take, drop, map, arith, append-nil, append_assoc, length-append, length-drop,
  take-append_le, drop-append_le, get_or-append_le, take-append, drop-append, drop-drop,
}
use iwa_brook_quic.Bytes.{byte_at}
use iwa_brook_quic.Socks5.{
  Read, chunk, Outcome, done, Request, Reply, ensure_bytes, on_bytes, finish, read_ipv4, read_named,
  read_domain, read_ipv6, read_address, read_request,
}

abbrev pub joined_chunks : List (List ℕ) → List ℕ
joined_chunks [] = []
joined_chunks (c ∷ cs) = c ++ joined_chunks cs

-- The buffer holds n bytes or more, and is with the unread chunks the stream.
pub record Holds (n : ℕ) (stream : List ℕ) (o : Outcome (List ℕ × List Read)) : Type 0 where
  pub buf : List ℕ
  pub rest : List (List ℕ)
  pub is_done : o ≡ done (buf, map chunk rest)
  pub is_stream : buf ++ joined_chunks rest ≡ stream
  pub is_enough : n ≤ length buf

ensure_bytes-Holds :
    (n : ℕ) (buf : List ℕ) (chunks : List (List ℕ)) (stream : List ℕ)
    → buf ++ joined_chunks chunks ≡ stream
    → n ≤ length stream
    → n ≤ 1024
    → Holds n stream (ensure_bytes n buf (map chunk chunks))
unfolding ensure_bytes
ensure_bytes-Holds n buf [] stream e fits small =
    let all : buf ≡ stream = sym (append-nil buf) ∙ e in
    let enough : n ≤ length buf = subst (λ s. n ≤ length s) (sym all) fits in
    let test : leb n (length buf) ≡ true = ground arith in
    record { buf = buf; rest = []; is_done = rw test; is_stream = e; is_enough = enough }
ensure_bytes-Holds n buf (c ∷ cs) stream e fits small =
    either_way (Holds n stream) (leb n (length buf)) (done (buf, chunk c ∷ map chunk cs)) _
      (λ enough. record {
        buf = buf;
        rest = c ∷ cs;
        is_done = refl;
        is_stream = e;
        is_enough = ground arith;
      })
      (λ short.
        either_way (Holds n stream) (ltb 1024 (length buf)) _ _ (λ over. absurd (ground arith))
          (λ _.
            ensure_bytes-Holds n (buf ++ c) cs stream (append_assoc buf c (joined_chunks cs) ∙ e)
              fits small))

-- A destination as Brook takes it: the type, the address, the port.
pub data Address : List ℕ → Type 0 where
  ipv4 : (a : List ℕ) → length a ≡ 6 → Address (1 ∷ a)
  domain : (len : ℕ) (a : List ℕ) → 0 < len → len < 256 → length a ≡ len + 2 → Address (3 ∷ len ∷ a)
  ipv6 : (a : List ℕ) → length a ≡ 18 → Address (4 ∷ a)

-- The request was granted: these bytes were written, this is the destination, and what the client
-- sends after it is all still there, in the leftover and the unread chunks.
pub record Granted (written : List (List ℕ)) (dst rest : List ℕ) (r : Reply) : Type 0 where
  pub request : Request
  pub unread_chunks : List (List ℕ)
  pub is_reply : r ≡ (written, done request)
  pub is_dst : request.dst_bytes ≡ dst
  pub is_unread : request.unread ≡ map chunk unread_chunks
  pub is_rest : request.leftover ++ joined_chunks unread_chunks ≡ rest

pub byte_kept :
    (buf more stream : List ℕ) (i : ℕ)
    → buf ++ more ≡ stream
    → i < length buf
    → byte_at buf i ≡ byte_at stream i
byte_kept buf more stream i e h = sym (get_or-append_le buf more i 0 h) ∙ ap (λ s. byte_at s i) e

pub drop_kept :
    (buf more stream : List ℕ) (n : ℕ)
    → buf ++ more ≡ stream
    → n ≤ length buf
    → drop n buf ++ more ≡ drop n stream
drop_kept buf more stream n e h = sym (drop-append_le n buf more h) ∙ ap (drop n) e

pub take_kept :
    (buf more stream : List ℕ) (n : ℕ)
    → buf ++ more ≡ stream
    → n ≤ length buf
    → take n buf ≡ take n stream
take_kept buf more stream n e h = sym (take-append_le n buf more h) ∙ ap (take n) e

-- A filled buffer goes on to the continuation.
pub filled :
    (P : Reply → Type 0) (n : ℕ) (buf : List ℕ) (chunks : List (List ℕ)) (stream : List ℕ)
    (k : List ℕ → List Read → Reply)
    → buf ++ joined_chunks chunks ≡ stream
    → n ≤ length stream
    → n ≤ 1024
    → ((b : List ℕ) (cs : List (List ℕ))
        → b ++ joined_chunks cs ≡ stream
        → n ≤ length b
        → P (k b (map chunk cs)))
    → P (on_bytes (ensure_bytes n buf (map chunk chunks)) k)
filled P n buf chunks stream k e fits small f =
    let h = ensure_bytes-Holds n buf chunks stream e fits small in
    subst (λ o. P (on_bytes o k)) (sym h.is_done) (f h.buf h.rest h.is_stream h.is_enough)

module _ (rsv : ℕ) (dst rest : List ℕ) where
  abbrev pub request_stream : List ℕ
  request_stream = 5 ∷ 1 ∷ rsv ∷ (dst ++ rest)

  finish-Granted :
      (len : ℕ) (target buf : List ℕ) (cs : List (List ℕ))
      → length dst ≡ 1 + len + 2
      → buf ++ joined_chunks cs ≡ request_stream
      → 4 + len + 2 ≤ length buf
      → Granted [] dst rest (finish len target buf (map chunk cs))
  finish-Granted len target buf cs size e enough =
      let m : ℕ = 1 + len + 2 in
      let front : take m (dst ++ rest) ≡ dst =
        subst (λ n. take n (dst ++ rest) ≡ dst) size (take-append dst rest) in
      let back : drop m (dst ++ rest) ≡ rest =
        subst (λ n. drop n (dst ++ rest) ≡ rest) size (drop-append dst rest) in
      record {
        request = _;
        unread_chunks = cs;
        is_reply = refl;
        is_dst =
            take_kept (drop 3 buf) (joined_chunks cs) (dst ++ rest) m
              (drop_kept buf (joined_chunks cs) request_stream 3 e (omega arith))
              (omega (arith, length-drop 3 buf))
            ∙ front;
        is_unread = refl;
        is_rest =
            drop_kept buf (joined_chunks cs) request_stream (4 + len + 2) e enough
            ∙ ap (λ n. drop n request_stream) (omega arith)
            ∙ sym (drop-drop 3 m request_stream)
            ∙ back;
      }

module _ (decode : List ℕ → List ℕ) (rsv : ℕ) (rest : List ℕ) where
  named-Granted :
      (len : ℕ) (a buf : List ℕ) (cs : List (List ℕ))
      → 0 < len
      → len < 256
      → length a ≡ len + 2
      → buf ++ joined_chunks cs ≡ request_stream rsv (3 ∷ len ∷ a) rest
      → Granted [] (3 ∷ len ∷ a) rest (read_named decode len buf (map chunk cs))
  unfolding read_named
  named-Granted len a buf cs some_bytes small size e =
      either_way (Granted [] (3 ∷ len ∷ a) rest) (len == 0) _ _ (λ empty. absurd (ground arith))
        (λ _.
          filled (Granted [] (3 ∷ len ∷ a) rest) (4 + (1 + len) + 2) buf cs
            (request_stream rsv (3 ∷ len ∷ a) rest) _ e (omega (arith, length-append a rest))
            (omega arith)
            (λ b ds e' enough.
              finish-Granted rsv (3 ∷ len ∷ a) rest (1 + len) _ b ds (omega arith) e' enough))

  Address-Granted :
      (dst buf : List ℕ) (cs : List (List ℕ))
      → Address dst
      → buf ++ joined_chunks cs ≡ request_stream rsv dst rest
      → Granted [] dst rest (read_address decode (byte_at dst 0) buf (map chunk cs))
  unfolding read_address read_ipv4 read_domain read_ipv6
  Address-Granted dst buf cs (ipv4 a size) e =
      filled (Granted [] dst rest) 10 buf cs (request_stream rsv dst rest) _ e
        (omega (arith, length-append a rest)) (omega arith)
        (λ b ds e' enough. finish-Granted rsv dst rest 4 _ b ds (omega arith) e' enough)
  Address-Granted dst buf cs (domain len a some_bytes small size) e =
      filled (Granted [] dst rest) 5 buf cs (request_stream rsv dst rest) _ e
        (omega (arith, length-append a rest)) (omega arith)
        (λ b ds e' enough.
          subst (λ k. Granted [] dst rest (read_named decode k b (map chunk ds)))
            (sym (byte_kept b (joined_chunks ds) (request_stream rsv dst rest) 4 e' enough))
            (named-Granted len a b ds some_bytes small size e'))
  Address-Granted dst buf cs (ipv6 a size) e =
      filled (Granted [] dst rest) 22 buf cs (request_stream rsv dst rest) _ e
        (omega (arith, length-append a rest)) (omega arith)
        (λ b ds e' enough. finish-Granted rsv dst rest 16 _ b ds (omega arith) e' enough)

  pub request-Granted :
      (dst buf : List ℕ) (cs : List (List ℕ))
      → Address dst
      → buf ++ joined_chunks cs ≡ request_stream rsv dst rest
      → Granted [] dst rest (read_request decode buf (map chunk cs))
  unfolding read_request
  request-Granted dst buf cs address e =
      filled (Granted [] dst rest) 4 buf cs (request_stream rsv dst rest) _ e
        (some_address dst address) (omega arith)
        (λ b ds e' enough.
          let at = λ (i : ℕ) (h : i < length b).
            byte_kept b (joined_chunks ds) (request_stream rsv dst rest) i e' h in
          rw (at 0 (omega arith), at 1 (omega arith), at 3 enough, first_byte dst address)
            (Address-Granted dst b ds address e'))
    where
      some_address : (d : List ℕ) → Address d → 4 ≤ length (request_stream rsv d rest)
      some_address d (ipv4 a size) = omega arith
      some_address d (domain len a some_bytes small size) = omega arith
      some_address d (ipv6 a size) = omega arith

      first_byte : (d : List ℕ) → Address d → byte_at (request_stream rsv d rest) 3 ≡ byte_at d 0
      first_byte d (ipv4 a size) = refl
      first_byte d (domain len a some_bytes small size) = refl
      first_byte d (ipv6 a size) = refl
