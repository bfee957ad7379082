-- ===== src/Socks5.antt =====
-- brook-quicclient/src/protocols/socks5-parser.js: the SOCKS5 negotiation and the CONNECT request.
-- The client's reads are a list of outcomes; a text is its list of UTF-16 code units.
pub mod Negotiation
pub mod Handshake
pub mod Replies
mod Tests
use iwa_brook_quic.Base.{
  ℕ, ◌+◌, ◌*◌, ltb, leb, ◌==◌, if◌then◌else◌, Bool, true, false, not, List, [], ◌∷◌, ◌++◌, length,
  take, drop, bit_or, ◌^◌,
}
use iwa_brook_quic.Bytes.{byte_at, read_uint16_be, to_radix}

-- What one turn of the loop in `ensureBytes` gets: a chunk, the end of the stream, a rejected read,
-- or the deadline, before the read or during it.
pub data Read : Type 0 where
  chunk : List ℕ → Read
  ends fails expires : Read

pub data Failure : Type 0 where
  buffer_exceeded timed_out disconnected read_failed bad_version no_acceptable_method : Failure
  write_failed bad_request_version unsupported_command empty_domain unsupported_atyp : Failure

pub data Outcome (A : Type 0) : Type 0 where
  done : A → Outcome A
  failed : Failure → Outcome A

pub record Request : Type 0 where
  pub dst_bytes : List ℕ
  pub target_str : List ℕ
  pub leftover : List ℕ
  pub unread : List Read

-- A buffer that is too short is filled by one read after the other; past the last read of the list
-- the client sends nothing more, and the deadline passes.
unfoldable pub ensure_bytes : ℕ → List ℕ → List Read → Outcome (List ℕ × List Read)
ensure_bytes min_len buf [] =
    if leb min_len (length buf)
    then done (buf, [])
    else if ltb 1024 (length buf)
    then failed buffer_exceeded
    else failed timed_out
ensure_bytes min_len buf (read ∷ reads) =
    let next : Outcome (List ℕ × List Read) = elim read [
      | chunk value ↦ ensure_bytes min_len (buf ++ value) reads
      | ends ↦ failed disconnected
      | fails ↦ failed read_failed
      | expires ↦ failed timed_out
    ] in
    if leb min_len (length buf)
    then done (buf, read ∷ reads)
    else if ltb 1024 (length buf)
    then failed buffer_exceeded
    else next

-- What was written to the client, and what became of the negotiation.
abbrev pub Reply : Type 0
Reply = List (List ℕ) × Outcome Request

abbrev pub on_bytes : Outcome (List ℕ × List Read) → (List ℕ → List Read → Reply) → Reply
on_bytes (done p) k = k p.0 p.1
on_bytes (failed e) k = ([], failed e)

abbrev pub after_writing : List ℕ → Reply → Reply
after_writing bytes (written, outcome) = (bytes ∷ written, outcome)

abbrev pub reply_bytes : ℕ → List ℕ
reply_bytes code = 5 ∷ code ∷ 0 ∷ 1 ∷ 0 ∷ 0 ∷ 0 ∷ 0 ∷ 0 ∷ 0 ∷ []

abbrev pub offers_no_auth : List ℕ → Bool
offers_no_auth [] = false
offers_no_auth (m ∷ ms) = if m == 0 then true else offers_no_auth ms

-- `formatIpv6` of byte-utils.js, and a port, in decimal
abbrev pub ipv6_word : List ℕ → ℕ → List ℕ
ipv6_word buf i = to_radix 16 (bit_or (byte_at buf i * 2 ^ 8) (byte_at buf (i + 1)))

abbrev pub format_ipv6 : List ℕ → ℕ → List ℕ
format_ipv6 buf offset =
    if ltb (length buf) (offset + 16)
    then []
    else ipv6_word buf offset
      ++ b':' ∷ ipv6_word buf (offset + 2)
      ++ b':' ∷ ipv6_word buf (offset + 4)
      ++ b':' ∷ ipv6_word buf (offset + 6)
      ++ b':' ∷ ipv6_word buf (offset + 8)
      ++ b':' ∷ ipv6_word buf (offset + 10)
      ++ b':' ∷ ipv6_word buf (offset + 12)
      ++ b':' ∷ ipv6_word buf (offset + 14)

abbrev pub port_str : List ℕ → ℕ → List ℕ
port_str buf at = b':' ∷ to_radix 10 (read_uint16_be buf at)

abbrev pub ipv4_target : List ℕ → List ℕ
ipv4_target buf =
    to_radix 10 (byte_at buf 4)
    ++ b'.' ∷ to_radix 10 (byte_at buf 5)
    ++ b'.' ∷ to_radix 10 (byte_at buf 6)
    ++ b'.' ∷ to_radix 10 (byte_at buf 7)
    ++ port_str buf 8

abbrev pub finish : ℕ → List ℕ → List ℕ → List Read → Reply
finish dst_addr_len target buf reads = (
  [],
  done (record {
    dst_bytes = take (1 + dst_addr_len + 2) (drop 3 buf);
    target_str = target;
    leftover = drop (4 + dst_addr_len + 2) buf;
    unread = reads;
  }),
)

-- `decode` is `TextDecoder.decode`.
module _ (decode : List ℕ → List ℕ) where
  unfoldable pub read_ipv4 : List ℕ → List Read → Reply
  read_ipv4 buf reads =
      on_bytes (ensure_bytes 10 buf reads) (λ buf reads. finish 4 (ipv4_target buf) buf reads)

  -- A domain name of so many bytes.
  unfoldable pub read_named : ℕ → List ℕ → List Read → Reply
  read_named domain_len buf reads =
      if domain_len == 0
      then ([], failed empty_domain)
      else on_bytes (ensure_bytes (4 + (1 + domain_len) + 2) buf reads) (λ buf reads.
        finish (1 + domain_len)
          (decode (take domain_len (drop 5 buf)) ++ port_str buf (4 + (1 + domain_len))) buf reads)

  unfoldable pub read_domain : List ℕ → List Read → Reply
  read_domain buf reads =
      on_bytes (ensure_bytes 5 buf reads) (λ buf reads. read_named (byte_at buf 4) buf reads)

  unfoldable pub read_ipv6 : List ℕ → List Read → Reply
  read_ipv6 buf reads =
      on_bytes (ensure_bytes 22 buf reads)
        (λ buf reads. finish 16 (b'[' ∷ format_ipv6 buf 4 ++ b']' ∷ port_str buf 20) buf reads)

  unfoldable pub read_address : ℕ → List ℕ → List Read → Reply
  read_address atyp buf reads =
      if atyp == 1
      then read_ipv4 buf reads
      else if atyp == 3
      then read_domain buf reads
      else if atyp == 4
      then read_ipv6 buf reads
      else (reply_bytes 8 ∷ [], failed unsupported_atyp)

  unfoldable pub read_request : List ℕ → List Read → Reply
  read_request buf reads = on_bytes (ensure_bytes 4 buf reads) (λ buf reads.
      if not (byte_at buf 0 == 5)
      then ([], failed bad_request_version)
      else if not (byte_at buf 1 == 1)
      then (reply_bytes 7 ∷ [], failed unsupported_command)
      else read_address (byte_at buf 3) buf reads)

  -- With the list of methods at hand; `is_writable` says whether the reply can be written.
  unfoldable pub choose_method : Bool → List ℕ → List Read → Reply
  choose_method is_writable buf reads =
      let n_methods = byte_at buf 1 in
      if not (offers_no_auth (take n_methods (drop 2 buf)))
      then ((5 ∷ 0xff ∷ []) ∷ [], failed no_acceptable_method)
      else if is_writable
      then after_writing (5 ∷ 0 ∷ []) (read_request (drop (2 + n_methods) buf) reads)
      else ([], failed write_failed)

  -- `handleHandshake`
  unfoldable pub handle_handshake : Bool → List ℕ → List Read → Reply
  handle_handshake is_writable initial_chunk reads =
      on_bytes (ensure_bytes 2 initial_chunk reads) (λ buf reads.
        if not (byte_at buf 0 == 5)
        then ([], failed bad_version)
        else on_bytes (ensure_bytes (2 + byte_at buf 1) buf reads)
            (λ buf reads. choose_method is_writable buf reads))

-- `sendSuccess` and `sendFailure`, on the flag `replySent` and what was written.
pub record Replier : Type 0 where
  pub reply_sent : Bool
  pub replies : List (List ℕ)

pub data Call : Type 0 where
  success : Call
  failure : ℕ → Call

unfoldable pub send : Call → Replier → Replier
send success r =
    if r.reply_sent
    then r
    else record { reply_sent = true; replies = r.replies ++ (reply_bytes 0 ∷ []) }
send (failure code) r =
    if r.reply_sent
    then r
    else record { reply_sent = true; replies = r.replies ++ (reply_bytes code ∷ []) }

unfoldable pub send_all : List Call → Replier → Replier
send_all [] r = r
send_all (call ∷ calls) r = send_all calls (send call r)
