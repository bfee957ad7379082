-- ===== src/HttpProxy.antt =====
-- brook-quicclient/src/protocols/http-proxy-parser.js: the reading of the request's headers and
-- the replies.
pub mod HeaderEnd
pub mod Reading
mod Tests
use iwa_brook_quic.Base.{
  ℕ, zero, suc, ◌+◌, ◌-◌, ltb, leb, ◌==◌, if◌then◌else◌, Bool, true, false, not, ◌&&◌, ◌||◌, Option,
  none, some, List, [], ◌∷◌, ◌++◌, length, take, drop,
}
use iwa_brook_quic.Socks5.{Read, chunk, ends, fails, expires}

abbrev pub starts_crlf : List ℕ → Bool
starts_crlf [] = false
starts_crlf (x ∷ []) = false
starts_crlf (x ∷ y ∷ xs) = x == 13 && y == 10

-- The loop of `findHeaderEnd`, from an index on; `none` is -1.
unfoldable pub header_end_from : ℕ → List ℕ → Option ℕ
header_end_from i [] = none
header_end_from i (x ∷ []) = none
header_end_from i (x ∷ y ∷ xs) =
    let rest = header_end_from (suc i) (y ∷ xs) in
    if x == 10 && y == 10
    then some (i + 2)
    else if x == 13 && y == 10 && starts_crlf xs
    then some (i + 4)
    else rest

unfoldable pub find_header_end : List ℕ → Option ℕ
find_header_end buf = header_end_from 0 buf

pub data HeaderFailure : Type 0 where
  too_large timed_out disconnected read_failed : HeaderFailure

-- The end of the loop: the length of the headers, the buffer and what is not read yet; or an error,
-- where only the first is told to the client.
pub data HeaderRead : Type 0 where
  found : ℕ → List ℕ → List Read → HeaderRead
  refused : HeaderFailure → HeaderRead

abbrev pub max_header_bytes : ℕ
max_header_bytes = 65536

-- One turn of the loop, with what the rest of it would come to.
abbrev pub header_turn : List ℕ → List Read → HeaderRead → HeaderRead
header_turn buf reads next = elim (find_header_end buf) [
  | some n ↦ found n buf reads
  | none ↦ if ltb max_header_bytes (length buf) then refused too_large else next
]

unfoldable pub read_headers : List ℕ → List Read → HeaderRead
read_headers buf [] = header_turn buf [] (refused timed_out)
read_headers buf (read ∷ reads) =
    let next : HeaderRead = elim read [
      | chunk value ↦ read_headers (buf ++ value) reads
      | ends ↦ refused disconnected
      | fails ↦ refused read_failed
      | expires ↦ refused timed_out
    ] in
    header_turn buf (read ∷ reads) next

-- What the loop writes to the client.
abbrev pub is_answered_431 : HeaderRead → Bool
is_answered_431 (refused too_large) = true
is_answered_431 _ = false

-- The bytes after the headers: for CONNECT, what is sent upstream first.
unfoldable pub connect_leftover : ℕ → List ℕ → List ℕ
connect_leftover header_bytes_len buf = drop header_bytes_len buf

-- The replies, by `isConnect` and the flag `replySent`.
pub data HttpReply : Type 0 where
  established : HttpReply
  failure_status : ℕ → Bool → HttpReply

pub record HttpReplier : Type 0 where
  pub reply_sent : Bool
  pub written : List HttpReply

unfoldable pub send_http_success : Bool → HttpReplier → HttpReplier
send_http_success is_connect r = if r.reply_sent then r else record {
  reply_sent = true;
  written = if is_connect then r.written ++ (established ∷ []) else r.written;
}

-- The flag of a failure says whether the text is `Gateway Timeout`.
unfoldable pub send_http_failure : ℕ → HttpReplier → HttpReplier
send_http_failure status_code r = if r.reply_sent then r else record {
  reply_sent = true;
  written = r.written ++ (failure_status status_code (status_code == 504) ∷ []);
}
