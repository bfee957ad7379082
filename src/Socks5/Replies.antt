-- ===== src/Socks5/Replies.antt =====
-- At most one reply to a CONNECT request, whatever is called and how often.
use iwa_brook_quic.Base.{ℕ, ◌≡◌, refl, true, false, List, [], ◌∷◌}
use iwa_brook_quic.Socks5.{Call, success, failure, send, send_all, reply_bytes}

abbrev pub code_of : Call → ℕ
code_of success = 0
code_of (failure code) = code

sent_all-kept :
    (calls : List Call) (replies : List (List ℕ))
    → send_all calls (record { reply_sent = true; replies = replies })
      ≡ record { reply_sent = true; replies = replies }
unfolding send_all send
sent_all-kept [] replies = refl
sent_all-kept (success ∷ calls) replies = sent_all-kept calls replies
sent_all-kept (failure code ∷ calls) replies = sent_all-kept calls replies

-- Of any sequence of `sendSuccess` and `sendFailure` calls, the first one is answered with its code
-- and no later one writes anything.
pub send_all-first :
    (call : Call) (calls : List Call)
    → send_all (call ∷ calls) (record { reply_sent = false; replies = [] })
      ≡ record { reply_sent = true; replies = reply_bytes (code_of call) ∷ [] }
unfolding send_all send
send_all-first success calls = sent_all-kept calls (reply_bytes 0 ∷ [])
send_all-first (failure code) calls = sent_all-kept calls (reply_bytes code ∷ [])
