-- ===== src/Retry/Once.antt =====
-- The answer to the client and the flag for its data, over the calls of a tunnel's run.
use iwa_brook_quic.Base.{
  ℕ, ◌+◌, ◌≡◌, refl, either_way, Bool, true, false, ◌||◌, List, [], ◌∷◌, ◌++◌, length, arith,
}
use iwa_brook_quic.Retry.{
  TunnelCall, calls_success, calls_failure, reads_client_data, moves_bytes, calls_close, ProxyReply,
  success_reply, failure_reply, Contact, Wiring, reply_once, tunnel_call, tunnel_calls,
}

-- A reply was sent where the flag says so, and no other.
abbrev pub flag_count : Bool → ℕ
flag_count true = 1
flag_count false = 0

pub record IsOnce (c : Contact) : Type 0 where
  pub is_counted : length c.replies ≡ flag_count c.proxy_replied

length-snoc : {A : Type 0} (xs : List A) (x : A) → length (xs ++ (x ∷ [])) ≡ length xs + 1
length-snoc [] x = refl
length-snoc (y ∷ ys) x = ground (arith, length-snoc ys x)

counted :
    (reply : ProxyReply) (c : Contact)
    → IsOnce c
    → length (reply_once reply c).replies ≡ flag_count (reply_once reply c).proxy_replied
unfolding reply_once
counted reply c h = ground (arith, h.is_counted, length-snoc c.replies reply)

pub reply_once-IsOnce : (reply : ProxyReply) (c : Contact) → IsOnce c → IsOnce (reply_once reply c)
reply_once-IsOnce reply c h = record { is_counted = counted reply c h }

tunnel_call-IsOnce :
    (w : Wiring) (call : TunnelCall) (c : Contact) → IsOnce c → IsOnce (tunnel_call w call c)
unfolding tunnel_call
tunnel_call-IsOnce w calls_success c h = reply_once-IsOnce _ c h
tunnel_call-IsOnce w (calls_failure code) c h =
    either_way IsOnce w.send_failure (reply_once _ c) c (λ _. reply_once-IsOnce _ c h) (λ _. h)
tunnel_call-IsOnce w reads_client_data c h = record { is_counted = h.is_counted }
tunnel_call-IsOnce w (moves_bytes sent received) c h = record { is_counted = h.is_counted }
tunnel_call-IsOnce w calls_close c h =
    either_way IsOnce w.on_close (record c { is_session_open = false }) c
      (λ _. record { is_counted = h.is_counted }) (λ _. h)

pub tunnel_calls-IsOnce :
    (w : Wiring) (calls : List TunnelCall) (c : Contact)
    → IsOnce c
    → IsOnce (tunnel_calls w calls c)
unfolding tunnel_calls
tunnel_calls-IsOnce w [] c h = h
tunnel_calls-IsOnce w (call ∷ calls) c h =
    tunnel_calls-IsOnce w calls (tunnel_call w call c) (tunnel_call-IsOnce w call c h)

-- Whether the run took data from the client.
abbrev pub reads_data : List TunnelCall → Bool
reads_data [] = false
reads_data (reads_client_data ∷ calls) = true
reads_data (_ ∷ calls) = reads_data calls

reply_once-consumed :
    (reply : ProxyReply) (c : Contact)
    → (reply_once reply c).client_data_consumed ≡ c.client_data_consumed
unfolding reply_once
reply_once-consumed reply c = ground arith

abbrev takes_data : TunnelCall → Bool
takes_data reads_client_data = true
takes_data _ = false

tunnel_call-consumed :
    (w : Wiring) (call : TunnelCall) (c : Contact)
    → (tunnel_call w call c).client_data_consumed ≡ (c.client_data_consumed || takes_data call)
unfolding tunnel_call
tunnel_call-consumed w calls_success c = ground (arith, reply_once-consumed success_reply c)
tunnel_call-consumed w (calls_failure code) c =
    ground (arith, reply_once-consumed (failure_reply code) c)
tunnel_call-consumed w reads_client_data c = ground arith
tunnel_call-consumed w (moves_bytes sent received) c = ground arith
tunnel_call-consumed w calls_close c = ground arith

split_reads :
    (call : TunnelCall) (calls : List TunnelCall)
    → reads_data (call ∷ calls) ≡ (takes_data call || reads_data calls)
split_reads calls_success calls = refl
split_reads (calls_failure code) calls = refl
split_reads reads_client_data calls = refl
split_reads (moves_bytes sent received) calls = refl
split_reads calls_close calls = refl

pub tunnel_calls-consumed :
    (w : Wiring) (calls : List TunnelCall) (c : Contact)
    → (tunnel_calls w calls c).client_data_consumed ≡ (c.client_data_consumed || reads_data calls)
unfolding tunnel_calls
tunnel_calls-consumed w [] c = ground arith
tunnel_calls-consumed w (call ∷ calls) c = ground (
  arith,
  tunnel_calls-consumed w calls (tunnel_call w call c),
  tunnel_call-consumed w call c,
  split_reads call calls,
)
