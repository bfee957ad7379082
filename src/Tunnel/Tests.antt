-- ===== src/Tunnel/Tests.antt =====
-- A session of the tunnel on concrete bytes, and the tunnel's theorems there.
use iwa_brook_quic.Base.{
  ℕ, ◌≡◌, refl, true, false, Option, some, List, [], ◌∷◌, ◌++◌, replicate, ◌||◌, ◌⊎◌, arith,
}
use iwa_brook_quic.Framing.{seal_frame, assemble, open_length, open_payload}
use iwa_brook_quic.Framing.Tests.{plain_aead, zero_nonce, zero_nonce-IsNonce}
use iwa_brook_quic.Nonce.{next_nonce}
use iwa_brook_quic.Bytes.{set_at}
use iwa_brook_quic.Tunnel.State.{Options}
use iwa_brook_quic.Tunnel.Cleanup.{reset_idle_timer, cleanup, check_full_close}
use iwa_brook_quic.Tunnel.Decode.{
  end_of_item, leave_frames, finish_rx, settle_handshake, decode_payload, decode_length,
  decode_expected, decode_frames, take_item,
}
use iwa_brook_quic.Tunnel.Rx.{
  next_round, run_queue, settle, process_rx_queue, deliver, accept_key, resume_phase, resume_rx,
}
use iwa_brook_quic.Tunnel.Callbacks.{Event, data_arrives, rx_resumes, idle_expires, on_data, step}
use iwa_brook_quic.Tunnel.Queue.{Accounts}
use iwa_brook_quic.Tunnel.Upstream.Accounts.{run_from-Accounts}
use iwa_brook_quic.Tunnel.Decoder.{Decoder, IsStuck, awaiting_nonce, Runs}
use iwa_brook_quic.Tunnel.Outcome.{IsQuiet, Sealed, no_frames, one_more, joined_payloads}
use iwa_brook_quic.Tunnel.Upload.{slices}
use iwa_brook_quic.Tunnel.Upstream.{
  RunEvent, receives, resumes, reads, read_value, read_done, run_all, run_step, resume_up,
  client_read, after_read, send_leftover, send_chunks, leave_loop, next_client_read, finish_run,
  run_from,
}
use iwa_brook_quic.Tunnel.Upstream.Sent.{is_between_sends, run_from-Sealed, run_from-Runs}
use iwa_brook_quic.Tunnel.Upstream.Outcome.{
  accepted_from, run_from-Prefix, run_from_complete, run_from-delivers, run_from-chunking,
}

abbrev options : Options
options = record { has_send_success = true; has_send_failure = true; close_client_streams = true }

abbrev any_key : List ℕ → Option ℕ
any_key nonce = some 0

abbrev payload : List ℕ
payload = 7 ∷ 8 ∷ 9 ∷ []

-- A sealed length and a sealed payload.
abbrev wire : List ℕ
wire = 0 ∷ 3 ∷ replicate 16 0 ++ payload ++ replicate 16 0

-- Everything in one chunk, then the key, `sendSuccess`, the length, the payload and the write.
abbrev one_chunk : List Event
one_chunk =
    data_arrives (zero_nonce ++ wire) false
    ∷ rx_resumes true
    ∷ rx_resumes true
    ∷ rx_resumes true
    ∷ rx_resumes true
    ∷ rx_resumes true
    ∷ []

-- The nonce with the first byte of the frame, and the rest while the key is being derived.
abbrev two_chunks : List Event
two_chunks =
    data_arrives (zero_nonce ++ (0 ∷ [])) false
    ∷ data_arrives (3 ∷ replicate 16 0 ++ payload ++ replicate 16 0) false
    ∷ rx_resumes true
    ∷ rx_resumes true
    ∷ rx_resumes true
    ∷ rx_resumes true
    ∷ rx_resumes true
    ∷ []

abbrev header : List ℕ
header = 0 ∷ 0 ∷ 0 ∷ 2 ∷ 1 ∷ []

abbrev on_the_wire : List Event → List RunEvent
on_the_wire [] = []
on_the_wire (event ∷ events) = receives event ∷ on_the_wire events

-- `run` connects and sends its nonce and its header.
abbrev handshake_sent : List RunEvent → List RunEvent
handshake_sent events = resumes true ∷ resumes true ∷ resumes true ∷ events

-- The server's bytes come in one chunk; then a chunk of the client is read and sent.
abbrev one_chunk_run : List RunEvent
one_chunk_run =
    handshake_sent (
      on_the_wire one_chunk ++ (resumes true ∷ reads (read_value (4 ∷ 5 ∷ [])) ∷ resumes true ∷ []))

abbrev two_chunks_run : List RunEvent
two_chunks_run = handshake_sent (on_the_wire two_chunks)

one_chunk-IsQuiet :
    IsQuiet (run_from plain_aead any_key options 0 zero_nonce header [] one_chunk_run 0 0).rx
unfolding run_all run_step resume_up client_read after_read send_leftover send_chunks leave_loop
    next_client_read finish_run slices step on_data reset_idle_timer process_rx_queue run_queue
    next_round settle take_item decode_frames decode_expected decode_length decode_payload
    leave_frames end_of_item finish_rx resume_rx resume_phase accept_key settle_handshake deliver
    open_length open_payload cleanup check_full_close seal_frame assemble set_at
one_chunk-IsQuiet = record { at_rest = refl; alive = refl; drained = refl }

two_chunks-IsQuiet :
    IsQuiet (run_from plain_aead any_key options 0 zero_nonce header [] two_chunks_run 0 0).rx
unfolding run_all run_step resume_up client_read after_read send_leftover send_chunks leave_loop
    next_client_read finish_run slices step on_data reset_idle_timer process_rx_queue run_queue
    next_round settle take_item decode_frames decode_expected decode_length decode_payload
    leave_frames end_of_item finish_rx resume_rx resume_phase accept_key settle_handshake deliver
    open_length open_payload cleanup check_full_close seal_frame assemble set_at
two_chunks-IsQuiet = record { at_rest = refl; alive = refl; drained = refl }

one_chunk_accepted :
    accepted_from plain_aead any_key options 0 zero_nonce header [] one_chunk_run 0 0
    ≡ zero_nonce ++ (wire ++ [])
unfolding run_all run_step resume_up client_read after_read send_leftover send_chunks leave_loop
    next_client_read finish_run slices step on_data reset_idle_timer process_rx_queue run_queue
    next_round settle take_item decode_frames decode_expected decode_length decode_payload
    leave_frames end_of_item finish_rx resume_rx resume_phase accept_key settle_handshake deliver
    open_length open_payload cleanup check_full_close seal_frame assemble set_at
one_chunk_accepted = refl

same_accepted :
    accepted_from plain_aead any_key options 0 zero_nonce header [] one_chunk_run 0 0
    ≡ accepted_from plain_aead any_key options 0 zero_nonce header [] two_chunks_run 0 0
unfolding run_all run_step resume_up client_read after_read send_leftover send_chunks leave_loop
    next_client_read finish_run slices step on_data reset_idle_timer process_rx_queue run_queue
    next_round settle take_item decode_frames decode_expected decode_length decode_payload
    leave_frames end_of_item finish_rx resume_rx resume_phase accept_key settle_handshake deliver
    open_length open_payload cleanup check_full_close seal_frame assemble set_at
same_accepted = refl

between_sends :
    (is_between_sends
        (run_from plain_aead any_key options 0 zero_nonce header [] one_chunk_run 0 0).up_phase
      || (run_from plain_aead any_key options 0 zero_nonce header [] one_chunk_run 0 0).fin_sent)
    ≡ true
unfolding run_all run_step resume_up client_read after_read send_leftover send_chunks leave_loop
    next_client_read finish_run slices step on_data reset_idle_timer process_rx_queue run_queue
    next_round settle take_item decode_frames decode_expected decode_length decode_payload
    leave_frames end_of_item finish_rx resume_rx resume_phase accept_key settle_handshake deliver
    open_length open_payload cleanup check_full_close seal_frame assemble set_at
between_sends = refl

wire-Sealed : Sealed plain_aead 0 zero_nonce (payload ∷ []) (wire ++ [])
unfolding seal_frame assemble set_at
wire-Sealed = one_more {nonce' = next_nonce (next_nonce zero_nonce)} refl no_frames

run_from-Runs_example :
    (d : Decoder ℕ) × Runs plain_aead any_key awaiting_nonce
      (run_from plain_aead any_key options 0 zero_nonce header [] one_chunk_run 0 0).up.sent
      (header
        ++ ([]
            ++ (run_from plain_aead any_key options 0 zero_nonce header [] one_chunk_run 0
                0).consumed))
      d
      []
run_from-Runs_example =
    run_from-Runs plain_aead any_key options 0 zero_nonce header [] one_chunk_run 0 0 (omega arith)
      zero_nonce-IsNonce refl between_sends

run_from-Sealed_example :
    let r = run_from plain_aead any_key options 0 zero_nonce header [] one_chunk_run 0 0 in
    (r.up.sent ≡ [])
    ⊎ ((parts : List (List ℕ)) × (wire : List ℕ) × (more : List ℕ) × Sealed plain_aead 0 zero_nonce
          parts wire
        × (r.up.sent ≡ zero_nonce ++ wire)
        × (joined_payloads parts ++ more ≡ header ++ ([] ++ r.consumed)))
run_from-Sealed_example =
    run_from-Sealed plain_aead any_key options 0 zero_nonce header [] one_chunk_run 0 0
      (omega arith)

run_from-delivers_example :
    (run_from plain_aead any_key options 0 zero_nonce header [] one_chunk_run 0 0).rx.written
    ≡ joined_payloads (payload ∷ [])
run_from-delivers_example =
    run_from-delivers plain_aead any_key options 0 zero_nonce header [] one_chunk_run 0 0 0
      zero_nonce (wire ++ []) (payload ∷ []) zero_nonce-IsNonce refl wire-Sealed (omega arith, tt)
      one_chunk_accepted one_chunk-IsQuiet

run_from-chunking_example :
    (run_from plain_aead any_key options 0 zero_nonce header [] one_chunk_run 0 0).rx.written
    ≡ (run_from plain_aead any_key options 0 zero_nonce header [] two_chunks_run 0 0).rx.written
run_from-chunking_example =
    run_from-chunking plain_aead any_key options options 0 0 zero_nonce zero_nonce header header []
      [] 0 0 0 0 one_chunk_run two_chunks_run same_accepted one_chunk-IsQuiet two_chunks-IsQuiet

run_from_complete_example :
    (d : Decoder ℕ) × (rest : List ℕ) × Runs plain_aead any_key awaiting_nonce
      (accepted_from plain_aead any_key options 0 zero_nonce header [] one_chunk_run 0 0)
      (run_from plain_aead any_key options 0 zero_nonce header [] one_chunk_run 0 0).rx.written
      d
      rest
    × IsStuck d rest
run_from_complete_example =
    run_from_complete plain_aead any_key options 0 zero_nonce header [] one_chunk_run 0 0
      one_chunk-IsQuiet

-- The idle timer ends the tunnel with the payload still in the buffer.
abbrev cut_short : List Event
cut_short =
    data_arrives (zero_nonce ++ wire) false
    ∷ rx_resumes true
    ∷ rx_resumes true
    ∷ idle_expires
    ∷ rx_resumes true
    ∷ []

run_from-Prefix_example :
    let events = handshake_sent (on_the_wire cut_short) in
    (more : List ℕ) × (d : Decoder ℕ) × (rest : List ℕ) × Runs plain_aead any_key awaiting_nonce
      (accepted_from plain_aead any_key options 0 zero_nonce header [] events 0 0)
      ((run_from plain_aead any_key options 0 zero_nonce header [] events 0 0).rx.written ++ more)
      d
      rest
run_from-Prefix_example =
    run_from-Prefix plain_aead any_key options 0 zero_nonce header []
      (handshake_sent (on_the_wire cut_short)) 0 0

-- The client ends its side, and the run waits for the server's.
abbrev half_closed_run : List RunEvent
half_closed_run = one_chunk_run ++ (reads read_done ∷ resumes true ∷ [])

run_from-Accounts_example :
    Accounts 5 (run_from plain_aead any_key options 0 zero_nonce header [] half_closed_run 5 0).rx
run_from-Accounts_example =
    run_from-Accounts 5 plain_aead any_key options 0 zero_nonce header [] half_closed_run 0
