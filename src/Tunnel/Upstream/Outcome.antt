-- ===== src/Tunnel/Upstream/Outcome.antt =====
-- What the client is sent in a whole run, as a function of what the server sent.
use iwa_brook_quic.Base.{
  ℕ, ◌≡◌, Option, none, some, List, [], ◌∷◌, ◌++◌, length, All, ◌≤◌, arith, append-nil,
  append_assoc,
}
use iwa_brook_quic.Framing.{Aead}
use iwa_brook_quic.Tunnel.State.{Options, start}
use iwa_brook_quic.Tunnel.Decoder.{
  Decoder, awaiting_nonce, awaiting_length, Runs, Runs-unique, IsStuck,
}
use iwa_brook_quic.Tunnel.Stream.{view, unseen}
use iwa_brook_quic.Tunnel.Delivery.{InPhase-Prefix}
use iwa_brook_quic.Tunnel.Refinement.{accepted, step-Inv, start-Inv}
use iwa_brook_quic.Tunnel.Upstream.{
  RunEvent, receives, resumes, reads, Run, new_run, run_step, run_all, run_from,
}
use iwa_brook_quic.Nonce.Counter.{IsNonce}
use iwa_brook_quic.Tunnel.Outcome.{IsQuiet, Sealed, joined_payloads, quiet_Reads, framed-Runs}
use iwa_brook_quic.Tunnel.Upstream.Received.{RxInv, timer-Inv, resume_up-RxInv, client_read-RxInv}

-- The bytes that `onData` takes in a turn.
abbrev pub run_accepted : {K : Type 0} → RunEvent → Run K → List ℕ
run_accepted (receives event) r = accepted event r.rx
run_accepted _ r = []

module _ {K : Type 0} (aead : Aead K) (derive : List ℕ → Option K) (options : Options) (key : K)
    (nonce header leftover : List ℕ) where
  abbrev pub run_received : List RunEvent → Run K → List ℕ
  run_received [] r = []
  run_received (event ∷ events) r =
      run_accepted event r
      ++ run_received events (run_step aead derive options key nonce header leftover event r)

  abbrev pub accepted_from : List RunEvent → ℕ → ℕ → List ℕ
  accepted_from events metrics upload_pending =
      run_received events (new_run nonce metrics upload_pending)

  run_step-RxInv :
      (event : RunEvent) (seen : List ℕ) (r : Run K)
      → RxInv aead derive seen r
      → RxInv aead derive
          (seen ++ run_accepted event r)
          (run_step aead derive options key nonce header leftover event r)
  unfolding run_step
  run_step-RxInv (receives event) seen r h = step-Inv aead derive options event seen r.rx h
  run_step-RxInv (resumes is_done) seen r h =
      rw append-nil
        (resume_up-RxInv aead derive seen options key nonce header leftover is_done r.up_phase r h)
  run_step-RxInv (reads read) seen r h =
      rw append-nil
        (client_read-RxInv aead derive seen options key nonce header leftover read r.up_phase r h)

  run_all-RxInv :
      (events : List RunEvent) (seen : List ℕ) (r : Run K)
      → RxInv aead derive seen r
      → RxInv aead derive
          (seen ++ run_received events r)
          (run_all aead derive options key nonce header leftover events r)
  unfolding run_all
  run_all-RxInv [] seen r h = rw append-nil h
  run_all-RxInv (event ∷ events) seen r h = rw append_assoc at (
      run_all-RxInv events (seen ++ run_accepted event r)
        (run_step aead derive options key nonce header leftover event r)
        (run_step-RxInv event seen r h))

  run_from-RxInv :
      (events : List RunEvent) (metrics upload_pending : ℕ)
      → RxInv aead derive
          (accepted_from events metrics upload_pending)
          (run_from aead derive options key nonce header leftover events metrics upload_pending)
  run_from-RxInv events metrics upload_pending =
      run_all-RxInv events [] (new_run nonce metrics upload_pending)
        (timer-Inv aead derive [] none (start metrics) (start-Inv aead derive options metrics))

  -- Whatever happens in the whole run, in whatever order, the bytes written to the client are a
  -- beginning of what the decoder writes when it is run on the bytes that `onData` accepted.
  pub run_from-Prefix :
      (events : List RunEvent) (metrics upload_pending : ℕ)
      → let r =
          run_from aead derive options key nonce header leftover events metrics upload_pending in
        (more : List ℕ) × (d : Decoder K) × (rest : List ℕ) × Runs aead derive awaiting_nonce
          (accepted_from events metrics upload_pending)
          (r.rx.written ++ more)
          d
          rest
  run_from-Prefix events metrics upload_pending =
      let r =
        run_from aead derive options key nonce header leftover events metrics upload_pending in
      InPhase-Prefix aead derive (accepted_from events metrics upload_pending) r.rx.phase r.rx
        (run_from-RxInv events metrics upload_pending)

  -- In a whole run, a live tunnel whose receive loop has come to rest has written all that the
  -- decoder makes of the accepted bytes, and the decoder has too few of them left to go on.
  pub run_from_complete :
      (events : List RunEvent) (metrics upload_pending : ℕ)
      → IsQuiet
          (run_from aead derive options key nonce header leftover events metrics upload_pending).rx
      → (d : Decoder K) × (rest : List ℕ) × Runs aead derive awaiting_nonce
          (accepted_from events metrics upload_pending)
          (run_from aead derive options key nonce header leftover events metrics
            upload_pending).rx.written
          d
          rest
        × IsStuck d rest
  run_from_complete events metrics upload_pending quiet =
      let t =
        (run_from aead derive options key nonce header leftover events metrics upload_pending).rx in
      let (r, stuck) =
        quiet_Reads aead derive (accepted_from events metrics upload_pending) t
          (run_from-RxInv events metrics upload_pending) quiet in
      (view t, unseen t, r, stuck)

  -- If the bytes accepted in a whole run are a nonce whose key can be derived and the frames of some
  -- payloads of at most 65519 bytes each, sealed in order from that nonce, then a live tunnel at rest
  -- has written exactly the payloads, in order.
  pub run_from-delivers :
      (events : List RunEvent) (metrics upload_pending : ℕ) (server_key : K)
      (server_nonce wire : List ℕ) (payloads : List (List ℕ))
      → IsNonce server_nonce
      → derive server_nonce ≡ some server_key
      → Sealed aead server_key server_nonce payloads wire
      → All (λ payload. length payload ≤ 65519) payloads
      → accepted_from events metrics upload_pending ≡ server_nonce ++ wire
      → IsQuiet
          (run_from aead derive options key nonce header leftover events metrics upload_pending).rx
      → (run_from aead derive options key nonce header leftover events metrics
          upload_pending).rx.written
        ≡ joined_payloads payloads
  run_from-delivers events metrics upload_pending server_key server_nonce wire payloads shape
        derives sealed small same quiet =
      let (d, rest, r, stuck) = run_from_complete events metrics upload_pending quiet in
      let (last, whole) = framed-Runs aead derive server_key shape derives sealed small in
      let empty_stuck : IsStuck (awaiting_length server_key last) [] = λ n e. ground arith in
      Runs-unique aead derive whole empty_stuck (rw same at r) stuck

module _ {K : Type 0} (aead : Aead K) (derive : List ℕ → Option K) (options options' : Options)
    (key key' : K) (nonce nonce' header header' leftover leftover' : List ℕ) where
  -- Two whole runs that accepted the same bytes, in whatever chunks, whatever was sent and whatever
  -- else came in between, and that are both alive and at rest, have written the same.
  pub run_from-chunking :
      (metrics metrics' upload_pending upload_pending' : ℕ) (events events' : List RunEvent)
      → accepted_from aead derive options key nonce header leftover events metrics upload_pending
        ≡ accepted_from aead derive options' key' nonce' header' leftover' events' metrics'
            upload_pending'
      → IsQuiet
          (run_from aead derive options key nonce header leftover events metrics upload_pending).rx
      → IsQuiet
          (run_from aead derive options' key' nonce' header' leftover' events' metrics'
            upload_pending').rx
      → (run_from aead derive options key nonce header leftover events metrics
          upload_pending).rx.written
        ≡ (run_from aead derive options' key' nonce' header' leftover' events' metrics'
            upload_pending').rx.written
  run_from-chunking metrics metrics' upload_pending upload_pending' events events' same quiet
        quiet' =
      let (d, rest, r, stuck) =
        run_from_complete aead derive options key nonce header leftover events metrics
          upload_pending quiet in
      let (d', rest', r', stuck') =
        run_from_complete aead derive options' key' nonce' header' leftover' events' metrics'
          upload_pending' quiet' in
      Runs-unique aead derive r' stuck' (rw same at r) stuck
