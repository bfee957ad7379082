-- ===== src/Tunnel/Upstream/Received.antt =====
-- The receive side within the whole run: the sending side touches it, too.
use iwa_brook_quic.Base.{ℕ, Bool, true, Option, List}
use iwa_brook_quic.Framing.{Aead}
use iwa_brook_quic.Tunnel.State.{
  Tunnel, Options, Phase, idle, deriving_key, sending_success, opening_length, opening_payload,
  writing, closing,
}
use iwa_brook_quic.Tunnel.Cleanup.{reset_idle_timer}
use iwa_brook_quic.Tunnel.Stream.{InPhase, Inv}
use iwa_brook_quic.Tunnel.Turns.{cleanup-Inv, check_full_close-Inv, aside-InPhase}
use iwa_brook_quic.Tunnel.Upstream.{UpPhase, ClientRead, Run, resume_up, client_read}
use iwa_brook_quic.Tunnel.Upstream.Rule.{resume_up-Kept, client_read-Kept}

module _ {K : Type 0} (aead : Aead K) (derive : List ℕ → Option K) (seen : List ℕ) where
  -- What the sending side notes down of the client plays no part either.
  client-InPhase :
      (phase : Phase K) (t : Tunnel K) (exchanged closed : Bool)
      → InPhase aead derive seen phase t
      → InPhase aead derive seen phase
          (record t { has_exchanged_data = exchanged; client_read_closed = closed })
  client-InPhase idle t b c h = h
  client-InPhase (deriving_key fin key) t b c h = h
  client-InPhase (sending_success fin) t b c h = h
  client-InPhase (opening_length fin r) t b c h = h
  client-InPhase (opening_payload fin r) t b c h = h
  client-InPhase (writing fin) t b c h = h
  client-InPhase closing t b c h = h

  pub client-Inv :
      (exchanged closed : Bool) (t : Tunnel K)
      → Inv aead derive seen t
      → Inv aead derive seen
          (record t { has_exchanged_data = exchanged; client_read_closed = closed })
  client-Inv b c t h = client-InPhase t.phase t b c h

  pub timer-Inv :
      (duration_ms : Option ℕ) (t : Tunnel K)
      → Inv aead derive seen t
      → Inv aead derive seen (reset_idle_timer duration_ms t)
  unfolding reset_idle_timer
  timer-Inv duration_ms t h = aside-InPhase aead derive seen t.phase t _ _ _ _ _ _ _ _ _ _ h

  abbrev pub RxInv : Run K → Type 0
  RxInv r = Inv aead derive seen r.rx

  armed-Inv :
      (t : Tunnel K)
      → Inv aead derive seen t
      → Inv aead derive seen (record t { handshake_timer = true })
  armed-Inv t h = aside-InPhase aead derive seen t.phase t _ _ _ _ _ _ _ _ _ _ h

  module _ (options : Options) (key : K) (nonce header leftover : List ℕ) where
    pub resume_up-RxInv :
        (is_done : Bool) (phase : UpPhase) (r : Run K)
        → RxInv r
        → RxInv (resume_up aead derive options key nonce header leftover is_done phase r)
    resume_up-RxInv =
        resume_up-Kept aead derive (Inv aead derive seen) (cleanup-Inv aead derive seen)
          (check_full_close-Inv aead derive seen) timer-Inv client-Inv armed-Inv options key nonce
          header leftover

    pub client_read-RxInv :
        (read : ClientRead) (phase : UpPhase) (r : Run K)
        → RxInv r
        → RxInv (client_read aead derive options key nonce header leftover read phase r)
    client_read-RxInv =
        client_read-Kept aead derive (Inv aead derive seen) (cleanup-Inv aead derive seen)
          (check_full_close-Inv aead derive seen) timer-Inv client-Inv armed-Inv options key nonce
          header leftover
