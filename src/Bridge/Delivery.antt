-- ===== src/Bridge/Delivery.antt =====
-- The bridge's deliveries through any sequence of messages and calls.
use iwa_brook_quic.Base.{
  ℕ, ◌≡◌, ◌∙◌, refl, sym, ap, subst, if◌then◌else◌, either_way, Bool, true, false, List, [], ◌∷◌,
  ◌++◌, All, append-nil, append_assoc,
}
use iwa_brook_quic.Bridge.{
  Bridge, stream_cancel, Entry, value, end, gives, finishes, rejects, Event, client_data,
  client_fin, client_abort, reads, cancels, closes, posts, new_bridge, take_chunk, take_fin,
  shift_entry, on_client_data, on_client_fin, on_client_abort, read, cancel, step, run,
}
use iwa_brook_quic.Bridge.Reads.{InOrder, is_close, step-InOrder, new_bridge-InOrder}
use iwa_brook_quic.Bridge.Bytes.{
  delivered, queued, accepted, received, Carries, taken, delivered-append, queued-append, no_data,
  drop_inbound-Carries, release-Carries, closed-Carries, posted-Carries, take_chunk-Carries,
}

take_fin-Carries :
    (pending seen : List ℕ) (b : Bridge) → Carries seen b → Carries seen (take_fin pending b)
take_fin-Carries (i ∷ is) seen b h = release-Carries seen b h
take_fin-Carries [] seen b h = record {
  lost = h.lost;
  data_in_order =
      ap (λ q. delivered b.settled ++ (q ++ h.lost))
        (queued-append b.read_queue (end ∷ []) ∙ append-nil (queued b.read_queue))
      ∙ h.data_in_order;
  whole = h.whole;
}

shift_entry-Carries :
    (queue : List Entry) (seen : List ℕ) (b : Bridge)
    → b.read_queue ≡ queue
    → Carries seen b
    → Carries seen (shift_entry queue b)
shift_entry-Carries (value chunk ∷ entries) seen b e h = record {
  lost = h.lost;
  data_in_order =
      ap (λ xs. xs ++ (queued entries ++ h.lost))
        (delivered-append b.settled ((b.next_read, gives chunk) ∷ [])
          ∙ ap (◌++◌ (delivered b.settled)) (append-nil chunk))
      ∙ append_assoc (delivered b.settled) chunk (queued entries ++ h.lost)
      ∙ ap (◌++◌ (delivered b.settled)) (sym (append_assoc chunk (queued entries) h.lost))
      ∙ subst (λ q. delivered b.settled ++ (queued q ++ h.lost) ≡ seen) e h.data_in_order;
  whole = h.whole;
}
shift_entry-Carries (end ∷ entries) seen b e h = record {
  lost = h.lost;
  data_in_order =
      ap (λ xs. xs ++ (queued entries ++ h.lost))
        (no_data b.settled ((b.next_read, finishes) ∷ []) refl)
      ∙ subst (λ q. delivered b.settled ++ (queued q ++ h.lost) ≡ seen) e h.data_in_order;
  whole = h.whole;
}
shift_entry-Carries [] seen b e h =
    either_way (Carries seen) b.is_closed _ _
      (λ _. record {
        lost = h.lost;
        data_in_order =
            ap (λ xs. xs ++ (queued b.read_queue ++ h.lost))
              (no_data b.settled ((b.next_read, finishes) ∷ []) refl)
            ∙ h.data_in_order;
        whole = h.whole;
      })
      (λ _. record { lost = h.lost; data_in_order = h.data_in_order; whole = h.whole })

step-Carries :
    (event : Event) (seen : List ℕ) (b : Bridge)
    → InOrder b
    → Carries seen b
    → Carries (seen ++ accepted event b) (step event b)
unfolding step on_client_data on_client_fin on_client_abort read cancel
step-Carries (client_data chunk) seen b o h = by_state b.is_closed refl
  where
    by_state :
        (closed : Bool)
        → b.is_closed ≡ closed
        → Carries
            (seen ++ (if closed then [] else taken chunk b.pending b))
            (if closed then b else take_chunk chunk b.pending b)
    by_state true e = rw append-nil h
    by_state false e = take_chunk-Carries chunk b.pending seen b refl e o h
step-Carries client_fin seen b o h = rw append-nil (
    either_way (Carries seen) b.is_closed b _ (λ _. h)
      (λ _.
        take_fin-Carries b.pending seen (record b { is_closed = true }) (closed-Carries seen b h)))
step-Carries client_abort seen b o h = rw append-nil (drop_inbound-Carries seen b h)
step-Carries reads seen b o h = rw append-nil (
    either_way (Carries seen) b.is_aborted _ _
      (λ _. record {
        lost = h.lost;
        data_in_order =
            ap (λ xs. xs ++ (queued b.read_queue ++ h.lost))
              (no_data b.settled ((b.next_read, rejects) ∷ []) refl)
            ∙ h.data_in_order;
        whole = h.whole;
      })
      (λ _. shift_entry-Carries b.read_queue seen b refl h))
step-Carries cancels seen b o h = rw append-nil (
    posted-Carries stream_cancel seen _
      (release-Carries seen (record b { is_closed = true }) (closed-Carries seen b h)))
step-Carries closes seen b o h = rw append-nil (closed-Carries seen b h)
step-Carries (posts message) seen b o h = rw append-nil (posted-Carries message seen b h)

run-Carries :
    (events : List Event) (seen : List ℕ) (b : Bridge)
    → All (λ event. is_close event ≡ false) events
    → InOrder b
    → Carries seen b
    → Carries (seen ++ received events b) (run events b)
unfolding run
run-Carries [] seen b stays o h = rw append-nil h
run-Carries (event ∷ events) seen b stays o h = rw append_assoc at (
    run-Carries events (seen ++ accepted event b) (step event b) stays.1
      (step-InOrder event b stays.0 o) (step-Carries event seen b o h))

-- On a new bridge that `close` is not called on, what the reads were given so far and then what the
-- queue holds are the accepted bytes in order; after an abort, they are a beginning of them.
pub run-new-Carries :
    (events : List Event)
    → All (λ event. is_close event ≡ false) events
    → Carries (received events new_bridge) (run events new_bridge)
run-new-Carries events stays =
    run-Carries events [] new_bridge stays new_bridge-InOrder
      (record { lost = []; data_in_order = refl; whole = λ _. refl })
