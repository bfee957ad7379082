-- ===== src/Tunnel/Loop.antt =====
-- An invariant rule for the loop of `processRxQueue` over its queue.
use iwa_brook_quic.Base.{ℕ, ◌≡◌, refl, Bool, true, false, Option, List, [], ◌∷◌, if◌then◌else◌}
use iwa_brook_quic.Framing.{Aead}
use iwa_brook_quic.Tunnel.State.{Tunnel, Item}
use iwa_brook_quic.Tunnel.Decode.{
  Next, suspended, continued, returned, shift_item, finish_rx, take_item,
}
use iwa_brook_quic.Tunnel.Rx.{run_queue, next_round}

-- What a round owes: the result at an `await` or on leaving, the invariant where the loop goes on.
abbrev pub After :
    {K : Type 0}
    → (List Item → Tunnel K → Type 0)
    → (Tunnel K → Type 0)
    → List Item
    → Tunnel K × Next
    → Type 0
After I Q queue (t, suspended) = Q t
After I Q queue (t, continued) = I queue t
After I Q queue (t, returned) = Q (finish_rx t)

module _ {K : Type 0} (aead : Aead K) (derive : List ℕ → Option K)
    (I : List Item → Tunnel K → Type 0) (Q : Tunnel K → Type 0) where
  after_round :
      (queue : List Item) (p : Tunnel K × Next)
      → After I Q queue p
      → ((t : Tunnel K) → I queue t → Q (run_queue aead derive queue t))
      → Q (next_round p.1 p.0 (run_queue aead derive queue p.0))
  unfolding next_round
  after_round queue (t, suspended) h more = h
  after_round queue (t, continued) h more = more t h
  after_round queue (t, returned) h more = h

  by_test :
      (b : Bool) (t u : Tunnel K) → (b ≡ true → Q t) → (b ≡ false → Q u) → Q (if b then t else u)
  by_test true t u ht hu = ht refl
  by_test false t u ht hu = hu refl

  pub run_queue_rule :
      ((queue : List Item) (t : Tunnel K) → I queue t → Q (finish_rx t))
      → ((item : Item) (queue : List Item) (t : Tunnel K)
          → t.is_terminated ≡ false
          → I (item ∷ queue) t
          → After I Q queue (take_item aead derive item (shift_item item queue t)))
      → (queue : List Item) (t : Tunnel K) → I queue t
      → Q (run_queue aead derive queue t)
  unfolding run_queue
  run_queue_rule leave round [] t h = leave [] t h
  run_queue_rule leave round (item ∷ queue) t h =
      let p = take_item aead derive item (shift_item item queue t) in
      by_test t.is_terminated (finish_rx t) (next_round p.1 p.0 (run_queue aead derive queue p.0))
        (λ over. leave (item ∷ queue) t h)
        (λ running.
          after_round queue p (round item queue t running h) (run_queue_rule leave round queue))
