-- ===== src/Bridge/Reads.antt =====
-- The promises of `read` are settled in the order of the calls.
use iwa_brook_quic.Base.{
  ℕ, zero, suc, ◌+◌, ◌≡◌, ◌∙◌, ◌⊎◌, inl, inr, refl, sym, ap, subst, ltb, either_way, Bool, true,
  false, List, [], ◌∷◌, ◌++◌, length, All, append-nil, append_assoc,
}
use iwa_brook_quic.Bridge.{
  Bridge, Post, post, stream_error, stream_cancel, Entry, value, end, Settlement, gives, finishes,
  rejects, Event, client_data, client_fin, client_abort, reads, cancels, closes, posts, new_bridge,
  max_read_queue_bytes, settle_all, release, drop_inbound, abort_inbound, take_chunk, take_fin,
  shift_entry, on_client_data, on_client_fin, on_client_abort, read, cancel, step, run,
}

abbrev pub numbers : List (ℕ × Settlement) → List ℕ
numbers [] = []
numbers ((i, s) ∷ rest) = i ∷ numbers rest

-- 0, 1, ..., n - 1
abbrev pub upto : ℕ → List ℕ
upto zero = []
upto (suc n) = upto n ++ (n ∷ [])

numbers-append : (xs ys : List (ℕ × Settlement)) → numbers (xs ++ ys) ≡ numbers xs ++ numbers ys
numbers-append [] ys = refl
numbers-append ((i, s) ∷ xs) ys = ap (◌∷◌ i) (numbers-append xs ys)

numbers-settle_all : (s : Settlement) (is : List ℕ) → numbers (settle_all s is) ≡ is
numbers-settle_all s [] = refl
numbers-settle_all s (i ∷ is) = ap (◌∷◌ i) (numbers-settle_all s is)

-- The settled promises, then the waiting ones, are all the promises in order; and while one waits
-- the queue is empty and the bridge is open.
pub record InOrder (b : Bridge) : Type 0 where
  pub order : numbers b.settled ++ b.pending ≡ upto b.next_read
  pub waiting : (b.pending ≡ []) ⊎ (b.read_queue ≡ [])
  pub open_waits : b.is_closed ≡ true → b.pending ≡ []
  pub aborted_closed : b.is_aborted ≡ true → b.is_closed ≡ true

release_order :
    (s : Settlement) (settled : List (ℕ × Settlement)) (pending all : List ℕ)
    → numbers settled ++ pending ≡ all
    → numbers (settled ++ settle_all s pending) ++ [] ≡ all
release_order s settled pending all e =
    append-nil _
    ∙ numbers-append settled (settle_all s pending)
    ∙ ap (◌++◌ (numbers settled)) (numbers-settle_all s pending)
    ∙ e

-- The first waiting promise is settled.
first_order :
    (s : Settlement) (settled : List (ℕ × Settlement)) (i : ℕ) (is all : List ℕ)
    → numbers settled ++ (i ∷ is) ≡ all
    → numbers (settled ++ ((i, s) ∷ [])) ++ is ≡ all
first_order s settled i is all e =
    ap (λ xs. xs ++ is) (numbers-append settled ((i, s) ∷ []))
    ∙ append_assoc (numbers settled) (i ∷ []) is
    ∙ e

-- A call of `read` is answered at once, when none waits.
answered_order :
    (s : Settlement) (settled : List (ℕ × Settlement)) (n : ℕ) (pending : List ℕ)
    → pending ≡ []
    → numbers settled ++ pending ≡ upto n
    → numbers (settled ++ ((n, s) ∷ [])) ++ pending ≡ upto (suc n)
answered_order s settled n pending none_waits e =
    rw (none_waits, append-nil)
      (numbers-append settled ((n, s) ∷ [])
        ∙ ap (λ xs. xs ++ (n ∷ [])) (rw (none_waits, append-nil) at e))

-- The bridge ends here: whatever waits is settled.
released :
    (s : Settlement) (b : Bridge) (entries : List Entry) (closed aborted : Bool) (bytes : ℕ)
    → (aborted ≡ true → closed ≡ true)
    → InOrder b
    → InOrder (
        release s (record b {
          read_queue = entries;
          is_closed = closed;
          is_aborted = aborted;
          read_queue_bytes = bytes;
        }))
released s b entries closed aborted bytes ends h = record {
  order = release_order s b.settled b.pending (upto b.next_read) h.order;
  waiting = inl refl;
  open_waits = λ _. refl;
  aborted_closed = ends;
}

posted-InOrder : (message : Post) (b : Bridge) → InOrder b → InOrder (post message b)
posted-InOrder message b h = record {
  order = h.order;
  waiting = h.waiting;
  open_waits = h.open_waits;
  aborted_closed = h.aborted_closed;
}

drop_inbound-InOrder : (b : Bridge) → InOrder b → InOrder (drop_inbound b)
drop_inbound-InOrder b h = released rejects b [] true true 0 (λ e. e) h

take_chunk-InOrder :
    (chunk pending : List ℕ) (b : Bridge)
    → b.pending ≡ pending
    → b.is_closed ≡ false
    → InOrder b
    → InOrder (take_chunk chunk pending b)
take_chunk-InOrder chunk (i ∷ is) b e live h = record {
  order =
      first_order (gives chunk) b.settled i is (upto b.next_read)
        (subst (λ p. numbers b.settled ++ p ≡ upto b.next_read) e h.order);
  waiting = elim h.waiting [ inl w ↦ cc | inr w ↦ inr w ];
  open_waits = λ shut. cc;
  aborted_closed = h.aborted_closed;
}
take_chunk-InOrder chunk [] b e live h =
    either_way InOrder (ltb max_read_queue_bytes (b.read_queue_bytes + length chunk))
      (abort_inbound b) _
      (λ _.
        either_way InOrder b.is_closed b (post stream_error (drop_inbound b)) (λ _. h)
          (λ _. posted-InOrder stream_error (drop_inbound b) (drop_inbound-InOrder b h)))
      (λ _. record {
        order = h.order;
        waiting = inl e;
        open_waits = h.open_waits;
        aborted_closed = h.aborted_closed;
      })

take_fin-InOrder :
    (pending : List ℕ) (b : Bridge)
    → b.pending ≡ pending
    → InOrder b
    → InOrder (take_fin pending (record b { is_closed = true }))
take_fin-InOrder (i ∷ is) b e h =
    released finishes b b.read_queue true b.is_aborted b.read_queue_bytes (λ _. refl) h
take_fin-InOrder [] b e h = record {
  order = h.order;
  waiting = inl e;
  open_waits = λ _. e;
  aborted_closed = λ _. refl;
}

-- A queue with an entry in it has nobody waiting.
none_waits :
    (b : Bridge) (entry : Entry) (entries : List Entry)
    → b.read_queue ≡ entry ∷ entries
    → InOrder b
    → b.pending ≡ []
none_waits b entry entries e h = elim h.waiting [ inl w ↦ w | inr w ↦ absurd (cc) ]

shift_entry-InOrder :
    (queue : List Entry) (b : Bridge)
    → b.read_queue ≡ queue
    → b.is_aborted ≡ false
    → InOrder b
    → InOrder (shift_entry queue b)
shift_entry-InOrder (value chunk ∷ entries) b e live h =
    let w = none_waits b (value chunk) entries e h in
    record {
      order = answered_order (gives chunk) b.settled b.next_read b.pending w h.order;
      waiting = inl w;
      open_waits = λ _. w;
      aborted_closed = h.aborted_closed;
    }
shift_entry-InOrder (end ∷ entries) b e live h =
    let w = none_waits b end entries e h in
    record {
      order = answered_order finishes b.settled b.next_read b.pending w h.order;
      waiting = inl w;
      open_waits = λ _. w;
      aborted_closed = h.aborted_closed;
    }
shift_entry-InOrder [] b e live h =
    either_way InOrder b.is_closed _ _
      (λ shut. record {
        order = answered_order finishes b.settled b.next_read b.pending (h.open_waits shut) h.order;
        waiting = h.waiting;
        open_waits = h.open_waits;
        aborted_closed = h.aborted_closed;
      })
      (λ live_now. record {
        order =
            sym (append_assoc (numbers b.settled) b.pending (b.next_read ∷ []))
            ∙ ap (λ xs. xs ++ (b.next_read ∷ [])) h.order;
        waiting = inr e;
        open_waits = λ shut. cc;
        aborted_closed = h.aborted_closed;
      })

abbrev pub is_close : Event → Bool
is_close closes = true
is_close _ = false

pub step-InOrder :
    (event : Event) (b : Bridge) → is_close event ≡ false → InOrder b → InOrder (step event b)
unfolding step on_client_data on_client_fin on_client_abort read cancel
step-InOrder (client_data chunk) b e h =
    either_way InOrder b.is_closed b _ (λ _. h)
      (λ live. take_chunk-InOrder chunk b.pending b refl live h)
step-InOrder client_fin b e h =
    either_way InOrder b.is_closed b _ (λ _. h) (λ _. take_fin-InOrder b.pending b refl h)
step-InOrder client_abort b e h = drop_inbound-InOrder b h
step-InOrder reads b e h =
    either_way InOrder b.is_aborted _ _
      (λ over.
        let w = h.open_waits (h.aborted_closed over) in
        record {
          order = answered_order rejects b.settled b.next_read b.pending w h.order;
          waiting = h.waiting;
          open_waits = h.open_waits;
          aborted_closed = h.aborted_closed;
        })
      (λ live. shift_entry-InOrder b.read_queue b refl live h)
step-InOrder cancels b e h =
    posted-InOrder stream_cancel _
      (released finishes b b.read_queue true b.is_aborted b.read_queue_bytes (λ _. refl) h)
step-InOrder closes b e h = absurd (cc)
step-InOrder (posts message) b e h = posted-InOrder message b h

-- Whatever arrives on the port and however `read` and `cancel` are called, as long as the bridge is
-- not closed by `close`: the promises are settled in the order of the calls, those that still wait
-- are the latest ones, and while one waits the queue is empty and the bridge is open.
pub run-InOrder :
    (events : List Event) (b : Bridge)
    → All (λ event. is_close event ≡ false) events
    → InOrder b
    → InOrder (run events b)
unfolding run
run-InOrder [] b stays h = h
run-InOrder (event ∷ events) b stays h =
    run-InOrder events (step event b) stays.1 (step-InOrder event b stays.0 h)

pub new_bridge-InOrder : InOrder new_bridge
new_bridge-InOrder = record {
  order = refl;
  waiting = inl refl;
  open_waits = λ _. refl;
  aborted_closed = λ e. absurd (cc);
}
