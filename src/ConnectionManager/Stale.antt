-- ===== src/ConnectionManager/Stale.antt =====
-- Connects that settle late: after a reset, and after the pool was closed.
use iwa_brook_quic.ConnectionManager.Pool.{shuts, is_ready, in_slot, pool_step, pool_run, close}
use iwa_brook_quic.ConnectionManager.Choice.{slot_at}
use iwa_brook_quic.Base.{
  zero, List, [], ◌∷◌, map, Bool, ℕ, suc, ◌≡◌, ◌∙◌, refl, ap, if◌then◌else◌, true, false, none,
  some, arith,
}
use iwa_brook_quic.Base.Table.{
  some_inj, has-lookup, number_eq, same, lookup, insert, delete, has, has-delete, has-insert,
  lookup-insert_same,
}
use iwa_brook_quic.ConnectionManager.{
  Manager, update_slot, Slot, disconnected, connecting, connected, is_usable, is_some, connect_slot,
  connect_ready, connect_failed, connect_rejected, reset_slot, close_slot, end_connect, holds,
}

-- A reset while the connect `a` is under way, the connect `b` after it, and then the end of `a`.
abbrev pub late_end : ℕ → ℕ → Slot → Slot
late_end a b s = connect_rejected a (connect_ready b (connect_slot b (reset_slot s)))

abbrev pub again : ℕ → Slot → Slot
again c s = connect_ready c (connect_slot c s)

starts :
    (c : ℕ) (s : Slot)
    → is_usable s ≡ false
    → s.has_connect_promise ≡ false
    → connect_slot c s ≡ record s {
      state = connecting;
      connect_abort_controller = some c;
      has_connect_promise = true;
      connects = insert c false s.connects;
    }
unfolding connect_slot
starts c s down free = rw (down, free, connect_slot) refl

is_there :
    (c : ℕ) (s : Slot)
    → lookup c s.connects ≡ some false
    → connect_ready c s
      ≡ end_connect c (record s {
        transport = some c;
        state = connected;
        lost = if is_some s.transport then suc s.lost else s.lost;
      })
unfolding connect_ready
is_there c s e = rw (e, connect_ready) refl

again_lost :
    (c : ℕ) (s : Slot)
    → is_usable s ≡ false
    → s.has_connect_promise ≡ false
    → (again c s).lost ≡ (if is_some s.transport then suc s.lost else s.lost)
again_lost c s down free =
    ap (λ t. (connect_ready c t).lost) (starts c s down free)
    ∙ ap (λ t. t.lost) (is_there c _ (lookup-insert_same c false s.connects))

again_transport :
    (c : ℕ) (s : Slot)
    → is_usable s ≡ false
    → s.has_connect_promise ≡ false
    → again c s ≡ record s {
      transport = some c;
      state = connected;
      has_connect_promise = false;
      connect_abort_controller = none;
      connects = delete c (insert c false s.connects);
      lost = if is_some s.transport then suc s.lost else s.lost;
    }
again_transport c s down free =
    ap (connect_ready c) (starts c s down free)
    ∙ is_there c _ (lookup-insert_same c false s.connects)

is_aborted :
    (a : ℕ) (s : Slot)
    → has a s.connects ≡ true
    → holds a s.transport ≡ false
    → connect_rejected a s ≡ end_connect a (record s { state = disconnected })
unfolding connect_rejected connect_failed
is_aborted a s e e' = rw (e, e', connect_rejected, connect_failed) refl

-- The connect that was aborted is still under way when the next one is over.
still_there :
    (a b : ℕ) (s : Slot)
    → same a b ≡ false
    → s.connect_abort_controller ≡ some a
    → has a (delete b (insert b false (reset_slot s).connects)) ≡ true
unfolding reset_slot
still_there a b s apart e = rw e (
    ground (
      arith,
      has-delete b a (insert b false (insert a true s.connects)),
      has-insert b a false (insert a true s.connects),
      has-insert a a true s.connects,
    ))

late_end_slot :
    (a b : ℕ) (s : Slot)
    → same a b ≡ false
    → same b a ≡ false
    → s.connect_abort_controller ≡ some a
    → late_end a b s
      ≡ end_connect a (record (reset_slot s) {
        transport = some b;
        state = disconnected;
        connects = delete b (insert b false (reset_slot s).connects);
      })
unfolding reset_slot
late_end_slot a b s ab ba e =
    ap (connect_rejected a) (again_transport b (reset_slot s) refl refl)
    ∙ is_aborted a _ (still_there a b s ab e) ba

-- Where a slot's session was reset during a connect and the slot was connected again: when the first
-- connect ends, the slot is marked disconnected although it has its new transport, and the connect that
-- follows overwrites this transport while it is open.
pub late_end-loses :
    (a b c : ℕ) (s : Slot)
    → same a b ≡ false
    → same b a ≡ false
    → s.connect_abort_controller ≡ some a
    → ((late_end a b s).transport ≡ some b)
      × (is_usable (late_end a b s) ≡ false)
      × ((again c (late_end a b s)).lost ≡ suc s.lost)
unfolding reset_slot
late_end-loses a b c s ab ba e =
    let is_slot = late_end_slot a b s ab ba e in
    (
      ap (λ t. t.transport) is_slot,
      ap is_usable is_slot,
      ap (λ t. (again c t).lost) is_slot ∙ again_lost c _ refl refl,
    )

close_slot-connect_ready :
    (a : ℕ) (s : Slot)
    → lookup a s.connects ≡ some false
    → is_usable (connect_ready a (close_slot s)) ≡ true
unfolding close_slot
close_slot-connect_ready a s e = ap is_usable (is_there a (close_slot s) e)

slot_at-map :
    (i : ℕ) (f : Slot → Slot) (slots : List Slot) (s : Slot)
    → slot_at i slots ≡ some s
    → slot_at i (map f slots) ≡ some (f s)
slot_at-map i f [] s e = cc
slot_at-map zero f (t ∷ slots) s e = ap (λ u. some (f u)) (some_inj t s e)
slot_at-map (suc i) f (t ∷ slots) s e = slot_at-map i f slots s e

slot_at-update_slot :
    (i : ℕ) (f : Slot → Slot) (slots : List Slot) (s : Slot)
    → slot_at i slots ≡ some s
    → slot_at i (update_slot i f slots) ≡ some (f s)
unfolding update_slot
slot_at-update_slot i f [] s e = cc
slot_at-update_slot zero f (t ∷ slots) s e = ap (λ u. some (f u)) (some_inj t s e)
slot_at-update_slot (suc i) f (t ∷ slots) s e = slot_at-update_slot i f slots s e

in_slot-slot_at :
    (i : ℕ) (test : Slot → Bool) (slots : List Slot) (s : Slot)
    → slot_at i slots ≡ some s
    → in_slot i test slots ≡ test s
in_slot-slot_at i test [] s e = cc
in_slot-slot_at zero test (t ∷ slots) s e = ap test (some_inj t s e)
in_slot-slot_at (suc i) test (t ∷ slots) s e = in_slot-slot_at i test slots s e

ready_at :
    (i a : ℕ) (m : Manager) (s : Slot)
    → slot_at i m.slots ≡ some s
    → has a s.connects ≡ true
    → (slot_at i (pool_step (is_ready i a) m).slots ≡ some (connect_ready a s))
      × ((pool_step (is_ready i a) m).is_closed ≡ m.is_closed)
unfolding pool_step
ready_at i a m s e there =
    let goes : in_slot i (λ t. has a t.connects) m.slots ≡ true =
      in_slot-slot_at i (λ t. has a t.connects) m.slots s e ∙ there in
    rw (goes, pool_step) (slot_at-update_slot i (connect_ready a) m.slots s e, refl)

-- A connect of a slot that is under way when the pool is closed, and is ready later: the pool is closed,
-- and the slot is connected, with a transport.
pub close-connect_ready :
    (i a : ℕ) (m : Manager) (s : Slot)
    → slot_at i m.slots ≡ some s
    → lookup a s.connects ≡ some false
    → ((pool_run (shuts ∷ is_ready i a ∷ []) m).is_closed ≡ true)
      × (t : Slot) × (slot_at i (pool_run (shuts ∷ is_ready i a ∷ []) m).slots ≡ some t)
      × (is_usable t ≡ true)
unfolding pool_run pool_step close close_slot
close-connect_ready i a m s e under_way =
    let (there, closed) =
      ready_at i a (pool_step shuts m) (close_slot s) (slot_at-map i close_slot m.slots s e)
        (has-lookup a s.connects false under_way) in
    (closed, connect_ready a (close_slot s), there, close_slot-connect_ready a s under_way)
