-- ===== src/ConnectionManager/Slots.antt =====
-- The invariant of a slot, and the steps of a slot.
use iwa_brook_quic.Base.{
  ℕ, zero, suc, ◌+◌, ◌≤◌, ◌≡◌, ◌∙◌, refl, sym, ap, if◌then◌else◌, either_way, Bool-cases,
  Option-cases, inl, inr, Bool, true, false, not, ◌&&◌, Option, none, some, List, [], ◌∷◌, length,
  map, All, arith, absurd,
}
use iwa_brook_quic.Base.Table.{
  number_eq, lookup, delete, has, length-delete_lt, length-insert, has-lookup,
}
use iwa_brook_quic.ConnectionManager.{
  Slot, disconnected, is_some, is_state_connected, is_usable, connect_slot, connect_ready,
  connect_failed, connect_rejected, transport_closed, stream_failed, holds, Manager, update_slot,
  is_state_disconnected,
}
use iwa_brook_quic.ConnectionManager.Pool.{
  reconnect, connect_all, choose_slot, sort_by_load, usable_from, next_stream, Creation, refuses,
  asks_stream,
}

apart : true ≡ false → ⊥
apart e = cc

-- The slot is connected where it has a transport; at most one connect is under way, with a promise
-- and while there is no transport; and no open transport was overwritten.
pub record IsConsistent (s : Slot) : Type 0 where
  pub in_step : is_state_connected s.state ≡ is_some s.transport
  pub single : length s.connects ≤ 1
  pub promised : s.has_connect_promise ≡ false → length s.connects ≡ 0
  pub alone : is_some s.transport ≡ true → length s.connects ≡ 0
  pub kept : s.lost ≡ 0

no_transport : (s : Slot) → IsConsistent s → is_usable s ≡ false → is_some s.transport ≡ false
no_transport s h down = ground (arith, h.in_step)

-- While a connect is under way.
busy :
    (name : ℕ) (s : Slot)
    → IsConsistent s
    → has name s.connects ≡ true
    → (is_some s.transport ≡ false) × (length (delete name s.connects) ≡ 0)
busy name s h there =
    let fewer = length-delete_lt name s.connects there in
    (
      elim (Bool-cases (is_some s.transport)) [
        | inl e ↦ absurd (omega (arith, fewer, h.alone e))
        | inr e ↦ e
      ],
      omega (arith, fewer, h.single),
    )

pub connect_slot-IsConsistent :
    (name : ℕ) (s : Slot) → IsConsistent s → IsConsistent (connect_slot name s)
unfolding connect_slot
connect_slot-IsConsistent name s h =
    either_way IsConsistent (is_usable s) s _ (λ _. h)
      (λ down.
        either_way IsConsistent s.has_connect_promise s _ (λ _. h)
          (λ free.
            let none_there = no_transport s h down in
            record {
              in_step = sym none_there;
              single = omega (arith, length-insert name false s.connects, h.promised free);
              promised = λ e. absurd (apart e);
              alone = λ e. absurd (apart (sym e ∙ none_there));
              kept = h.kept;
            }))

dropped :
    (name : ℕ) (held : Option ℕ)
    → is_some held ≡ false
    → (if holds name held then none else held) ≡ none
dropped name none e = refl
dropped name (some n) e = absurd (apart e)

connect_failed-IsConsistent :
    (name : ℕ) (s : Slot)
    → IsConsistent s
    → has name s.connects ≡ true
    → IsConsistent (connect_failed name s)
unfolding connect_failed
connect_failed-IsConsistent name s h there =
    let (none_there, over) = busy name s h there in
    record {
      in_step = sym (ap is_some (dropped name s.transport none_there));
      single = omega (arith, over);
      promised = λ _. over;
      alone = λ _. over;
      kept = h.kept;
    }

pub connect_ready-IsConsistent :
    (name : ℕ) (s : Slot) → IsConsistent s → IsConsistent (connect_ready name s)
unfolding connect_ready
connect_ready-IsConsistent name s h = elim (Option-cases (lookup name s.connects)) [
  | inl e ↦ rw (e, connect_ready) h
  | inr (true, e) ↦
      rw (e, connect_ready)
        (connect_failed-IsConsistent name s h (has-lookup name s.connects true e))
  | inr (false, e) ↦
      let (none_there, over) = busy name s h (has-lookup name s.connects false e) in
      rw (e, connect_ready)
        (record {
          in_step = refl;
          single = omega (arith, over);
          promised = λ _. over;
          alone = λ _. over;
          kept = ap (λ b. if b then suc s.lost else s.lost) none_there ∙ h.kept;
        })
]

pub connect_rejected-IsConsistent :
    (name : ℕ) (s : Slot) → IsConsistent s → IsConsistent (connect_rejected name s)
unfolding connect_rejected
connect_rejected-IsConsistent name s h =
    either_way IsConsistent (has name s.connects) (connect_failed name s) s
      (connect_failed-IsConsistent name s h) (λ _. h)

-- The transport goes away.
pub without_transport :
    (s : Slot) → IsConsistent s → IsConsistent (record s { transport = none; state = disconnected })
without_transport s h = record {
  in_step = refl;
  single = h.single;
  promised = h.promised;
  alone = λ e. absurd (apart (sym e));
  kept = h.kept;
}

pub transport_closed-IsConsistent :
    (name : ℕ) (s : Slot) → IsConsistent s → IsConsistent (transport_closed name s)
unfolding transport_closed
transport_closed-IsConsistent name s h =
    either_way IsConsistent (holds name s.transport) _ s (λ _. without_transport s h) (λ _. h)

pub stream_failed-IsConsistent :
    (is_fatal : Bool) (s : Slot) → IsConsistent s → IsConsistent (stream_failed is_fatal s)
unfolding stream_failed
stream_failed-IsConsistent is_fatal s h =
    either_way IsConsistent (is_fatal && is_some s.transport) _ s (λ _. without_transport s h)
      (λ _. h)

-- A change of other fields.
pub same_connection :
    (s s' : Slot)
    → s'.state ≡ s.state
    → s'.transport ≡ s.transport
    → s'.connects ≡ s.connects
    → s'.has_connect_promise ≡ s.has_connect_promise
    → s'.lost ≡ s.lost
    → IsConsistent s
    → IsConsistent s'
same_connection s s' a b c d e h = record {
  in_step = rw (a, b) h.in_step;
  single = rw c h.single;
  promised = λ free. rw c (h.promised (sym d ∙ free));
  alone = λ there. rw c (h.alone (sym (ap is_some b) ∙ there));
  kept = e ∙ h.kept;
}

pub update_slot-All :
    (i : ℕ) (f : Slot → Slot) (slots : List Slot)
    → ((s : Slot) → IsConsistent s → IsConsistent (f s))
    → All IsConsistent slots
    → All IsConsistent (update_slot i f slots)
unfolding update_slot
update_slot-All i f [] keeps h = tt
update_slot-All zero f (s ∷ slots) keeps h = (keeps s h.0, h.1)
update_slot-All (suc i) f (s ∷ slots) keeps h = (h.0, update_slot-All i f slots keeps h.1)

pub map-All :
    (f : Slot → Slot) (slots : List Slot)
    → ((s : Slot) → IsConsistent s → IsConsistent (f s))
    → All IsConsistent slots
    → All IsConsistent (map f slots)
map-All f [] keeps h = tt
map-All f (s ∷ slots) keeps h = (keeps s h.0, map-All f slots keeps h.1)

pub reconnect-All :
    (name : ℕ) (slots : List Slot)
    → All IsConsistent slots
    → All IsConsistent (reconnect name slots)
unfolding reconnect
reconnect-All name [] h = tt
reconnect-All name (s ∷ slots) h = (
  either_way IsConsistent (is_state_disconnected s.state && not s.has_connect_promise)
      (connect_slot name s) s (λ _. connect_slot-IsConsistent name s h.0) (λ _. h.0),
  reconnect-All (suc name) slots h.1,
)

pub connect_all-All :
    (name : ℕ) (slots : List Slot)
    → All IsConsistent slots
    → All IsConsistent (connect_all name slots)
unfolding connect_all
connect_all-All name [] h = tt
connect_all-All name (s ∷ slots) h =
    (connect_slot-IsConsistent name s h.0, connect_all-All (suc name) slots h.1)

pub choose_slot-All :
    (m : Manager) → All IsConsistent m.slots → All IsConsistent (choose_slot m).0.slots
unfolding choose_slot
choose_slot-All m h = go (sort_by_load (usable_from 0 m.slots))
  where
    go :
        (sorted : List (ℕ × Slot))
        → All IsConsistent
            (elim sorted as (λ _. Manager × Creation) [
              | [] ↦ (m, refuses)
              | (i, s) ∷ _ ↦ (
                record m {
                  slots = update_slot i next_stream (reconnect m.next_transport m.slots);
                  next_transport = m.next_transport + length m.slots;
                },
                asks_stream i (s.next_stream_seq + 4),
              )
            ]).0.slots
    go [] = h
    go ((i, s) ∷ _) =
        update_slot-All i next_stream _
          (λ s' h'. same_connection s' (next_stream s') refl refl refl refl refl h')
          (reconnect-All m.next_transport m.slots h)
