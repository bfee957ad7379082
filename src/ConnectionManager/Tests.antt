-- ===== src/ConnectionManager/Tests.antt =====
-- Runs of the pool.
use iwa_brook_quic.Base.{◌≡◌, refl, true, false, some, List, [], ◌∷◌, All}
use iwa_brook_quic.Base.Table.{number_eq, lookup}
use iwa_brook_quic.ConnectionManager.{Slot, new_slot, Manager, new_manager, is_usable}
use iwa_brook_quic.ConnectionManager.Pool.{
  PoolEvent, connects, creates, is_ready, is_ended, opens_stream, shuts, pool_run,
}
use iwa_brook_quic.ConnectionManager.Runs.{IsSettled, pool_run-IsSettled}
use iwa_brook_quic.ConnectionManager.Stale.{late_end, again, late_end-loses, close-connect_ready}
use iwa_brook_quic.ConnectionManager.Choice.{slot_at}

-- Both slots are connected, one has a stream, and the other's transport ends.
abbrev two_slots : List PoolEvent
two_slots =
    connects true
    ∷ is_ready 1 1
    ∷ is_ready 0 0
    ∷ creates true
    ∷ opens_stream 0 4
    ∷ is_ended 1 1
    ∷ []

pool_run-IsSettled_example : All IsSettled (pool_run two_slots (new_manager 2)).slots
pool_run-IsSettled_example =
    pool_run-IsSettled 2 two_slots (refl, (refl, (refl, (refl, (refl, (refl, tt))))))

abbrev one_up : Manager
one_up = pool_run two_slots (new_manager 2)

abbrev on_its_way : Slot
on_its_way = record (new_slot 0) {
  has_connect_promise = true;
  connect_abort_controller = some 7;
  connects = (7, false) ∷ [];
}

late_end-loses_example :
    ((late_end 7 8 on_its_way).transport ≡ some 8)
    × (is_usable (late_end 7 8 on_its_way) ≡ false)
    × ((again 9 (late_end 7 8 on_its_way)).lost ≡ 1)
late_end-loses_example = late_end-loses 7 8 9 on_its_way refl refl refl

found_seven : lookup 7 on_its_way.connects ≡ some false
unfolding lookup
found_seven = refl

abbrev one_slot : Manager
one_slot = record (new_manager 0) { slots = on_its_way ∷ [] }

close-connect_ready_example :
    ((pool_run (shuts ∷ is_ready 0 7 ∷ []) one_slot).is_closed ≡ true)
    × (t : Slot) × (slot_at 0 (pool_run (shuts ∷ is_ready 0 7 ∷ []) one_slot).slots ≡ some t)
    × (is_usable t ≡ true)
close-connect_ready_example = close-connect_ready 0 7 one_slot on_its_way refl found_seven
