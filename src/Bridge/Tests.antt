-- ===== src/Bridge/Tests.antt =====
-- Runs of the bridge, and its theorems on a concrete sequence of messages and calls.
use iwa_brook_quic.Base.{◌≡◌, refl, false, List, [], ◌∷◌, All}
use iwa_brook_quic.Bridge.{
  gives, finishes, Event, client_data, client_fin, reads, new_bridge, on_client_data, on_client_fin,
  read, step, run,
}
use iwa_brook_quic.Bridge.Reads.{InOrder, is_close, run-InOrder, new_bridge-InOrder}
use iwa_brook_quic.Bridge.Bytes.{received, Carries}
use iwa_brook_quic.Bridge.Delivery.{run-new-Carries}
use iwa_brook_quic.Bridge.Bounds.{IsBounded, run-new-IsBounded}

-- A read that waits, two chunks, a read from the queue, the end, and two more reads.
abbrev session : List Event
session =
    reads
    ∷ client_data (1 ∷ 2 ∷ [])
    ∷ client_data (3 ∷ [])
    ∷ reads
    ∷ client_fin
    ∷ reads
    ∷ reads
    ∷ []

session_result :
    (run session new_bridge).settled
    ≡ (0, gives (1 ∷ 2 ∷ [])) ∷ (1, gives (3 ∷ [])) ∷ (2, finishes) ∷ (3, finishes) ∷ []
unfolding run step on_client_data on_client_fin read
session_result = refl

session_stays : All (λ event. is_close event ≡ false) session
session_stays = (refl, (refl, (refl, (refl, (refl, (refl, (refl, tt)))))))

run-InOrder_example : InOrder (run session new_bridge)
run-InOrder_example = run-InOrder session new_bridge session_stays new_bridge-InOrder

run-new-Carries_example : Carries (received session new_bridge) (run session new_bridge)
run-new-Carries_example = run-new-Carries session session_stays

run-new-IsBounded_example : IsBounded (run session new_bridge)
run-new-IsBounded_example = run-new-IsBounded session
