-- ===== src/ConnectionManager/Choice.antt =====
-- The slot that a stream is asked of.
use iwa_brook_quic.Base.{
  ℕ, zero, suc, ◌+◌, ◌≤◌, ◌≡◌, ◌⊎◌, Bool, true, false, Option, none, some, List, [], ◌∷◌, length,
  All,
}
use iwa_brook_quic.ConnectionManager.{Slot, Manager, is_usable}
use iwa_brook_quic.ConnectionManager.Pool.{Creation, refuses, waits, asks_stream, load}

abbrev Among : ℕ × Slot → List (ℕ × Slot) → Type 0
Among y [] = ⊥
Among y (x ∷ xs) = (y ≡ x) ⊎ Among y xs

-- The head of the sorted list is the least of the list.
abbrev HasLeast : List (ℕ × Slot) → List (ℕ × Slot) → Type 0
HasLeast xs [] = xs ≡ []
HasLeast xs (y ∷ ys) = Among y xs × All (λ x. load y ≤ load x) xs

abbrev pub slot_at : ℕ → List Slot → Option Slot
slot_at i [] = none
slot_at zero (s ∷ slots) = some s
slot_at (suc i) (s ∷ slots) = slot_at i slots

-- A usable slot of the pool, at this index.
abbrev IsUsableAt : ℕ → ℕ × Slot → List Slot → Type 0
IsUsableAt k (i, s) slots =
    (is_usable s ≡ true) × ((j : ℕ) × (i ≡ j + k) × (slot_at j slots ≡ some s))

-- No usable slot has fewer streams than this one.
abbrev pub IsLeast : Slot → Slot → Type 0
IsLeast s s' = (is_usable s' ≡ false) ⊎ (length s.active_streams ≤ length s'.active_streams)

-- What a request for a stream on a slot, under an id, comes from.
abbrev pub IsChosen : List Slot → Creation → Type 0
IsChosen slots refuses = All (λ s. is_usable s ≡ false) slots
IsChosen slots waits = ⊥
IsChosen slots (asks_stream i id) =
    (s : Slot) × (slot_at i slots ≡ some s)
    × (is_usable s ≡ true)
    × (id ≡ s.next_stream_seq + 4)
    × All (IsLeast s) slots

-- What `createSession` comes to at once.
abbrev pub IsAsked : Bool → Manager → Creation → Type 0
IsAsked is_online m refuses =
    (m.is_closed ≡ true) ⊎ (is_online ≡ false) ⊎ All (λ s. is_usable s ≡ false) m.slots
IsAsked is_online m waits =
    (m.is_closed ≡ false) × (is_online ≡ true) × All (λ s. is_usable s ≡ false) m.slots
IsAsked is_online m (asks_stream i id) =
    (m.is_closed ≡ false) × (is_online ≡ true) × IsChosen m.slots (asks_stream i id)
