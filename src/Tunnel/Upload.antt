-- ===== src/Tunnel/Upload.antt =====
-- The upstream loop of `BrookTunnel.run`, for the bytes of one read of the client.
use iwa_brook_quic.Base.{
  ℕ, zero, suc, ◌≤◌, ◌≡◌, ◌∙◌, refl, ap, List, [], ◌∷◌, ◌++◌, length, take, drop, All, arith,
  take-append-drop, length-take, length-drop,
}
use iwa_brook_quic.Tunnel.Outcome.{joined_payloads}

pub record Upload : Type 0 where
  pub client_nonce : List ℕ
  pub sent : List ℕ
  pub total_bytes_sent : ℕ
  pub upload_pending_bytes : ℕ

abbrev pub chunk_size : ℕ
chunk_size = 32768

-- The `subarray`s of the loop: each round takes at least a byte, so as many rounds as there are bytes
-- are enough.
slices_from : ℕ → List ℕ → List (List ℕ)
slices_from zero value = []
slices_from (suc fuel) [] = []
slices_from (suc fuel) (b ∷ value) =
    take chunk_size (b ∷ value) ∷ slices_from fuel (drop chunk_size (b ∷ value))

unfoldable pub slices : List ℕ → List (List ℕ)
unfolding slices_from
slices value = slices_from (length value) value

slices_from-joined :
    (fuel : ℕ) (value : List ℕ)
    → length value ≤ fuel
    → (joined_payloads (slices_from fuel value) ≡ value)
      × All (λ part. length part ≤ 65519) (slices_from fuel value)
unfolding slices_from
slices_from-joined zero [] h = (refl, tt)
slices_from-joined zero (b ∷ value) h = absurd (omega arith)
slices_from-joined (suc fuel) [] h = (refl, tt)
slices_from-joined (suc fuel) (b ∷ value) h =
    let v = b ∷ value in
    let (joined, small) =
      slices_from-joined fuel (drop chunk_size v) (omega (arith, length-drop chunk_size v)) in
    (
      ap (◌++◌ (take chunk_size v)) joined ∙ take-append-drop chunk_size v,
      (omega (arith, length-take chunk_size v), small),
    )

-- The slices are the value, in order, and the receiver accepts each.
pub slices-joined :
    (value : List ℕ)
    → (joined_payloads (slices value) ≡ value) × All (λ part. length part ≤ 65519) (slices value)
unfolding slices
slices-joined value = slices_from-joined (length value) value (omega arith)
