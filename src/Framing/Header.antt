-- ===== src/Framing/Header.antt =====
-- The header's time stamp: its parity tells TCP from UDP.
use iwa_brook_quic.Base.{
  ℕ, ◌+◌, ◌*◌, ◌/◌, ◌%◌, ◌^◌, ◌≤◌, ◌<◌, ◌≡◌, refl, bit_and, Bool, true, false, List, [], ◌∷◌, take,
  drop, arith,
}
use iwa_brook_quic.Base.Bits.{bit_and_255}
use iwa_brook_quic.Base.Int.{ℤ, pos, ◌+ℤ◌, uint32}
use iwa_brook_quic.Framing.{stamp, build_brook_header}

-- Big-endian value of bytes, behind what stands before them.
abbrev pub be_value : ℕ → List ℕ → ℕ
be_value acc [] = acc
be_value acc (b ∷ bs) = be_value (acc * 256 + b) bs

abbrev pub parity : Bool → ℕ
parity true = 0
parity false = 1

parity-stamp :
    (is_tcp : Bool) (now_sec : ℕ)
    → now_sec + 1 < 2 ^ 32
    → (uint32 (stamp is_tcp (pos now_sec)) % 2 ≡ parity is_tcp)
      × (now_sec ≤ uint32 (stamp is_tcp (pos now_sec)))
      × (uint32 (stamp is_tcp (pos now_sec)) ≤ now_sec + 1)
unfolding ◌+ℤ◌
parity-stamp true now_sec h = ground arith
parity-stamp false now_sec h = ground arith

four_bytes :
    (w : ℕ)
    → w < 2 ^ 32
    → be_value 0 (
        bit_and (w / 2 ^ 24) 0xff
        ∷ bit_and (w / 2 ^ 16) 0xff
        ∷ bit_and (w / 2 ^ 8) 0xff
        ∷ bit_and w 0xff
        ∷ [])
      ≡ w
four_bytes w h = simp bit_and_255 (omega arith)

-- Where the corrected clock is at or after 1970 and before 2106, the header begins with that second,
-- or the one after it, whichever is even for TCP and odd for UDP, and goes on with the destination.
pub build_brook_header-parity :
    (now_ms : ℕ) (dst_bytes : List ℕ) (is_tcp : Bool) (clock_offset_sec : ℤ) (now_sec : ℕ)
    → pos (now_ms / 1000) +ℤ clock_offset_sec ≡ pos now_sec
    → now_sec + 1 < 2 ^ 32
    → let header = build_brook_header now_ms dst_bytes is_tcp clock_offset_sec in
      (be_value 0 (take 4 header) % 2 ≡ parity is_tcp)
      × (now_sec ≤ be_value 0 (take 4 header))
      × (be_value 0 (take 4 header) ≤ now_sec + 1)
      × (drop 4 header ≡ dst_bytes)
unfolding build_brook_header
build_brook_header-parity now_ms dst_bytes is_tcp clock_offset_sec now_sec e h =
    let w = uint32 (stamp is_tcp (pos now_sec)) in
    let (odd, lo, hi) = parity-stamp is_tcp now_sec h in
    rw (e, build_brook_header) (rw (four_bytes w (omega arith)) (odd, lo, hi, refl))
