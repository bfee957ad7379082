-- ===== src/Nonce.antt =====
-- brook-quicclient/src/core/brook-crypto.js, `nextNonce`: the 12-byte nonce and its counter.
pub mod Counter
mod Tests
use iwa_brook_quic.Base.{
  ℕ, ◌+◌, ◌*◌, ◌/◌, ◌%◌, ◌^◌, bit_and, bit_or, ◌==◌, if◌then◌else◌, List, set,
}
use iwa_brook_quic.Bytes.{byte_at}

-- `(n[i] | n[i+1] << 8 | n[i+2] << 16 | n[i+3] << 24) >>> 0`, as an unsigned bit pattern.
load_le32 : List ℕ → ℕ → ℕ
load_le32 nonce i =
    bit_or
      (bit_or (bit_or (byte_at nonce i) (byte_at nonce (i + 1) * 2 ^ 8))
        (byte_at nonce (i + 2) * 2 ^ 16))
      (byte_at nonce (i + 3) * 2 ^ 24)

store_le32 : List ℕ → ℕ → ℕ → List ℕ
store_le32 nonce i w =
    set
      (set (set (set nonce i (bit_and w 0xff)) (i + 1) (bit_and (w / 2 ^ 8) 0xff)) (i + 2)
        (bit_and (w / 2 ^ 16) 0xff))
      (i + 3) (bit_and (w / 2 ^ 24) 0xff)

-- The nonce after the call, which changes it in place.
unfoldable pub next_nonce : List ℕ → List ℕ
unfolding load_le32 store_le32
next_nonce nonce =
    let new_low = (load_le32 nonce 0 + 1) % 2 ^ 32 in
    let nonce' = store_le32 nonce 0 new_low in
    if new_low == 0 then store_le32 nonce' 4 ((load_le32 nonce' 4 + 1) % 2 ^ 32) else nonce'
