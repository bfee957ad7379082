-- ===== src/KeyCache.antt =====
-- brook-quicclient/src/core/brook-crypto.js: the cache of base keys in front of `importKey`.
pub mod Bounds
pub mod Collisions
mod Tests
use iwa_brook_quic.Base.{
  ℕ, suc, ◌+◌, ◌-◌, ◌*◌, ◌%◌, ◌^◌, leb, if◌then◌else◌, Bool, true, false, Option, none, some, List,
  [], ◌∷◌, length,
}
use iwa_brook_quic.Base.Table.{lookup, insert, delete, drop_oldest, text_eq}

-- A password: a string by its UTF-16 code units, the bytes of a `Uint8Array`, or another value, of
-- which only the length of its text counts.
pub data Password : Type 0 where
  text bytes : List ℕ → Password
  other : ℕ → Password

-- `hash = ((hash << 5) - hash) + c; hash |= 0`, with the int32 as its bit pattern.
unfoldable pub hash_step : ℕ → ℕ → ℕ
hash_step hash c = (hash * 32 + 2 ^ 32 - hash + c) % 2 ^ 32

unfoldable pub hash_codes : ℕ → List ℕ → ℕ
hash_codes hash [] = hash
hash_codes hash (c ∷ cs) = hash_codes (hash_step hash c) cs

abbrev flag : Bool → ℕ
flag true = 1
flag false = 0

-- The parts that `cacheKeyFor` joins by colons.
unfoldable pub cache_key_for : Password → Bool → List ℕ
cache_key_for (text cs) without_brook = b's' ∷ length cs ∷ hash_codes 0 cs ∷ flag without_brook ∷ []
cache_key_for (bytes bs) without_brook =
    b'b' ∷ length bs ∷ hash_codes 0 bs ∷ flag without_brook ∷ []
cache_key_for (other len) without_brook = b'o' ∷ len ∷ flag without_brook ∷ []

abbrev pub max_base_key_cache : ℕ
max_base_key_cache = 8

-- `baseKeyCache` and `baseKeyPending`, the latter with what is being imported.
pub record KeyCache (K : Type 0) : Type 0 where
  pub base_keys : List (List ℕ × K)
  pub base_keys_pending : List (List ℕ × (Password × Bool))

-- What `getBaseKey` gives at once: a key from the cache, the promise of an import under way, or the
-- promise of a new import.
pub data Answer (K : Type 0) : Type 0 where
  hit : K → Answer K
  joins : Password × Bool → Answer K
  imports : Answer K

module _ {K : Type 0} where
  unfoldable pub get_base_key : Password → Bool → KeyCache K → KeyCache K × Answer K
  get_base_key password without_brook s =
      let key = cache_key_for password without_brook in
      elim (lookup key s.base_keys) [
        | some k ↦ (record s { base_keys = insert key k (delete key s.base_keys) }, hit k)
        | none ↦ elim (lookup key s.base_keys_pending) [
          | some import ↦ (s, joins import)
          | none ↦ (
            record s {
              base_keys_pending = insert key (password, without_brook) s.base_keys_pending;
            },
            imports,
          )
        ]
      ]

  -- The import is settled: with a key, or rejected.
  abbrev pub store_key : List ℕ → K → List (List ℕ × K) → List (List ℕ × K)
  store_key key k keys =
      insert key k (if leb max_base_key_cache (length keys) then drop_oldest keys else keys)

  unfoldable pub import_settled : Password → Bool → Option K → KeyCache K → KeyCache K
  import_settled password without_brook result s =
      let key = cache_key_for password without_brook in
      let settled = record s { base_keys_pending = delete key s.base_keys_pending } in
      elim result [
        | none ↦ settled
        | some k ↦ record settled { base_keys = store_key key k s.base_keys }
      ]

-- A call of `getBaseKey`, or the end of the import that was started for some key.
pub data KeyEvent : Type 0 where
  asks : Password → Bool → KeyEvent
  settles : List ℕ → KeyEvent

-- `import_key` is what `sha256`, where it is asked for, and `importKey` come to.
module _ {K : Type 0} (import_key : Password → Bool → Option K) where
  unfoldable pub key_step : KeyEvent → KeyCache K → KeyCache K
  key_step (asks password without_brook) s = (get_base_key password without_brook s).0
  key_step (settles key) s = elim (lookup key s.base_keys_pending) [
    | none ↦ s
    | some import ↦ import_settled import.0 import.1 (import_key import.0 import.1) s
  ]

  unfoldable pub key_run : List KeyEvent → KeyCache K → KeyCache K
  key_run [] s = s
  key_run (event ∷ events) s = key_run events (key_step event s)
