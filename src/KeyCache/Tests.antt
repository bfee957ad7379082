-- ===== src/KeyCache/Tests.antt =====
-- Runs of the key cache.
use iwa_brook_quic.Base.{ℕ, ◌≡◌, ◌≢◌, refl, Bool, true, Option, none, some, List, [], ◌∷◌, length}
use iwa_brook_quic.KeyCache.{
  Password, text, bytes, other, KeyCache, hit, KeyEvent, asks, settles, cache_key_for, get_base_key,
  key_run, key_step, hash_codes, hash_step, import_settled,
}
use iwa_brook_quic.Base.Table.{lookup, insert, text_eq}
use iwa_brook_quic.KeyCache.Bounds.{IsSound, empty_cache, key_run-IsSound}
use iwa_brook_quic.KeyCache.Collisions.{cache_key_for-collides}

-- An import that keeps the codes, and fails for other values.
abbrev codes_of : Password → Bool → Option (List ℕ)
codes_of (text cs) without_brook = some cs
codes_of (bytes bs) without_brook = some bs
codes_of (other len) without_brook = none

abbrev first_codes : List ℕ
first_codes = b'a' ∷ b'b' ∷ b'A' ∷ []

abbrev second_codes : List ℕ
second_codes = b'a' ∷ b'a' ∷ b'`' ∷ []

abbrev first_password : Password
first_password = text first_codes

abbrev two_calls : List KeyEvent
two_calls =
    asks first_password true
    ∷ asks first_password true
    ∷ settles (cache_key_for first_password true)
    ∷ []

abbrev filled : KeyCache (List ℕ)
filled = key_run codes_of two_calls empty_cache

filled_once : length filled.base_keys ≡ 1
unfolding cache_key_for get_base_key key_run key_step lookup insert hash_codes hash_step
    import_settled
filled_once = refl

key_run-IsSound_example : IsSound codes_of (key_run codes_of two_calls empty_cache)
key_run-IsSound_example = key_run-IsSound codes_of two_calls

cached : lookup (cache_key_for first_password true) filled.base_keys ≡ some first_codes
unfolding cache_key_for get_base_key key_run key_step lookup insert hash_codes hash_step
    import_settled
cached = refl

cache_key_for-collides_example :
    (first_codes ≢ second_codes)
    × ((get_base_key (text second_codes) true filled).1 ≡ hit first_codes)
cache_key_for-collides_example =
    cache_key_for-collides (b'a' ∷ []) [] b'a' b'A' true first_codes filled cached
