-- ===== src/KeyCache/Collisions.antt =====
-- The cache keys of different passwords.
use iwa_brook_quic.Base.{
  ℕ, suc, ◌+◌, ◌^◌, ◌<◌, ◌≡◌, ◌≢◌, ◌∙◌, refl, sym, ap, Bool, some, List, [], ◌∷◌, ◌++◌, length,
  arith,
}
use iwa_brook_quic.Base.Table.{lookup, text_eq}
use iwa_brook_quic.KeyCache.{
  Password, text, KeyCache, hit, hash_step, hash_codes, cache_key_for, get_base_key,
}

hash_codes-append :
    (hash : ℕ) (xs ys : List ℕ) → hash_codes hash (xs ++ ys) ≡ hash_codes (hash_codes hash xs) ys
unfolding hash_codes
hash_codes-append hash [] ys = refl
hash_codes-append hash (x ∷ xs) ys = hash_codes-append (hash_step hash x) xs ys

hash_step_lt : (hash c : ℕ) → hash_step hash c < 2 ^ 32
unfolding hash_step
hash_step_lt hash c = omega arith

hash_codes_lt : (hash : ℕ) (cs : List ℕ) → hash < 2 ^ 32 → hash_codes hash cs < 2 ^ 32
unfolding hash_codes
hash_codes_lt hash [] h = h
hash_codes_lt hash (c ∷ cs) h = hash_codes_lt (hash_step hash c) cs (hash_step_lt hash c)

-- One more in a place and 31 less in the next cancel.
two_steps :
    (hash a b : ℕ)
    → hash < 2 ^ 32
    → hash_step (hash_step hash (suc a)) b ≡ hash_step (hash_step hash a) (b + 31)
unfolding hash_step
two_steps hash a b h = omega arith

swapped :
    (prefix suffix : List ℕ) (a b : ℕ)
    → hash_codes 0 (prefix ++ (suc a ∷ b ∷ suffix))
      ≡ hash_codes 0 (prefix ++ (a ∷ (b + 31) ∷ suffix))
unfolding hash_codes
swapped prefix suffix a b =
    hash_codes-append 0 prefix (suc a ∷ b ∷ suffix)
    ∙ ap (λ h. hash_codes h suffix)
        (two_steps (hash_codes 0 prefix) a b (hash_codes_lt 0 prefix (omega arith)))
    ∙ sym (hash_codes-append 0 prefix (a ∷ (b + 31) ∷ suffix))

suc_apart : (a : ℕ) → suc a ≢ a
suc_apart a h = omega arith

same_head : (x y : ℕ) (xs ys : List ℕ) → x ∷ xs ≡ y ∷ ys → x ≡ y
same_head x y xs ys e = cc

same_tail : (x y : ℕ) (xs ys : List ℕ) → x ∷ xs ≡ y ∷ ys → xs ≡ ys
same_tail x y xs ys e = cc

differs :
    (prefix suffix : List ℕ) (a b : ℕ)
    → prefix ++ (suc a ∷ b ∷ suffix) ≢ prefix ++ (a ∷ (b + 31) ∷ suffix)
differs [] suffix a b e = suc_apart a (same_head (suc a) a _ _ e)
differs (p ∷ prefix) suffix a b e = differs prefix suffix a b (same_tail p p _ _ e)

same_length :
    (prefix suffix : List ℕ) (a b : ℕ)
    → length (prefix ++ (suc a ∷ b ∷ suffix)) ≡ length (prefix ++ (a ∷ (b + 31) ∷ suffix))
same_length [] suffix a b = refl
same_length (p ∷ prefix) suffix a b = ap suc (same_length prefix suffix a b)

same_cache_key :
    (prefix suffix : List ℕ) (a b : ℕ) (without_brook : Bool)
    → cache_key_for (text (prefix ++ (suc a ∷ b ∷ suffix))) without_brook
      ≡ cache_key_for (text (prefix ++ (a ∷ (b + 31) ∷ suffix))) without_brook
unfolding cache_key_for
same_cache_key prefix suffix a b without_brook =
    rw (same_length prefix suffix a b, swapped prefix suffix a b) refl

-- A cached key is given at once.
get_base_key-hit :
    {K : Type 0} (password : Password) (without_brook : Bool) (k : K) (s : KeyCache K)
    → lookup (cache_key_for password without_brook) s.base_keys ≡ some k
    → (get_base_key password without_brook s).1 ≡ hit k
unfolding get_base_key
get_base_key-hit password without_brook k s e = rw (e, get_base_key) refl

-- In any password, raising one character and lowering the next one by 31 gives another password with
-- the same cache key; so where a key is cached for the one, a call with the other is given that key.
pub cache_key_for-collides :
    {K : Type 0} (prefix suffix : List ℕ) (a b : ℕ) (without_brook : Bool) (k : K) (s : KeyCache K)
    → lookup (cache_key_for (text (prefix ++ (suc a ∷ b ∷ suffix))) without_brook) s.base_keys
      ≡ some k
    → (prefix ++ (suc a ∷ b ∷ suffix) ≢ prefix ++ (a ∷ (b + 31) ∷ suffix))
      × ((get_base_key (text (prefix ++ (a ∷ (b + 31) ∷ suffix))) without_brook s).1 ≡ hit k)
cache_key_for-collides prefix suffix a b without_brook k s e = (
  differs prefix suffix a b,
  get_base_key-hit _ without_brook k s (
      ap (λ key. lookup key s.base_keys) (sym (same_cache_key prefix suffix a b without_brook))
      ∙ e),
)
