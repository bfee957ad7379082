-- ===== src/KeyCache/Bounds.antt =====
-- The size of the cache of base keys, and what its entries were imported for.
use iwa_brook_quic.Base.{
  ℕ, ◌≤◌, ◌≡◌, ◌∙◌, refl, sym, leb, either_way, Option-cases, inl, inr, Bool, true, Option, none,
  some, List, [], ◌∷◌, length, All, arith,
}
use iwa_brook_quic.Base.Table.{
  All-lookup, lookup, insert, delete, drop_oldest, text_eq, same, length-insert, length-delete_lt,
  length-drop_oldest, has-lookup, All-delete, All-insert, All-drop_oldest,
}
use iwa_brook_quic.KeyCache.{
  Password, KeyCache, KeyEvent, asks, settles, cache_key_for, max_base_key_cache, get_base_key,
  import_settled, store_key, key_step, key_run,
}

module _ {K : Type 0} where
  length-store_key :
      (key : List ℕ) (k : K) (keys : List (List ℕ × K))
      → length keys ≤ max_base_key_cache
      → length (store_key key k keys) ≤ max_base_key_cache
  length-store_key key k keys h = ground (
    arith,
    length-insert key k (drop_oldest keys),
    length-insert key k keys,
    length-drop_oldest keys 7,
  )

  refresh_size :
      (key : List ℕ) (k : K) (keys : List (List ℕ × K))
      → lookup key keys ≡ some k
      → length (insert key k (delete key keys)) ≤ length keys
  refresh_size key k keys e = ground (
    arith,
    has-lookup key keys k e,
    length-delete_lt key keys,
    length-insert key k (delete key keys),
  )

module _ {K : Type 0} (import_key : Password → Bool → Option K) where
  -- Some password of this cache key has this key.
  abbrev pub Imported : List ℕ × K → Type 0
  Imported (key, k) =
      (password : Password) × (without_brook : Bool) × (cache_key_for password without_brook ≡ key)
      × (import_key password without_brook ≡ some k)

  pub record IsSound (s : KeyCache K) : Type 0 where
    pub bounded : length s.base_keys ≤ max_base_key_cache
    pub imported : All Imported s.base_keys

  moved :
      (key : List ℕ) (k : K) (key' : List ℕ) (w : K)
      → same key' key ≡ true
      → Imported (key, k)
      → Imported (key', k)
  moved key k key' w e (p, b, is_key, is_import) =
      (p, b, is_key ∙ sym ((text_eq.beq_iff key' key).0 e), is_import)

  found :
      (key : List ℕ) (k : K) (keys : List (List ℕ × K))
      → lookup key keys ≡ some k
      → All Imported keys
      → Imported (key, k)
  found key k keys e h =
      let (key', is_same, from) = All-lookup Imported key k keys e h in
      let (p, b, is_key, is_import) = from in
      (p, b, is_key ∙ (text_eq.beq_iff key' key).0 is_same, is_import)

  asked :
      (password : Password) (without_brook : Bool) (s : KeyCache K)
      → IsSound s
      → IsSound (get_base_key password without_brook s).0
  unfolding get_base_key
  asked password without_brook s h =
      let key = cache_key_for password without_brook in
      elim (Option-cases (lookup key s.base_keys)) [
        | inr (k, e) ↦
            rw (e, get_base_key)
              (record {
                bounded = omega (arith, refresh_size key k s.base_keys e, h.bounded);
                imported =
                    All-insert Imported key k (delete key s.base_keys)
                      (found key k s.base_keys e h.imported)
                      (λ key' w is_same new. moved key k key' w is_same new)
                      (All-delete Imported key s.base_keys h.imported);
              })
        | inl e ↦ elim (Option-cases (lookup key s.base_keys_pending)) [
          | inr (i, e') ↦ rw (e, e', get_base_key) h
          | inl e' ↦
              rw (e, e', get_base_key) (record { bounded = h.bounded; imported = h.imported })
        ]
      ]

  stored :
      (key : List ℕ) (k : K) (keys : List (List ℕ × K))
      → Imported (key, k)
      → All Imported keys
      → All Imported (store_key key k keys)
  stored key k keys new h =
      All-insert Imported key k _ new (λ key' w is_same i. moved key k key' w is_same i)
        (either_way (All Imported) (leb max_base_key_cache (length keys)) (drop_oldest keys) keys
          (λ _. All-drop_oldest Imported keys h) (λ _. h))

  settled-IsSound :
      (password : Password) (without_brook : Bool) (result : Option K) (s : KeyCache K)
      → import_key password without_brook ≡ result
      → IsSound s
      → IsSound (import_settled password without_brook result s)
  unfolding import_settled
  settled-IsSound password without_brook none s e h = record {
    bounded = h.bounded;
    imported = h.imported;
  }
  settled-IsSound password without_brook (some k) s e h =
      let key = cache_key_for password without_brook in
      record {
        bounded = length-store_key key k s.base_keys h.bounded;
        imported = stored key k s.base_keys (password, without_brook, refl, e) h.imported;
      }

  step-IsSound :
      (event : KeyEvent) (s : KeyCache K) → IsSound s → IsSound (key_step import_key event s)
  unfolding key_step
  step-IsSound (asks password without_brook) s h = asked password without_brook s h
  step-IsSound (settles key) s h = elim (Option-cases (lookup key s.base_keys_pending)) [
    | inl e ↦ rw (e, key_step) h
    | inr ((p, b), e) ↦ rw (e, key_step) (settled-IsSound p b (import_key p b) s refl h)
  ]

  run-IsSound :
      (events : List KeyEvent) (s : KeyCache K) → IsSound s → IsSound (key_run import_key events s)
  unfolding key_run
  run-IsSound [] s h = h
  run-IsSound (event ∷ events) s h =
      run-IsSound events (key_step import_key event s) (step-IsSound event s h)

abbrev pub empty_cache : {K : Type 0} → KeyCache K
empty_cache = record { base_keys = []; base_keys_pending = [] }

-- Through any calls and imports, the cache holds at most 8 keys, and each of them was imported for a
-- password whose cache key is the one that it stands under.
pub key_run-IsSound :
    {K : Type 0} (import_key : Password → Bool → Option K) (events : List KeyEvent)
    → IsSound import_key (key_run import_key events empty_cache)
key_run-IsSound import_key events =
    run-IsSound import_key events empty_cache (record { bounded = omega arith; imported = tt })
