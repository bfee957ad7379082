-- ===== src/Dns/Resolver/Fairness.antt =====
-- The cached addresses of a host are given out in turn.
use iwa_brook_quic.Base.{
  ℕ, zero, suc, ◌+◌, ◌%◌, ◌<◌, ◌≡◌, ◌∙◌, refl, sym, ap, ltb, Bool, true, ◌&&◌, some, List, [], ◌∷◌,
  length, All, arith,
}
use native.Mathlib.Nat.{mod-mod, mod-add-mod}
use iwa_brook_quic.Base.Table.{lookup, insert, text_eq, lookup-insert_same}
use iwa_brook_quic.Dns.{Address}
use iwa_brook_quic.Dns.Resolver.{
  CacheEntry, DnsResolver, ResolveStep, answered, ip_at, has_ips, next_ip, advanced, resolve_ipv4,
}

-- The answers to calls for a host at some times, with nothing else in between.
pub ask_all : List ℕ → List ℕ → Bool → DnsResolver → List ResolveStep
ask_all host [] can_query s = []
ask_all host (now ∷ times) can_query s =
    let (s', step) = resolve_ipv4 host now can_query s in step ∷ ask_all host times can_query s'

-- So many addresses from an index on: the k-th is that at the index plus k, modulo their number.
pub in_turn : ℕ → ℕ → List Address → List ResolveStep
in_turn zero i ips = []
in_turn (suc n) i ips = answered (ip_at ips (i % length ips)) ∷ in_turn n (i + 1) ips

fresh :
    (host : List ℕ) (now : ℕ) (can_query : Bool) (s : DnsResolver) (entry : CacheEntry)
    → lookup host s.cache ≡ some entry
    → 0 < length entry.ips
    → now < entry.expires_at
    → resolve_ipv4 host now can_query s
      ≡ (record s { cache = insert host (advanced entry) s.cache }, answered (next_ip entry))
unfolding resolve_ipv4
fresh host now can_query s entry e some_ips early =
    let h : (ltb now entry.expires_at && has_ips entry.ips) ≡ true = ground arith in
    rw (e, h, resolve_ipv4) refl

in_turn_mod : (n i : ℕ) (ips : List Address) → in_turn n (i % length ips) ips ≡ in_turn n i ips
unfolding in_turn
in_turn_mod zero i ips = refl
in_turn_mod (suc n) i ips =
    let m : ℕ = length ips in
    let rest : in_turn n (i % m + 1) ips ≡ in_turn n (i + 1) ips =
      sym (in_turn_mod n (i % m + 1) ips)
      ∙ ap (λ k. in_turn n k ips) (mod-add-mod i m 1)
      ∙ in_turn_mod n (i + 1) ips in
    rw (mod-mod i m, rest) refl

-- Calls for a cached host at times before its entry expires, with nothing else in between, are
-- answered at once, by its addresses in turn: the k-th by that at the entry's index plus k, modulo
-- the number of addresses.
pub ask_all-in_turn :
    (host : List ℕ) (times : List ℕ) (can_query : Bool) (s : DnsResolver) (entry : CacheEntry)
    → lookup host s.cache ≡ some entry
    → 0 < length entry.ips
    → All (λ now. now < entry.expires_at) times
    → ask_all host times can_query s ≡ in_turn (length times) entry.round_robin_idx entry.ips
unfolding ask_all in_turn
ask_all-in_turn host [] can_query s entry e some_ips early = refl
ask_all-in_turn host (now ∷ times) can_query s entry e some_ips early =
    let s' = record s { cache = insert host (advanced entry) s.cache } in
    let rest =
      ask_all-in_turn host times can_query s' (advanced entry)
        (lookup-insert_same host (advanced entry) s.cache) some_ips early.1 in
    ap (λ (p : DnsResolver × ResolveStep). p.1 ∷ ask_all host times can_query p.0)
      (fresh host now can_query s entry e some_ips early.0)
    ∙ ap (◌∷◌ (answered (next_ip entry)))
        (rest ∙ in_turn_mod (length times) (entry.round_robin_idx + 1) entry.ips)
