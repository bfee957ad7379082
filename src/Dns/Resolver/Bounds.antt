-- ===== src/Dns/Resolver/Bounds.antt =====
-- The size of the cache of addresses, and its indices.
use iwa_brook_quic.Base.{
  ℕ, ◌+◌, ◌*◌, ◌≤◌, ◌<◌, ◌≡◌, ltb, leb, either_way, Option-cases, inl, inr, if◌then◌else◌, Bool,
  true, not, ◌&&◌, Option, none, some, List, [], ◌∷◌, length, All, arith,
}
use native.Mathlib.Nat.{mod-lt}
use iwa_brook_quic.Base.Table.{
  lookup, insert, delete, drop_oldest, has, text_eq, length-insert, length-delete,
  length-drop_oldest, length-insert_present, has-lookup, All-delete, All-insert, All-drop_oldest,
}
use iwa_brook_quic.Dns.{Address}
use iwa_brook_quic.Dns.Resolver.{
  CacheEntry, DnsResolver, max_cache_size, ttl_sec, set_cache, has_ips, advanced, resolve_uncached,
  resolve_ipv4, ResolveStep, query_ends, take_answer, finish_query, DnsEvent, asks, ends,
  starter_resumes, waiter_resumes, clears, dns_step, dns_run,
}

-- The index of an entry is that of one of its addresses.
pub record IsUsable (entry : CacheEntry) : Type 0 where
  pub in_range : entry.round_robin_idx < length entry.ips

abbrev Usable : List ℕ × CacheEntry → Type 0
Usable (host, entry) = IsUsable entry

pub record IsBounded (s : DnsResolver) : Type 0 where
  pub bounded : length s.cache ≤ max_cache_size
  pub usable : All Usable s.cache

advanced-IsUsable : (entry : CacheEntry) → has_ips entry.ips ≡ true → IsUsable (advanced entry)
advanced-IsUsable entry h = record { in_range = mod-lt (entry.round_robin_idx + 1) (ground arith) }

-- The entry of a host is replaced by its next state.
advance-IsBounded :
    (host : List ℕ) (entry : CacheEntry) (s : DnsResolver)
    → lookup host s.cache ≡ some entry
    → has_ips entry.ips ≡ true
    → IsBounded s
    → IsBounded (record s { cache = insert host (advanced entry) s.cache })
advance-IsBounded host entry s e h b = record {
  bounded = omega (
    arith,
    b.bounded,
    length-insert_present host (advanced entry) s.cache (has-lookup host s.cache entry e),
  );
  usable =
      All-insert Usable host (advanced entry) s.cache (advanced-IsUsable entry h) (λ k v same u. u)
        b.usable;
}

set_cache-IsBounded :
    (host : List ℕ) (first : Address) (others : List Address) (ttl now : ℕ) (s : DnsResolver)
    → IsBounded s
    → IsBounded (set_cache host (first ∷ others) ttl now s)
unfolding set_cache
set_cache-IsBounded host first others ttl now s b =
    let entry : CacheEntry = record {
      ips = first ∷ others;
      round_robin_idx = 0;
      expires_at = now + ttl * 1000;
    } in
    let new : IsUsable entry = record { in_range = omega arith } in
    let stored = λ (m : List (List ℕ × CacheEntry)) (h : All Usable m).
      All-insert Usable host entry m new (λ k v same u. u) h in
    record {
      bounded = ground (
        arith,
        b.bounded,
        length-insert host entry (drop_oldest s.cache),
        length-insert host entry s.cache,
        length-drop_oldest s.cache 999,
      );
      usable =
          stored (if leb max_cache_size (length s.cache) then drop_oldest s.cache else s.cache) (
            either_way (All Usable) (leb max_cache_size (length s.cache)) (drop_oldest s.cache)
              s.cache (λ _. All-drop_oldest Usable s.cache b.usable) (λ _. b.usable));
    }

uncached-IsBounded :
    (host : List ℕ) (can_query : Bool) (s : DnsResolver)
    → IsBounded s
    → IsBounded (resolve_uncached host can_query s).0
uncached-IsBounded host can_query s b =
    let P = λ (p : DnsResolver × ResolveStep). IsBounded p.0 in
    either_way P (has host s.pending) _ _ (λ _. b)
      (λ _.
        either_way P (not can_query) _ _ (λ _. b)
          (λ _. record { bounded = b.bounded; usable = b.usable }))

resolve_ipv4-IsBounded :
    (host : List ℕ) (now : ℕ) (can_query : Bool) (s : DnsResolver)
    → IsBounded s
    → IsBounded (resolve_ipv4 host now can_query s).0
unfolding resolve_ipv4
resolve_ipv4-IsBounded host now can_query s b = elim (Option-cases (lookup host s.cache)) [
  | inl e ↦ rw (e, resolve_ipv4) (uncached-IsBounded host can_query s b)
  | inr (entry, e) ↦
      rw (e, resolve_ipv4)
        (either_way (λ (p : DnsResolver × ResolveStep). IsBounded p.0)
          (ltb now entry.expires_at && has_ips entry.ips) _ _
          (λ h. advance-IsBounded host entry s e (ground arith) b)
          (λ _.
            uncached-IsBounded host can_query (record s { cache = delete host s.cache })
              (record {
                bounded = omega (arith, b.bounded, length-delete host s.cache);
                usable = All-delete Usable host s.cache b.usable;
              })))
]

take_answer-IsBounded :
    (host : List ℕ) (ips : List Address) (i : ℕ) (s : DnsResolver)
    → IsBounded s
    → IsBounded (take_answer host ips i s).0
unfolding take_answer
take_answer-IsBounded host ips i s b =
    let P = λ (p : DnsResolver × Option (List ℕ)). IsBounded p.0 in
    either_way P (not (has_ips ips)) (s, none) _ (λ _. b)
      (λ _. elim (Option-cases (lookup host s.cache)) [
        | inl e ↦ rw e b
        | inr (entry, e) ↦ rw e (
            either_way P (has_ips entry.ips) _ _ (λ h. advance-IsBounded host entry s e h b)
              (λ _. b))
      ])

dns_step-IsBounded :
    (event : DnsEvent) (s : DnsResolver) → IsBounded s → IsBounded (dns_step event s)
unfolding dns_step finish_query query_ends
dns_step-IsBounded (asks host now can_query) s b = resolve_ipv4-IsBounded host now can_query s b
dns_step-IsBounded (ends host [] now) s b = b
dns_step-IsBounded (ends host (first ∷ others) now) s b =
    set_cache-IsBounded host first others (ttl_sec first.ttl) now s b
dns_step-IsBounded (starter_resumes host ips) s b =
    let h = take_answer-IsBounded host ips 0 s b in
    record { bounded = h.bounded; usable = h.usable }
dns_step-IsBounded (waiter_resumes host ips i) s b = take_answer-IsBounded host ips i s b
dns_step-IsBounded clears s b = record { bounded = omega arith; usable = tt }

-- After any calls, answers, failures and clearings: at most 1000 hosts are cached, and the index of
-- each is that of one of its addresses.
pub dns_run-IsBounded :
    (events : List DnsEvent) (s : DnsResolver) → IsBounded s → IsBounded (dns_run events s)
unfolding dns_run
dns_run-IsBounded [] s b = b
dns_run-IsBounded (event ∷ events) s b =
    dns_run-IsBounded events (dns_step event s) (dns_step-IsBounded event s b)
