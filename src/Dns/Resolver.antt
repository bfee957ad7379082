-- ===== src/Dns/Resolver.antt =====
-- The cache of `DnsResolver` and its pending queries: `resolveIpv4` for a host name that is no literal
-- address, `_setCache`, and the end of `_resolveViaBrook`, from one `await` to the next.
pub mod Bounds
pub mod Fairness
use iwa_brook_quic.Base.{
  ℕ, zero, suc, ◌+◌, ◌*◌, ◌%◌, min, max, ltb, leb, if◌then◌else◌, Bool, true, false, not, ◌&&◌,
  Option, none, some, List, [], ◌∷◌, length, get_elem?,
}
use iwa_brook_quic.Base.Int.{ℤ, pos, negsuc}
use iwa_brook_quic.Base.Table.{lookup, insert, delete, drop_oldest, has, text_eq}
use iwa_brook_quic.Dns.{Address}

pub record CacheEntry : Type 0 where
  pub ips : List Address
  pub round_robin_idx : ℕ
  pub expires_at : ℕ

-- The static fields `cache` and `pending`; of a pending promise only that it is there counts.
pub record DnsResolver : Type 0 where
  pub cache : List (List ℕ × CacheEntry)
  pub pending : List (List ℕ × Unit {0})

abbrev pub max_cache_size : ℕ
max_cache_size = 1000

abbrev pub new_resolver : DnsResolver
new_resolver = record { cache = []; pending = [] }

-- `Math.max(60, Math.min(ttl || 300, 600))`
abbrev pub ttl_sec : ℤ → ℕ
ttl_sec (pos zero) = 300
ttl_sec (pos (suc n)) = max 60 (min (suc n) 600)
ttl_sec (negsuc n) = 60

unfoldable pub set_cache : List ℕ → List Address → ℕ → ℕ → DnsResolver → DnsResolver
set_cache host ips ttl now s =
    let kept = if leb max_cache_size (length s.cache) then drop_oldest s.cache else s.cache in
    let entry : CacheEntry = record {
      ips = ips;
      round_robin_idx = 0;
      expires_at = now + ttl * 1000;
    } in
    record s { cache = insert host entry kept }

-- `ips[i].ip`
abbrev pub ip_at : List Address → ℕ → Option (List ℕ)
ip_at ips i = elim (get_elem? ips i) [ none ↦ none | some address ↦ some address.ip ]

abbrev pub has_ips : List Address → Bool
has_ips ips = ltb 0 (length ips)

-- The next address of an entry that has any.
abbrev pub next_ip : CacheEntry → Option (List ℕ)
next_ip entry = ip_at entry.ips (entry.round_robin_idx % length entry.ips)

abbrev pub advanced : CacheEntry → CacheEntry
advanced entry = record entry { round_robin_idx = (entry.round_robin_idx + 1) % length entry.ips }

-- What a call comes to at once: an answer, the wait for a pending query, or a query of its own.
pub data ResolveStep : Type 0 where
  answered : Option (List ℕ) → ResolveStep
  waits queries : ResolveStep

-- Behind the cache; `can_query` says that there are a manager and a password.
abbrev pub resolve_uncached : List ℕ → Bool → DnsResolver → DnsResolver × ResolveStep
resolve_uncached host can_query s =
    if has host s.pending
    then (s, waits)
    else if not can_query
    then (s, answered none)
    else (record s { pending = insert host tt s.pending }, queries)

unfoldable pub resolve_ipv4 : List ℕ → ℕ → Bool → DnsResolver → DnsResolver × ResolveStep
resolve_ipv4 host now can_query s = elim (lookup host s.cache) [
  | none ↦ resolve_uncached host can_query s
  | some entry ↦
      if ltb now entry.expires_at && has_ips entry.ips
      then (record s { cache = insert host (advanced entry) s.cache }, answered (next_ip entry))
      else resolve_uncached host can_query (record s { cache = delete host s.cache })
]

-- `_resolveViaBrook` has parsed some addresses, or failed.
unfoldable pub query_ends : List ℕ → List Address → ℕ → DnsResolver → DnsResolver
query_ends host [] now s = s
query_ends host (first ∷ others) now s = set_cache host (first ∷ others) (ttl_sec first.ttl) now s

-- A call that awaited a query goes on with its addresses; `i` is the index that it takes where they
-- are in the cache no more.
unfoldable pub take_answer : List ℕ → List Address → ℕ → DnsResolver → DnsResolver × Option (List ℕ)
take_answer host ips i s =
    let fallback : DnsResolver × Option (List ℕ) = (s, ip_at ips i) in
    if not (has_ips ips) then (s, none) else elim (lookup host s.cache) [
      | none ↦ fallback
      | some entry ↦
          if has_ips entry.ips
          then (record s { cache = insert host (advanced entry) s.cache }, next_ip entry)
          else fallback
    ]

-- The call that made the query takes the pending entry away, too.
unfoldable pub finish_query : List ℕ → List Address → DnsResolver → DnsResolver × Option (List ℕ)
finish_query host ips s =
    let (s', answer) = take_answer host ips 0 s in
    (record s' { pending = delete host s'.pending }, answer)

pub data DnsEvent : Type 0 where
  asks : List ℕ → ℕ → Bool → DnsEvent
  ends : List ℕ → List Address → ℕ → DnsEvent
  starter_resumes : List ℕ → List Address → DnsEvent
  waiter_resumes : List ℕ → List Address → ℕ → DnsEvent
  clears : DnsEvent

unfoldable pub dns_step : DnsEvent → DnsResolver → DnsResolver
dns_step (asks host now can_query) s = (resolve_ipv4 host now can_query s).0
dns_step (ends host ips now) s = query_ends host ips now s
dns_step (starter_resumes host ips) s = (finish_query host ips s).0
dns_step (waiter_resumes host ips i) s = (take_answer host ips i s).0
dns_step clears s = new_resolver

unfoldable pub dns_run : List DnsEvent → DnsResolver → DnsResolver
dns_run [] s = s
dns_run (event ∷ events) s = dns_run events (dns_step event s)
