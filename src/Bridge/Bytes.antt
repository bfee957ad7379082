-- ===== src/Bridge/Bytes.antt =====
-- No byte that the bridge takes is reordered or duplicated, and none is lost unless it aborts.
use iwa_brook_quic.Base.{
  ℕ, ◌+◌, ◌≡◌, ◌∙◌, inl, inr, refl, sym, ap, ltb, if◌then◌else◌, either_way, Bool-cases, Bool, true,
  false, List, [], ◌∷◌, ◌++◌, length, append-nil, append_assoc,
}
use iwa_brook_quic.Bridge.{
  Bridge, Post, post, stream_error, Entry, value, end, Settlement, gives, finishes, rejects, Event,
  client_data, max_read_queue_bytes, settle_all, release, drop_inbound, abort_inbound, take_chunk,
  step,
}
use iwa_brook_quic.Bridge.Reads.{InOrder}

abbrev pub delivered : List (ℕ × Settlement) → List ℕ
delivered [] = []
delivered ((i, gives chunk) ∷ rest) = chunk ++ delivered rest
delivered ((i, finishes) ∷ rest) = delivered rest
delivered ((i, rejects) ∷ rest) = delivered rest

abbrev pub queued : List Entry → List ℕ
queued [] = []
queued (value chunk ∷ rest) = chunk ++ queued rest
queued (end ∷ rest) = queued rest

-- The bytes that an event brings and the bridge takes.
abbrev pub taken : List ℕ → List ℕ → Bridge → List ℕ
taken chunk (i ∷ is) b = chunk
taken chunk [] b =
    if ltb max_read_queue_bytes (b.read_queue_bytes + length chunk) then [] else chunk

abbrev pub accepted : Event → Bridge → List ℕ
accepted (client_data chunk) b = if b.is_closed then [] else taken chunk b.pending b
accepted _ b = []

abbrev pub received : List Event → Bridge → List ℕ
received [] b = []
received (event ∷ events) b = accepted event b ++ received events (step event b)

-- What the reads were given, then what the queue holds, then what an abort threw away.
pub record Carries (seen : List ℕ) (b : Bridge) : Type 0 where
  pub lost : List ℕ
  pub data_in_order : delivered b.settled ++ (queued b.read_queue ++ lost) ≡ seen
  pub whole : b.is_aborted ≡ false → lost ≡ []

pub delivered-append :
    (xs ys : List (ℕ × Settlement)) → delivered (xs ++ ys) ≡ delivered xs ++ delivered ys
delivered-append [] ys = refl
delivered-append ((i, gives chunk) ∷ xs) ys =
    ap (◌++◌ chunk) (delivered-append xs ys) ∙ sym (append_assoc chunk _ _)
delivered-append ((i, finishes) ∷ xs) ys = delivered-append xs ys
delivered-append ((i, rejects) ∷ xs) ys = delivered-append xs ys

pub queued-append : (xs ys : List Entry) → queued (xs ++ ys) ≡ queued xs ++ queued ys
queued-append [] ys = refl
queued-append (value chunk ∷ xs) ys =
    ap (◌++◌ chunk) (queued-append xs ys) ∙ sym (append_assoc chunk _ _)
queued-append (end ∷ xs) ys = queued-append xs ys

delivered-finishes : (is : List ℕ) → delivered (settle_all finishes is) ≡ []
delivered-finishes [] = refl
delivered-finishes (i ∷ is) = delivered-finishes is

delivered-rejects : (is : List ℕ) → delivered (settle_all rejects is) ≡ []
delivered-rejects [] = refl
delivered-rejects (i ∷ is) = delivered-rejects is

-- Settlements that give nothing.
pub no_data :
    (settled more : List (ℕ × Settlement))
    → delivered more ≡ []
    → delivered (settled ++ more) ≡ delivered settled
no_data settled more e =
    delivered-append settled more ∙ ap (◌++◌ (delivered settled)) e ∙ append-nil _

pub drop_inbound-Carries :
    (seen : List ℕ) (b : Bridge) → Carries seen b → Carries seen (drop_inbound b)
drop_inbound-Carries seen b h = record {
  lost = queued b.read_queue ++ h.lost;
  data_in_order =
      ap (λ xs. xs ++ (queued b.read_queue ++ h.lost))
        (no_data b.settled _ (delivered-rejects b.pending))
      ∙ h.data_in_order;
  whole = λ live. absurd (cc);
}

pub release-Carries :
    (seen : List ℕ) (b : Bridge) → Carries seen b → Carries seen (release finishes b)
release-Carries seen b h = record {
  lost = h.lost;
  data_in_order =
      ap (λ xs. xs ++ (queued b.read_queue ++ h.lost))
        (no_data b.settled _ (delivered-finishes b.pending))
      ∙ h.data_in_order;
  whole = h.whole;
}

pub closed-Carries :
    (seen : List ℕ) (b : Bridge) → Carries seen b → Carries seen (record b { is_closed = true })
closed-Carries seen b h = record { lost = h.lost; data_in_order = h.data_in_order; whole = h.whole }

pub posted-Carries :
    (message : Post) (seen : List ℕ) (b : Bridge) → Carries seen b → Carries seen (post message b)
posted-Carries message seen b h = record {
  lost = h.lost;
  data_in_order = h.data_in_order;
  whole = h.whole;
}

live_whole :
    (seen : List ℕ) (b : Bridge)
    → b.is_closed ≡ false
    → InOrder b
    → (h : Carries seen b) → h.lost ≡ []
live_whole seen b live o h = elim (Bool-cases b.is_aborted) [
  | inl over ↦ absurd (cc (o.aborted_closed over))
  | inr fine ↦ h.whole fine
]

-- A chunk handed over while the queue is empty, and one that joins the queue.
hand_over :
    (d q l chunk seen : List ℕ)
    → q ≡ []
    → l ≡ []
    → d ++ (q ++ l) ≡ seen
    → (d ++ (chunk ++ [])) ++ (q ++ l) ≡ seen ++ chunk
hand_over d q l chunk seen eq el e =
    let all : d ≡ seen = sym (append-nil d) ∙ rw (eq, el) at e in
    rw (eq, el, append-nil, append-nil, all) refl

join_queue :
    (d q l chunk seen : List ℕ)
    → l ≡ []
    → d ++ (q ++ l) ≡ seen
    → d ++ ((q ++ (chunk ++ [])) ++ l) ≡ seen ++ chunk
join_queue d q l chunk seen el e =
    let all : d ++ q ≡ seen = ap (◌++◌ d) (sym (append-nil q)) ∙ rw el at e in
    rw (el, append-nil, append-nil) (sym (append_assoc d q chunk) ∙ ap (λ xs. xs ++ chunk) all)

pub take_chunk-Carries :
    (chunk pending seen : List ℕ) (b : Bridge)
    → b.pending ≡ pending
    → b.is_closed ≡ false
    → InOrder b
    → Carries seen b
    → Carries (seen ++ taken chunk pending b) (take_chunk chunk pending b)
take_chunk-Carries chunk (i ∷ is) seen b e live o h =
    let empty : queued b.read_queue ≡ [] = elim o.waiting [
      | inl w ↦ absurd (cc)
      | inr w ↦ ap queued w
    ] in
    record {
      lost = h.lost;
      data_in_order =
          ap (λ xs. xs ++ (queued b.read_queue ++ h.lost))
            (delivered-append b.settled ((i, gives chunk) ∷ []))
          ∙ hand_over (delivered b.settled) (queued b.read_queue) h.lost chunk seen empty
              (live_whole seen b live o h) h.data_in_order;
      whole = h.whole;
    }
take_chunk-Carries chunk [] seen b e live o h =
    by_room (ltb max_read_queue_bytes (b.read_queue_bytes + length chunk))
  where
    by_room :
        (full : Bool)
        → Carries (seen ++ (if full then [] else chunk)) (
            if full then abort_inbound b else record b {
              read_queue = b.read_queue ++ (value chunk ∷ []);
              read_queue_bytes = b.read_queue_bytes + length chunk;
            })
    by_room true = rw append-nil (
        either_way (Carries seen) b.is_closed b (post stream_error (drop_inbound b)) (λ _. h)
          (λ _. posted-Carries stream_error seen (drop_inbound b) (drop_inbound-Carries seen b h)))
    by_room false = record {
      lost = h.lost;
      data_in_order =
          ap (λ q. delivered b.settled ++ (q ++ h.lost))
            (queued-append b.read_queue (value chunk ∷ []))
          ∙ join_queue (delivered b.settled) (queued b.read_queue) h.lost chunk seen
              (live_whole seen b live o h) h.data_in_order;
      whole = h.whole;
    }
