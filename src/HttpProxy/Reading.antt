-- ===== src/HttpProxy/Reading.antt =====
-- The reading of the headers, in whatever chunks.
use iwa_brook_quic.Base.{
  ℕ, ◌≤◌, ◌<◌, ◌≡◌, ◌∙◌, refl, sym, ap, subst, ltb, Option-cases, inl, inr, Bool-cases, true, false,
  none, some, List, [], ◌∷◌, ◌++◌, length, append-nil, append_assoc, length-append, arith,
}
use iwa_brook_quic.Base.Table.{some_inj}
use iwa_brook_quic.Socks5.{Read, chunk}
use iwa_brook_quic.HttpProxy.{
  find_header_end, HeaderRead, found, refused, too_large, timed_out, max_header_bytes, read_headers,
  header_turn,
}
use iwa_brook_quic.HttpProxy.HeaderEnd.{find_header_end-append, find_header_end_le}

abbrev pub join : List (List ℕ) → List ℕ
join [] = []
join (c ∷ cs) = c ++ join cs

abbrev pub as_reads : List (List ℕ) → List Read → List Read
as_reads [] later = later
as_reads (c ∷ cs) later = chunk c ∷ as_reads cs later

turn_found :
    (n : ℕ) (buf : List ℕ) (reads : List Read) (next : HeaderRead)
    → find_header_end buf ≡ some n
    → header_turn buf reads next ≡ found n buf reads
turn_found n buf reads next e = rw (e, header_turn) refl

turn_goes_on :
    (buf : List ℕ) (reads : List Read) (next : HeaderRead)
    → find_header_end buf ≡ none
    → length buf ≤ max_header_bytes
    → header_turn buf reads next ≡ next
turn_goes_on buf reads next e small = rw (e, small', header_turn) refl
  where
    small' : ltb max_header_bytes (length buf) ≡ false
    small' = ground (arith, small)

turn_too_large :
    (buf : List ℕ) (reads : List Read) (next : HeaderRead)
    → find_header_end buf ≡ none
    → max_header_bytes < length buf
    → header_turn buf reads next ≡ refused too_large
turn_too_large buf reads next e large = rw (e, large', header_turn) refl
  where
    large' : ltb max_header_bytes (length buf) ≡ true
    large' = ground (arith, large)

-- The first chunks were read, and the others are left, with the bytes of each counted.
pub record IsRead (n : ℕ) (buf : List ℕ) (chunks : List (List ℕ)) (later : List Read)
    (result : HeaderRead) : Type 0 where
  pub used : List (List ℕ)
  pub unused : List (List ℕ)
  pub is_split : used ++ unused ≡ chunks
  pub is_found : result ≡ found n (buf ++ join used) (as_reads unused later)
  pub within : n ≤ length (buf ++ join used)

same_end :
    (n m : ℕ) (buf rest : List ℕ)
    → find_header_end (buf ++ rest) ≡ some n
    → find_header_end buf ≡ some m
    → m ≡ n
same_end n m buf rest e e' = some_inj m n (sym (find_header_end-append m buf rest e') ∙ e)

at_once :
    (n : ℕ) (buf : List ℕ) (reads : List Read)
    → find_header_end buf ≡ some n
    → read_headers buf reads ≡ found n buf reads
unfolding read_headers
at_once n buf [] e = turn_found n buf [] (refused timed_out) e
at_once n buf (read ∷ reads) e = turn_found n buf (read ∷ reads) _ e

first_is_last :
    (n : ℕ) (buf : List ℕ) (chunks : List (List ℕ)) (later : List Read)
    → find_header_end buf ≡ some n
    → IsRead n buf chunks later (read_headers buf (as_reads chunks later))
first_is_last n buf chunks later e = record {
  used = [];
  unused = chunks;
  is_split = refl;
  is_found =
      at_once n buf (as_reads chunks later) e
      ∙ ap (λ xs. found n xs (as_reads chunks later)) (sym (append-nil buf));
  within = subst (λ xs. n ≤ length xs) (sym (append-nil buf)) (find_header_end_le n buf e);
}

one_more :
    (n : ℕ) (buf c : List ℕ) (cs : List (List ℕ)) (later : List Read) (result result' : HeaderRead)
    → result ≡ result'
    → IsRead n (buf ++ c) cs later result'
    → IsRead n buf (c ∷ cs) later result
one_more n buf c cs later result result' same h = record {
  used = c ∷ h.used;
  unused = h.unused;
  is_split = ap (λ xs. c ∷ xs) h.is_split;
  is_found =
      same
      ∙ h.is_found
      ∙ ap (λ xs. found n xs (as_reads h.unused later)) (append_assoc buf c (join h.used));
  within = subst (λ xs. n ≤ length xs) (append_assoc buf c (join h.used)) h.within;
}

goes_on :
    (buf c : List ℕ) (reads : List Read)
    → find_header_end buf ≡ none
    → length buf ≤ max_header_bytes
    → read_headers buf (chunk c ∷ reads) ≡ read_headers (buf ++ c) reads
unfolding read_headers
goes_on buf c reads e small = turn_goes_on buf (chunk c ∷ reads) _ e small

-- Where the bytes of some chunks, 64 KiB at most, hold the end of the headers: whatever the
-- chunks and whatever comes after them, the reading stops within these chunks and finds that end, with
-- all bytes of the chunks that it read in the buffer, in order, and the other chunks left.
pub read_headers-IsRead :
    (n : ℕ) (buf : List ℕ) (chunks : List (List ℕ)) (later : List Read)
    → find_header_end (buf ++ join chunks) ≡ some n
    → length (buf ++ join chunks) ≤ max_header_bytes
    → IsRead n buf chunks later (read_headers buf (as_reads chunks later))
read_headers-IsRead n buf [] later e small =
    first_is_last n buf [] later (subst (λ xs. find_header_end xs ≡ some n) (append-nil buf) e)
read_headers-IsRead n buf (c ∷ cs) later e small = elim (Option-cases (find_header_end buf)) [
  | inr (m, e') ↦
      let same : m ≡ n = same_end n m buf (c ++ join cs) e e' in
      first_is_last n buf (c ∷ cs) later (subst (λ k. find_header_end buf ≡ some k) same e')
  | inl e' ↦
      let short : length buf ≤ max_header_bytes =
        omega (arith, small, length-append buf (c ++ join cs)) in
      let joined = append_assoc buf c (join cs) in
      one_more n buf c cs later _ _ (goes_on buf c (as_reads cs later) e' short) (
        read_headers-IsRead n (buf ++ c) cs later
          (subst (λ xs. find_header_end xs ≡ some n) (sym joined) e)
          (subst (λ xs. length xs ≤ max_header_bytes) (sym joined) small))
]

none_before :
    (buf rest : List ℕ) → find_header_end (buf ++ rest) ≡ none → find_header_end buf ≡ none
none_before buf rest e = elim (Option-cases (find_header_end buf)) [
  | inl e' ↦ e'
  | inr (m, e') ↦ clash m (sym (find_header_end-append m buf rest e') ∙ e)
]
  where
    clash : (m : ℕ) → some m ≡ none → find_header_end buf ≡ none
    clash m h = cc

refused_at_once :
    (buf : List ℕ) (reads : List Read)
    → find_header_end buf ≡ none
    → max_header_bytes < length buf
    → read_headers buf reads ≡ refused too_large
unfolding read_headers
refused_at_once buf [] e large = turn_too_large buf [] _ e large
refused_at_once buf (read ∷ reads) e large = turn_too_large buf (read ∷ reads) _ e large

-- More than 64 KiB without an end of the headers are refused as too large, whatever the chunks.
pub read_headers-too_large :
    (buf : List ℕ) (chunks : List (List ℕ)) (later : List Read)
    → find_header_end (buf ++ join chunks) ≡ none
    → max_header_bytes < length (buf ++ join chunks)
    → read_headers buf (as_reads chunks later) ≡ refused too_large
read_headers-too_large buf [] later e large =
    refused_at_once buf later (none_before buf [] e)
      (subst (λ xs. max_header_bytes < length xs) (append-nil buf) large)
read_headers-too_large buf (c ∷ cs) later e large =
    elim (Bool-cases (ltb max_header_bytes (length buf))) [
      | inl over ↦ refused_at_once buf (as_reads (c ∷ cs) later) none_yet (ground arith)
      | inr under ↦
          let joined = append_assoc buf c (join cs) in
          goes_on buf c (as_reads cs later) none_yet (ground arith)
          ∙ read_headers-too_large (buf ++ c) cs later
              (subst (λ xs. find_header_end xs ≡ none) (sym joined) e)
              (subst (λ xs. max_header_bytes < length xs) (sym joined) large)
    ]
  where
    none_yet : find_header_end buf ≡ none
    none_yet = none_before buf (c ++ join cs) e
