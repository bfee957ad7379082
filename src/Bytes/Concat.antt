-- ===== src/Bytes/Concat.antt =====
-- `concatUint8Arrays` against plain concatenation.
use iwa_brook_quic.Base.{
  ℕ, suc, ◌+◌, ◌≡◌, refl, sym, ap, ◌∙◌, leb, true, Option, none, some, List, [], ◌∷◌, ◌++◌, length,
  drop, replicate, arith, append_assoc, length-append, length-replicate, take-append,
}
use iwa_brook_quic.Bytes.{set_at, total_length, copy_all, concat_uint8_arrays}

-- What the caller means: the present buffers one after the other.
abbrev pub joined : List (Option (List ℕ)) → List ℕ
joined [] = []
joined (none ∷ arrays) = joined arrays
joined (some a ∷ arrays) = a ++ joined arrays

drop-replicate :
    (a : List ℕ) (m v : ℕ) → drop (length a) (replicate (length a + m) v) ≡ replicate m v
drop-replicate [] m v = let e : 0 + m ≡ m = omega arith in rw e
drop-replicate (x ∷ xs) m v =
    let e : suc (length xs) + m ≡ suc (length xs + m) = omega arith in rw e (drop-replicate xs m v)

drop_past :
    (done a : List ℕ) (m v : ℕ)
    → drop (length done + length a) (done ++ replicate (length a + m) v) ≡ replicate m v
drop_past [] a m v = let e : 0 + length a ≡ length a = omega arith in rw e (drop-replicate a m v)
drop_past (x ∷ done) a m v =
    let e : suc (length done) + length a ≡ suc (length done + length a) = omega arith in
    rw e (drop_past done a m v)

-- A write just behind what is done, into the zeros that are left.
pub set_at_front :
    (done a : List ℕ) (m : ℕ)
    → set_at (done ++ replicate (length a + m) 0) (length done) a
      ≡ some ((done ++ a) ++ replicate m 0)
unfolding set_at
set_at_front done a m =
    let fits : leb (length done + length a) (length (done ++ replicate (length a + m) 0)) ≡ true =
      ground (
        arith,
        length-append done (replicate (length a + m) 0),
        length-replicate {A = ℕ} (length a + m) 0,
      ) in
    rw (fits, take-append done (replicate (length a + m) 0), drop_past done a m 0)
      (ap some (sym (append_assoc done a (replicate m 0))))

copy_all-joined :
    (arrays : List (Option (List ℕ))) (done : List ℕ)
    → copy_all arrays (done ++ replicate (total_length arrays) 0) (length done)
      ≡ some (done ++ joined arrays)
unfolding copy_all total_length
copy_all-joined [] done = refl
copy_all-joined (none ∷ arrays) done =
    let e : 0 + total_length arrays ≡ total_length arrays = omega arith in
    rw e (copy_all-joined arrays done)
copy_all-joined (some [] ∷ arrays) done =
    let e : 0 + total_length arrays ≡ total_length arrays = omega arith in
    rw e (copy_all-joined arrays done)
copy_all-joined (some (b ∷ bs) ∷ arrays) done =
    rw (set_at_front done (b ∷ bs) (total_length arrays), copy_all, ← length-append done (b ∷ bs))
      (copy_all-joined arrays (done ++ (b ∷ bs))
        ∙ ap some (append_assoc done (b ∷ bs) (joined arrays)))

-- No write leaves the buffer, and it ends up holding the present arrays in order.
pub concat_uint8_arrays-joined :
    (arrays : List (Option (List ℕ))) → concat_uint8_arrays arrays ≡ some (joined arrays)
unfolding concat_uint8_arrays
concat_uint8_arrays-joined arrays = copy_all-joined arrays []
