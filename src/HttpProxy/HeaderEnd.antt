-- ===== src/HttpProxy/HeaderEnd.antt =====
-- The end of the headers, when more bytes come.
use iwa_brook_quic.Base.{ℕ, suc, ◌+◌, ◌≤◌, ◌≡◌, some, List, [], ◌∷◌, ◌++◌, length, arith}
use iwa_brook_quic.HttpProxy.{header_end_from, find_header_end}

header_end_from-append :
    (i n : ℕ) (xs ys : List ℕ)
    → header_end_from i xs ≡ some n
    → header_end_from i (xs ++ ys) ≡ some n
unfolding header_end_from
header_end_from-append i n [] ys e = cc
header_end_from-append i n (x ∷ []) ys e = cc
header_end_from-append i n (x ∷ y ∷ []) ys e = ground (arith, e)
header_end_from-append i n (x ∷ y ∷ z ∷ []) ys e =
    ground (arith, e, header_end_from-append (suc i) n (y ∷ z ∷ []) ys)
header_end_from-append i n (x ∷ y ∷ z ∷ w ∷ xs) ys e =
    ground (arith, e, header_end_from-append (suc i) n (y ∷ z ∷ w ∷ xs) ys)

header_end_from_le : (i n : ℕ) (xs : List ℕ) → header_end_from i xs ≡ some n → n ≤ i + length xs
unfolding header_end_from
header_end_from_le i n [] e = cc
header_end_from_le i n (x ∷ []) e = cc
header_end_from_le i n (x ∷ y ∷ []) e = ground (arith, e)
header_end_from_le i n (x ∷ y ∷ z ∷ []) e =
    ground (arith, e, header_end_from_le (suc i) n (y ∷ z ∷ []))
header_end_from_le i n (x ∷ y ∷ z ∷ w ∷ xs) e =
    ground (arith, e, header_end_from_le (suc i) n (y ∷ z ∷ w ∷ xs))

pub find_header_end-append :
    (n : ℕ) (xs ys : List ℕ) → find_header_end xs ≡ some n → find_header_end (xs ++ ys) ≡ some n
unfolding find_header_end
find_header_end-append n xs ys e = header_end_from-append 0 n xs ys e

pub find_header_end_le : (n : ℕ) (xs : List ℕ) → find_header_end xs ≡ some n → n ≤ length xs
unfolding find_header_end
find_header_end_le n xs e = omega (arith, header_end_from_le 0 n xs e)
