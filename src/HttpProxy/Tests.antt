-- ===== src/HttpProxy/Tests.antt =====
-- Runs of the HTTP parser.
use iwa_brook_quic.Base.{
  ℕ, zero, suc, ◌<◌, ◌≡◌, refl, sym, ap, subst, ◌∙◌, append-nil, true, false, none, some, List, [],
  ◌∷◌, ◌++◌, length, arith,
}
use iwa_brook_quic.Socks5.{ends}
use iwa_brook_quic.HttpProxy.{
  find_header_end, header_end_from, read_headers, refused, too_large, max_header_bytes, established,
  send_http_success, send_http_failure,
}
use iwa_brook_quic.HttpProxy.Reading.{
  IsRead, as_reads, join, read_headers-IsRead, read_headers-too_large,
}

-- `GET\r`, `\n\r` and `\nab`
abbrev first_part : List ℕ
first_part = b'G' ∷ b'E' ∷ b'T' ∷ 13 ∷ []

abbrev more_parts : List (List ℕ)
more_parts = (10 ∷ 13 ∷ []) ∷ (10 ∷ b'a' ∷ b'b' ∷ []) ∷ []

seven : find_header_end (first_part ++ join more_parts) ≡ some 7
unfolding find_header_end header_end_from
seven = refl

read_headers-IsRead_example :
    IsRead 7 first_part more_parts
      (ends ∷ [])
      (read_headers first_part (as_reads more_parts (ends ∷ [])))
read_headers-IsRead_example =
    read_headers-IsRead 7 first_part more_parts (ends ∷ []) seven (omega arith)

-- Spaces without an end.
spaces : ℕ → List ℕ
spaces zero = []
spaces (suc n) = 32 ∷ spaces n

no_end : (i n : ℕ) → header_end_from i (spaces n) ≡ none
unfolding header_end_from spaces
no_end i zero = refl
no_end i (suc zero) = refl
no_end i (suc (suc n)) = no_end (suc i) (suc n)

length-spaces : (n : ℕ) → length (spaces n) ≡ n
unfolding spaces
length-spaces zero = refl
length-spaces (suc n) = omega (arith, length-spaces n)

-- A reply is written once.
established_once :
    (send_http_failure 502
      (send_http_success true (record { reply_sent = false; written = [] }))).written
    ≡ established ∷ []
unfolding send_http_success send_http_failure
established_once = refl

all_spaces : find_header_end (spaces 65537 ++ join []) ≡ none
unfolding find_header_end
all_spaces = ap find_header_end (append-nil (spaces 65537)) ∙ no_end 0 65537

too_many : max_header_bytes < length (spaces 65537 ++ join [])
too_many =
    subst (λ xs. max_header_bytes < length xs) (sym (append-nil (spaces 65537)))
      (omega (arith, length-spaces 65537))

read_headers-too_large_example : read_headers (spaces 65537) (as_reads [] []) ≡ refused too_large
read_headers-too_large_example = read_headers-too_large (spaces 65537) [] [] all_spaces too_many
