-- ===== src/Dns/Message.antt =====
-- The responses of RFC 1035 that a resolver sends: names as labels or as a pointer, and the records.
use iwa_brook_quic.Base.{
  ℕ, ◌/◌, ◌%◌, ◌≤◌, ◌<◌, ◌==◌, if◌then◌else◌, List, [], ◌∷◌, ◌++◌, length, All,
}
use iwa_brook_quic.Base.Int.{int32}
use iwa_brook_quic.Dns.{Address, dotted}

-- A label has 1 to 63 bytes.
pub record IsLabel (label : List ℕ) : Type 0 where
  pub present : 1 ≤ length label
  pub short : length label ≤ 63

unfoldable pub encode_labels : List (List ℕ) → List ℕ
encode_labels [] = []
encode_labels (label ∷ labels) = length label ∷ (label ++ encode_labels labels)

-- The name of a record: a pointer to an earlier name, by its two bytes, or labels.
pub data RecordName : Type 0 where
  pointer : ℕ → ℕ → RecordName
  labels : List (List ℕ) → RecordName

abbrev pub IsName : RecordName → Type 0
IsName (pointer hi lo) = (192 ≤ hi) × (hi < 256) × (lo < 256)
IsName (labels parts) = All IsLabel parts

abbrev pub encode_name : RecordName → List ℕ
encode_name (pointer hi lo) = hi ∷ lo ∷ []
encode_name (labels parts) = encode_labels parts ++ (0 ∷ [])

pub record ResourceRecord : Type 0 where
  pub name : RecordName
  pub type_code : ℕ
  pub class_code : ℕ
  pub ttl : ℕ
  pub rdata : List ℕ

pub record IsRecord (r : ResourceRecord) : Type 0 where
  pub named : IsName r.name
  pub type_fits : r.type_code < 65536
  pub ttl_fits : r.ttl < 4294967296
  pub data_fits : length r.rdata < 65536

abbrev pub word : ℕ → List ℕ → List ℕ
word n rest = n / 256 ∷ n % 256 ∷ rest

abbrev pub double_word : ℕ → List ℕ → List ℕ
double_word n rest = n / 16777216 ∷ n / 65536 % 256 ∷ n / 256 % 256 ∷ n % 256 ∷ rest

-- The fixed fields behind the name, and the data.
abbrev pub encode_fields : ResourceRecord → List ℕ → List ℕ
encode_fields r rest =
    word r.type_code
      (word r.class_code (double_word r.ttl (word (length r.rdata) (r.rdata ++ rest))))

unfoldable pub encode_records : List ResourceRecord → List ℕ → List ℕ
encode_records [] rest = rest
encode_records (r ∷ rs) rest = encode_name r.name ++ encode_fields r (encode_records rs rest)

-- What the client is after: the addresses of the records of type A with four bytes.
abbrev pub address_of : List ℕ → ℕ → List Address
address_of (a ∷ b ∷ c ∷ d ∷ []) ttl = record { ip = dotted a b c d; ttl = int32 ttl } ∷ []
address_of _ ttl = []

unfoldable pub addresses : List ResourceRecord → List Address
addresses [] = []
addresses (r ∷ rs) = (if r.type_code == 1 then address_of r.rdata r.ttl else []) ++ addresses rs

-- The response to a question: its id and flags, the counts, the question as it was asked, the
-- answers, and whatever comes behind them; and the same with its length prefix.
abbrev pub encode_message : ℕ → ℕ → ℕ → ℕ → List (List ℕ) → List ResourceRecord → List ℕ → List ℕ
encode_message id flags authorities others question answers rest = word id (
    word flags (
      word 1 (
        word (length answers) (
          word authorities (
            word others (
              (encode_labels question ++ (0 ∷ []))
              ++ (0 ∷ 1 ∷ 0 ∷ 1 ∷ encode_records answers rest)))))))

abbrev pub with_length_prefix : List ℕ → List ℕ
with_length_prefix message = word (length message) message
