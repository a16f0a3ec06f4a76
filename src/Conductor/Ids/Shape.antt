-- ===== src/Conductor/Ids/Shape.antt =====
-- The derived identifiers of crates/moe-core/src/conductor.rs are identifiers.
use m_i_o.Prelude.{
  ℕ, zero, suc, ◌/◌, ◌%◌, ◌≤◌, ◌<◌, ◌≡◌, ◌≢◌, refl, true, List, [], ◌∷◌, ◌++◌, arith, ok, length,
  All, length-append,
}
use m_i_o.Text.{Str, lit, bytes, encode_char, len}
use m_i_o.Identifier.{valid_identifier, identifier_byte, identifier_bytes, is_alphanumeric}
use m_i_o.Conductor.Ids.{
  ConductorOperationIds, ConductorDelegationIds, hash_parts, hex_digit, hex_digits,
  stable_identifier, derive, delegation, to_string,
}

abbrev IsAscii : Str → Type 0
IsAscii = All (λ c. c < 0x80)

bytes_of_ascii : (s : Str) → IsAscii s → bytes s ≡ s
unfolding bytes encode_char
bytes_of_ascii [] h = refl
bytes_of_ascii (c ∷ s) h = ground (arith, bytes_of_ascii s h.1)

IsAscii-append : (s t : Str) → IsAscii s → IsAscii t → IsAscii (s ++ t)
IsAscii-append [] t hs ht = ht
IsAscii-append (c ∷ s) t hs ht = (hs.0, IsAscii-append s t hs.1 ht)

identifier_bytes-append :
    (i : ℕ) (s t : List ℕ)
    → identifier_bytes i s ≡ true
    → ((j : ℕ) → 0 < j → identifier_bytes j t ≡ true)
    → s ≢ []
    → identifier_bytes i (s ++ t) ≡ true
unfolding identifier_bytes
identifier_bytes-append i [] t hs ht n = absurd (n refl)
identifier_bytes-append i (c ∷ []) t hs ht n = ground (arith, ht (suc i))
identifier_bytes-append i (c ∷ d ∷ s) t hs ht n =
    ground (arith, identifier_bytes-append (suc i) (d ∷ s) t (ground arith) ht (λ e. cc))

identifier_bytes_later :
    (j : ℕ) (s t : List ℕ)
    → ((k : ℕ) → 0 < k → identifier_bytes k s ≡ true)
    → ((k : ℕ) → 0 < k → identifier_bytes k t ≡ true)
    → 0 < j
    → identifier_bytes j (s ++ t) ≡ true
unfolding identifier_bytes
identifier_bytes_later j [] t hs ht p = ht j p
identifier_bytes_later j (c ∷ s) t hs ht p =
    identifier_bytes-append j (c ∷ s) t (hs j p) ht (λ e. cc)

hex_digit_lt : (d : ℕ) → d < 16 → hex_digit d < 0x80
hex_digit_lt d h = ground arith

hex_digit_fits : (j d : ℕ) → d < 16 → identifier_byte j (hex_digit d) ≡ true
unfolding identifier_byte is_alphanumeric
hex_digit_fits j d h = ground arith

hex_digits-IsAscii : (k n : ℕ) → IsAscii (hex_digits k n)
unfolding hex_digits
hex_digits-IsAscii zero n = tt
hex_digits-IsAscii (suc k) n =
    IsAscii-append (hex_digits k (n / 16)) _ (hex_digits-IsAscii k (n / 16))
      (hex_digit_lt (n % 16) (omega arith), tt)

length-hex_digits : (k n : ℕ) → length (hex_digits k n) ≡ k
unfolding hex_digits
length-hex_digits zero n = refl
length-hex_digits (suc k) n = omega (
  arith,
  length-append (hex_digits k (n / 16)) (hex_digit (n % 16) ∷ []),
  length-hex_digits k (n / 16),
)

hex_digits_fit : (k n j : ℕ) → 0 < j → identifier_bytes j (hex_digits k n) ≡ true
unfolding hex_digits
hex_digits_fit zero n j p = unfold identifier_bytes in refl
hex_digits_fit (suc k) n j p =
    identifier_bytes_later j (hex_digits k (n / 16)) _ (hex_digits_fit k (n / 16))
      (λ i _. unfold identifier_bytes in ground (arith, hex_digit_fits i (n % 16) (omega arith))) p

abbrev stamp : ℕ → ℕ → Str
stamp a b = b'-' ∷ (hex_digits 16 a ++ hex_digits 16 b)

stamp-IsAscii : (a b : ℕ) → IsAscii (stamp a b)
stamp-IsAscii a b = (
  omega arith,
  IsAscii-append (hex_digits 16 a) _ (hex_digits-IsAscii 16 a) (hex_digits-IsAscii 16 b),
)

length-stamp : (a b : ℕ) → length (stamp a b) ≡ 33
length-stamp a b = omega (
  arith,
  length-append (hex_digits 16 a) (hex_digits 16 b),
  length-hex_digits 16 a,
  length-hex_digits 16 b,
)

stamp_fits : (a b j : ℕ) → 0 < j → identifier_bytes j (stamp a b) ≡ true
unfolding identifier_bytes identifier_byte is_alphanumeric
stamp_fits a b j p =
    let rest : identifier_bytes (suc j) (hex_digits 16 a ++ hex_digits 16 b) ≡ true =
      identifier_bytes_later (suc j) (hex_digits 16 a) _ (hex_digits_fit 16 a) (hex_digits_fit 16 b)
        (omega arith) in
    ground arith

-- A list of ASCII characters that passes the byte test and is short enough is an identifier.
valid_of_ascii :
    (s : Str)
    → IsAscii s
    → s ≢ []
    → length s ≤ 128
    → identifier_bytes 0 s ≡ true
    → valid_identifier s ≡ true
unfolding valid_identifier len
valid_of_ascii [] ascii n short fits = absurd (n refl)
valid_of_ascii (c ∷ s) ascii n short fits = rw (bytes_of_ascii (c ∷ s) ascii) (ground arith)

abbrev IsGoodPrefix : Str → Type 0
IsGoodPrefix prefix =
    (identifier_bytes 0 prefix ≡ true) × IsAscii prefix × (prefix ≢ []) × (length prefix ≤ 95)

append-ne-nil : (s t : Str) → s ≢ [] → s ++ t ≢ []
append-ne-nil [] t h = absurd (h refl)
append-ne-nil (c ∷ s) t h = λ e. cc

-- A hashed identifier is its prefix and 33 more characters, whatever was hashed: with an ASCII
-- prefix of 1 to 95 characters that an identifier may start with, it is an identifier.
pub stable_identifier-valid :
    (prefix : Str) (parts : List Str)
    → IsGoodPrefix prefix
    → valid_identifier (stable_identifier prefix parts) ≡ true
unfolding stable_identifier
stable_identifier-valid prefix parts (fits, ascii, nonempty, short) =
    let (first, second) = hash_parts (0xcbf29ce484222325, 0x84222325cbf29ce4) parts in
    valid_of_ascii (prefix ++ stamp first second)
      (IsAscii-append prefix (stamp first second) ascii (stamp-IsAscii first second))
      (append-ne-nil prefix (stamp first second) nonempty)
      (omega (arith, length-append prefix (stamp first second), length-stamp first second))
      (identifier_bytes-append 0 prefix (stamp first second) fits (stamp_fits first second)
        nonempty)

operation_prefix : IsGoodPrefix (lit "conductor-operation-v1")
unfolding identifier_bytes identifier_byte is_alphanumeric
operation_prefix = (refl, omega arith, (λ e. cc), omega arith)

final_prefix : IsGoodPrefix (lit "conductor-final-v1")
unfolding identifier_bytes identifier_byte is_alphanumeric
final_prefix = (refl, omega arith, (λ e. cc), omega arith)

delegation_prefix : IsGoodPrefix (lit "conductor-delegation-v1")
unfolding identifier_bytes identifier_byte is_alphanumeric
delegation_prefix = (refl, omega arith, (λ e. cc), omega arith)

dispatch_prefix : IsGoodPrefix (lit "conductor-dispatch-v1")
unfolding identifier_bytes identifier_byte is_alphanumeric
dispatch_prefix = (refl, omega arith, (λ e. cc), omega arith)

-- Every identifier that `derive` and `delegation` hand out passes the identifier test itself, so
-- the room accepts it for a message.
pub derived_ids_valid :
    (source_message_id conductor_id target : Str) (ordinal : ℕ) {ids : ConductorOperationIds}
    {worker : ConductorDelegationIds}
    → derive source_message_id conductor_id ≡ ok ids
    → delegation ids target ordinal ≡ ok worker
    → (valid_identifier ids.operation_id ≡ true)
      × (valid_identifier ids.final_message_id ≡ true)
      × (valid_identifier worker.message_id ≡ true)
      × (valid_identifier worker.dispatch_id ≡ true)
unfolding derive delegation
derived_ids_valid m c target n {ids} h k = ground (
  arith,
  stable_identifier-valid _ (m ∷ c ∷ []) operation_prefix,
  stable_identifier-valid _ (ids.operation_id ∷ []) final_prefix,
  stable_identifier-valid _ (ids.operation_id ∷ target ∷ to_string n ∷ []) delegation_prefix,
  stable_identifier-valid _ (ids.operation_id ∷ target ∷ to_string n ∷ []) dispatch_prefix,
)
