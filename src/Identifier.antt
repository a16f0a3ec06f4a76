-- ===== src/Identifier.antt =====
-- The identifiers and texts that crates/moe-core accepts: the helpers at the end of room.rs and
-- conductor.rs. The two files hold the same `valid_identifier`.
use m_i_o.Prelude.{
  ℕ, suc, Bool, true, false, ◌&&◌, ◌||◌, not, List, [], ◌∷◌, ltb, leb, nat_beq, between,
  if◌then◌else◌, is_empty, all,
}
use m_i_o.Text.{Str, bytes, len, is_blank}

abbrev pub maximum_identifier_bytes : ℕ
maximum_identifier_bytes = 128

unfoldable pub is_alphanumeric : ℕ → Bool
is_alphanumeric byte = between b'a' b'z' byte || between b'A' b'Z' byte || between b'0' b'9' byte

unfoldable pub identifier_byte : ℕ → ℕ → Bool
unfolding is_alphanumeric
identifier_byte index byte =
    if is_alphanumeric byte
    then true
    else if nat_beq byte b'.' || nat_beq byte b'_' || nat_beq byte b'-'
    then ltb 0 index
    else false

-- `bytes().enumerate().all(..)`, from an index on.
unfoldable pub identifier_bytes : ℕ → List ℕ → Bool
unfolding identifier_byte
identifier_bytes index [] = true
identifier_bytes index (byte ∷ rest) =
    identifier_byte index byte && identifier_bytes (suc index) rest

unfoldable pub valid_identifier : Str → Bool
unfolding identifier_bytes len bytes
valid_identifier value =
    not (is_empty value)
    && leb (len value) maximum_identifier_bytes
    && identifier_bytes 0 (bytes value)

unfoldable pub valid_text : Str → ℕ → Bool
unfolding len
valid_text value maximum = not (is_empty value) && leb (len value) maximum

unfoldable pub valid_bounded_text : Str → ℕ → Bool
unfolding is_blank len
valid_bounded_text value maximum_bytes = not (is_blank value) && leb (len value) maximum_bytes

-- `u8::is_ascii_graphic`, and the texts of such bytes that the ledgers of
-- apps/desktop/src-tauri/src (ai_dispatch_ledger.rs, room_orchestration_ledger.rs) accept; their
-- two `valid_timestamp` are the same.
unfoldable pub valid_graphic_text : Str → ℕ → Bool
unfolding all
valid_graphic_text value maximum =
    not (is_empty value) && leb (len value) maximum && all (between b'!' b'~') (bytes value)

abbrev pub valid_timestamp : Str → Bool
valid_timestamp value = valid_graphic_text value 64
