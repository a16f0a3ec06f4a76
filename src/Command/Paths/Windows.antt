-- ===== src/Command/Paths/Windows.antt =====
-- The names that a directory may have on Windows: what takes the place of `valid_path_segment` in
-- a Windows build of crates/moe-command-broker/src/lib.rs. A name is its encoded bytes.
use m_i_o.Prelude.{
  ℕ, ◌-◌, Bool, true, false, not, ◌&&◌, ◌||◌, ◌≡◌, refl, Option, none, some, List, [], ◌∷◌, ◌++◌,
  map, arith, nat_beq, between, if◌then◌else◌, is_empty, contains, last, ◌==◌, nat_eq, list_eq,
  option_eq,
}
use m_i_o.Text.{lit, is_utf8}
use m_i_o.Command.Paths.{PathBuf, split, valid_path_segment}

abbrev to_ascii_uppercase : List ℕ → List ℕ
to_ascii_uppercase = map (λ c. if between b'a' b'z' c then c - 32 else c)

-- `str::strip_prefix`.
unfoldable pub strip_prefix : List ℕ → List ℕ → Option (List ℕ)
strip_prefix [] s = some s
strip_prefix (p ∷ prefix) [] = none
strip_prefix (p ∷ prefix) (c ∷ s) =
    let rest = strip_prefix prefix s in if nat_beq p c then rest else none

-- The digits, then the superscripts in UTF-8.
abbrev device_numbers : List (List ℕ)
device_numbers =
    map (λ digit. digit ∷ []) (lit "0123456789")
    ++ map (λ c. 0xc2 ∷ c ∷ []) (0xb9 ∷ 0xb2 ∷ 0xb3 ∷ [])
    ++ map (λ c. 0xe2 ∷ 0x81 ∷ c ∷ []) (0xb0 ∷ 0xb4 ∷ 0xb5 ∷ 0xb6 ∷ 0xb7 ∷ 0xb8 ∷ 0xb9 ∷ [])

unfoldable pub windows_numbered_device_name : List ℕ → Bool
unfolding strip_prefix
windows_numbered_device_name device_name = elim (strip_prefix (lit "COM") device_name) [
  | some number ↦ contains device_numbers number
  | none ↦ elim (strip_prefix (lit "LPT") device_name) [
    | some number ↦ contains device_numbers number
    | none ↦ false
  ]
]

abbrev device_names : List (List ℕ)
device_names =
    lit "CON" ∷ lit "PRN" ∷ lit "AUX" ∷ lit "NUL" ∷ lit "CLOCK$" ∷ lit "CONIN$" ∷ lit "CONOUT$" ∷ []

abbrev first_piece : List (List ℕ) → List ℕ
first_piece [] = []
first_piece (piece ∷ pieces) = piece

-- The name in front of the first dot, in upper case.
unfoldable pub device_name : List ℕ → List ℕ
unfolding split
device_name segment = to_ascii_uppercase (first_piece (split b'.' segment))

unfoldable pub windows_valid_path_segment : PathBuf → Bool
unfolding device_name windows_numbered_device_name
windows_valid_path_segment segment =
    if not (is_utf8 segment)
    then false
    else if is_empty segment
        || last segment == some b' '
        || last segment == some b'.'
        || contains segment b':'
        || contains segment 0
    then false
    else not (contains device_names (device_name segment))
      && not (windows_numbered_device_name (device_name segment))

-- A name that is accepted on Windows is accepted elsewhere, and has no drive or stream in it.
valid_on_windows :
    (segment : PathBuf)
    → windows_valid_path_segment segment ≡ true
    → (valid_path_segment segment ≡ true) × (contains segment b':' ≡ false)
unfolding windows_valid_path_segment valid_path_segment
valid_on_windows segment h = ground (arith, h)

piece_before_dot :
    (name extension : List ℕ)
    → contains name b'.' ≡ false
    → first_piece (split b'.' (name ++ b'.' ∷ extension)) ≡ name
unfolding split contains
piece_before_dot [] extension h = refl
piece_before_dot (c ∷ name) extension h = ground (arith, h, piece_before_dot name extension)

-- The name of a device is refused whatever its case and whatever extension it is given.
device_with_extension :
    (name extension : List ℕ)
    → contains name b'.' ≡ false
    → (contains device_names (to_ascii_uppercase name)
        || windows_numbered_device_name (to_ascii_uppercase name))
      ≡ true
    → windows_valid_path_segment (name ++ b'.' ∷ extension) ≡ false
unfolding windows_valid_path_segment device_name
device_with_extension name extension plain reserved =
    ground (arith, piece_before_dot name extension plain, reserved)
