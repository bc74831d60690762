-- ===== src/Windows/Names.antt =====
-- src/core/shm_win32.cpp: the name of the mapping object of a segment, and the text under which a
-- mapped view is registered. `std::isalnum` is that of the C locale. `to_string` of a number is that of
-- the C++ library, an argument.
use Prim.Native.Nat.{bit_xor}
use xproc.Prelude.{
  ℕ, zero, suc, ◌+◌, ◌-◌, ◌*◌, ◌/◌, ◌%◌, ◌^◌, Bool, true, false, not, ◌&&◌, ◌||◌, List, [], ◌∷◌,
  ◌++◌, ltb, leb, ◌==◌, if◌then◌else◌, bytes,
}

-- `==` of two std::string.
unfoldable pub same_text : List ℕ → List ℕ → Bool
same_text [] [] = true
same_text [] (d ∷ t) = false
same_text (c ∷ s) [] = false
same_text (c ∷ s) (d ∷ t) = c == d && same_text s t

-- The loop of fnv1a64 from the hash `h` on, in 64 bits.
unfoldable pub fnv1a64_from : ℕ → List ℕ → ℕ
fnv1a64_from h [] = h
fnv1a64_from h (c ∷ path) = fnv1a64_from (bit_xor h c * 1099511628211 % 2 ^ 64) path

unfoldable pub fnv1a64 : List ℕ → ℕ
fnv1a64 path = fnv1a64_from 14695981039346656037 path

-- `%016llx`: that many digits of a number in base 16.
abbrev pub hex_digit : ℕ → ℕ
hex_digit d = if ltb d 10 then b'0' + d else b'a' + (d - 10)

unfoldable pub hex_digits : ℕ → ℕ → List ℕ
hex_digits zero n = []
hex_digits (suc k) n = hex_digits k (n / 16) ++ hex_digit (n % 16) ∷ []

unfoldable pub is_alnum : ℕ → Bool
is_alnum c = (leb b'0' c && leb c b'9') || (leb b'A' c && leb c b'Z') || (leb b'a' c && leb c b'z')

-- The loop over the path with `left` characters before kMaxSuffix.
unfoldable pub sanitized : ℕ → List ℕ → List ℕ
sanitized zero path = []
sanitized (suc left) [] = []
sanitized (suc left) (c ∷ path) = (if is_alnum c then c else b'_') ∷ sanitized left path

abbrev pub max_suffix : ℕ
max_suffix = 160

-- An empty name is returned for a namespace that is neither "Local" nor "Global".
unfoldable pub mapping_name_from_path : List ℕ → List ℕ → List ℕ
mapping_name_from_path path namespace =
    if not (same_text namespace (bytes "Local")) && not (same_text namespace (bytes "Global"))
    then []
    else namespace
      ++ bytes "\\xproc_"
      ++ hex_digits 16 (fnv1a64 path)
      ++ b'_' ∷ sanitized max_suffix path

unfoldable pub view_registry_key : (ℕ → List ℕ) → List ℕ → ℕ → ℕ → List ℕ
view_registry_key to_string internal_name map_access size =
    internal_name ++ bytes "|" ++ to_string map_access ++ bytes "|" ++ to_string size
