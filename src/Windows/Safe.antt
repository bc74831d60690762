-- ===== src/Windows/Safe.antt =====
-- The names of mapping objects: bounded, and of letters, digits and underscores behind the prefix.
use xproc.Prelude.{
  ℕ, zero, suc, ◌/◌, ◌%◌, ◌≤◌, ◌<◌, ◌≡◌, refl, sym, subst, ◌∙◌, ◌≢◌, ◌⊎◌, inl, inr, true, false,
  List, [], ◌∷◌, ◌++◌, All, length, length-append, arith, Bool-cases, bytes, if◌then◌else◌,
}
use mathlib.Core.List.{append_assoc}
use xproc.Windows.Names.{
  same_text, fnv1a64, hex_digit, hex_digits, is_alnum, sanitized, max_suffix,
  mapping_name_from_path,
}
use xproc.Windows.Views.Lookup.{same_text_sound, same_text_refl}

-- A letter, a digit or an underscore.
abbrev pub IsNameChar : ℕ → Type 0
IsNameChar c = (is_alnum c ≡ true) ⊎ (c ≡ b'_')

-- What the name of a segment is: empty for a namespace that Windows does not have, else the
-- namespace, the prefix, and at most 177 characters of a name.
pub data SafeName (namespace name : List ℕ) : Type 0 where
  refused :
      namespace ≢ bytes "Local" → namespace ≢ bytes "Global" → name ≡ [] → SafeName namespace name
  named :
      (suffix : List ℕ)
      → (namespace ≡ bytes "Local") ⊎ (namespace ≡ bytes "Global")
      → name ≡ namespace ++ bytes "\\xproc_" ++ suffix
      → All IsNameChar suffix
      → length suffix ≤ 177
      → SafeName namespace name

All-append : (s t : List ℕ) → All IsNameChar s → All IsNameChar t → All IsNameChar (s ++ t)
All-append [] t a b = b
All-append (c ∷ s) t (h, a) b = (h, All-append s t a b)

hex_digit-IsNameChar : (d : ℕ) → d < 16 → is_alnum (hex_digit d) ≡ true
unfolding is_alnum
hex_digit-IsNameChar d h = ground arith

hex_digits_lem : (k n : ℕ) → All IsNameChar (hex_digits k n) × (length (hex_digits k n) ≡ k)
unfolding hex_digits
hex_digits_lem zero n = (tt, refl)
hex_digits_lem (suc k) n =
    let (chars, count) = hex_digits_lem k (n / 16) in
    (
      All-append (hex_digits k (n / 16)) (hex_digit (n % 16) ∷ []) chars
          (inl (hex_digit-IsNameChar (n % 16) (omega arith)), tt),
      length-append (hex_digits k (n / 16)) (hex_digit (n % 16) ∷ []) ∙ omega (arith, count),
    )

sanitized_lem :
    (left : ℕ) (path : List ℕ)
    → All IsNameChar (sanitized left path) × (length (sanitized left path) ≤ left)
unfolding sanitized
sanitized_lem zero path = (tt, omega arith)
sanitized_lem (suc left) [] = (tt, omega arith)
sanitized_lem (suc left) (c ∷ path) =
    let (chars, count) = sanitized_lem left path in
    ((replaced (Bool-cases (is_alnum c)), chars), omega (arith, count))
  where
    replaced :
        (is_alnum c ≡ true) ⊎ (is_alnum c ≡ false) → IsNameChar (if is_alnum c then c else b'_')
    replaced (inl e) = rw e (inl e)
    replaced (inr e) = rw e (inr refl)

-- Whatever the path, the name of its mapping object is empty exactly if the namespace is neither
-- "Local" nor "Global"; else it is the namespace, `\xproc_`, and at most 177 letters, digits and
-- underscores, so that it has no other backslash and no `|`.
pub mapping_name_from_path-SafeName :
    (path namespace : List ℕ) → SafeName namespace (mapping_name_from_path path namespace)
unfolding mapping_name_from_path
mapping_name_from_path-SafeName path namespace =
    elim (Bool-cases (same_text namespace (bytes "Local"))) [
      | inl e ↦
          rw (e, mapping_name_from_path) (valid (inl (same_text_sound namespace (bytes "Local") e)))
      | inr e ↦ elim (Bool-cases (same_text namespace (bytes "Global"))) [
        | inl d ↦
            rw (e, d, mapping_name_from_path)
              (valid (inr (same_text_sound namespace (bytes "Global") d)))
        | inr d ↦ rw (e, d, mapping_name_from_path) (refused (differs e) (differs d) refl)
      ]
    ]
  where
    differs : {t : List ℕ} → same_text namespace t ≡ false → namespace ≢ t
    differs e same =
        let equal = same_text_refl namespace in
        let other : same_text namespace namespace ≡ false =
          subst (λ u. same_text namespace u ≡ false) (sym same) e in
        cc

    suffix : List ℕ
    suffix = hex_digits 16 (fnv1a64 path) ++ b'_' ∷ sanitized max_suffix path

    valid :
        (namespace ≡ bytes "Local") ⊎ (namespace ≡ bytes "Global")
        → SafeName namespace (
            namespace
            ++ bytes "\\xproc_"
            ++ hex_digits 16 (fnv1a64 path)
            ++ b'_' ∷ sanitized max_suffix path)
    valid h =
        let (hex, count) = hex_digits_lem 16 (fnv1a64 path) in
        let (rest, bound) = sanitized_lem max_suffix path in
        named suffix h
          (append_assoc (namespace ++ bytes "\\xproc_") (hex_digits 16 (fnv1a64 path))
            (b'_' ∷ sanitized max_suffix path))
          (All-append (hex_digits 16 (fnv1a64 path)) (b'_' ∷ sanitized max_suffix path) hex
            (inr refl, rest))
          (omega (
            arith,
            count,
            bound,
            length-append (hex_digits 16 (fnv1a64 path)) (b'_' ∷ sanitized max_suffix path),
          ))
