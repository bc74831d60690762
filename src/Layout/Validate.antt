-- ===== src/Layout/Validate.antt =====
-- layout_manager::validate_detailed: what it accepts, and what each of its errors means.
use xproc.Prelude.{
  ℕ, ◌+◌, ◌-◌, ◌%◌, ◌≤◌, ◌<◌, ◌≡◌, refl, sym, ◌∙◌, subst, ◌≢◌, ◌↔◌, ◌⊎◌, inl, inr, true, false,
  Option, none, some, arith, bit_and,
}
use xproc.Prelude.Bits.{pow2_of_mask, mask_of_pow2}
use xproc.Errors.{
  ValidateError, no_error, bad_magic, not_ready_timeout, version_mismatch, header_size_mismatch,
  layout_type_mismatch, fixed_item_size_mismatch, schema_id_mismatch, alignment_invalid,
  capacity_insufficient, fixed_item_size_incompatible,
}
use xproc.Options.{Abi}
use xproc.Options.Laws.{IsAlignment, map_right}
use xproc.Layout.Wait.{FirstReady, wait_ready_sound, wait_ready_complete, wait_ready_timeout}
use xproc.Layout.{
  ControlBlock, Expected, or_default_align, is_power_of_two_uint32, wait_ready, check_fields,
  check_ready, validate_within, validate_detailed, is_ready_spin_limit,
}

-- The block fits the caller's expectations and the ABI of this build.
pub record Matches (abi : Abi) (h : ControlBlock) (x : Expected) : Type 0 where
  pub major : h.version_major ≡ abi.version_major
  pub minor : h.version_minor ≡ abi.version_minor
  pub size : h.header_size ≡ abi.sizeof_control_block
  pub layout : h.layout_type ≡ x.layout
  pub item : h.fixed_item_size ≡ x.item_size
  pub whole_items : h.fixed_item_size ≢ 0 → h.data_capacity % h.fixed_item_size ≡ 0
  pub schema : h.schema_id ≡ x.schema
  pub alignment : h.data_alignment ≡ or_default_align x.alignment
  pub pow2 : IsAlignment h.data_alignment
  pub room : x.capacity ≤ h.data_capacity

abbrev pub FieldDefect : Abi → ControlBlock → Expected → ValidateError → Type 0
FieldDefect abi h x version_mismatch =
    (h.version_major ≢ abi.version_major) ⊎ (h.version_minor ≢ abi.version_minor)
FieldDefect abi h x header_size_mismatch = h.header_size ≢ abi.sizeof_control_block
FieldDefect abi h x layout_type_mismatch = h.layout_type ≢ x.layout
FieldDefect abi h x fixed_item_size_mismatch = h.fixed_item_size ≢ x.item_size
FieldDefect abi h x fixed_item_size_incompatible =
    (h.fixed_item_size ≢ 0) × (h.data_capacity % h.fixed_item_size ≢ 0)
FieldDefect abi h x schema_id_mismatch = h.schema_id ≢ x.schema
FieldDefect abi h x alignment_invalid =
    (h.data_alignment ≢ or_default_align x.alignment) ⊎ (¬ IsAlignment h.data_alignment)
FieldDefect abi h x capacity_insufficient = h.data_capacity < x.capacity
FieldDefect abi h x no_error = Matches abi h x
FieldDefect abi h x _ = ⊥

pub is_power_of_two_uint32_iff : (a : ℕ) → (is_power_of_two_uint32 a ≡ true) ↔ IsAlignment a
unfolding is_power_of_two_uint32
is_power_of_two_uint32_iff a = (forward, backward)
  where
    forward : is_power_of_two_uint32 a ≡ true → IsAlignment a
    forward h = let big : 4 ≤ a = ground arith in (big, pow2_of_mask a (omega arith) (ground arith))

    backward : IsAlignment a → is_power_of_two_uint32 a ≡ true
    backward (big, (k, e)) =
        let mask : bit_and a (a - 1) ≡ 0 = rw e (mask_of_pow2 k) in ground arith

pub check_fields_iff :
    (abi : Abi) (h : ControlBlock) (x : Expected)
    → (check_fields abi h x ≡ no_error) ↔ Matches abi h x
unfolding check_fields
check_fields_iff abi h x = (forward, backward)
  where
    aligned : (is_power_of_two_uint32 h.data_alignment ≡ true) ↔ IsAlignment h.data_alignment
    aligned = is_power_of_two_uint32_iff h.data_alignment

    forward : check_fields abi h x ≡ no_error → Matches abi h x
    forward e = record {
      major = ground arith;
      minor = ground arith;
      size = ground arith;
      layout = ground arith;
      item = ground arith;
      whole_items = ground arith;
      schema = ground arith;
      alignment = ground arith;
      pow2 = aligned.0 (ground arith);
      room = ground arith;
    }

    backward : Matches abi h x → check_fields abi h x ≡ no_error
    backward m =
        let test : is_power_of_two_uint32 h.data_alignment ≡ true = aligned.1 m.pow2 in ground arith

-- The magic number is the expected one at the first read, and the block that the wait finds ready
-- matches.
abbrev pub Accepts : Abi → ℕ → (ℕ → ControlBlock) → Expected → Type 0
Accepts abi limit memory x =
    ((memory 0).magic ≡ abi.expected_magic)
    × ((j : ℕ) × FirstReady memory limit 1 j × Matches abi (memory j) x)

-- What is wrong with the block, for each error that a check of it can report.
abbrev pub Defect : Abi → ℕ → (ℕ → ControlBlock) → Expected → ValidateError → Type 0
Defect abi limit memory x bad_magic = (memory 0).magic ≢ abi.expected_magic
Defect abi limit memory x not_ready_timeout =
    (k : ℕ) → 1 ≤ k → k < 1 + limit → (memory k).is_ready ≡ false
Defect abi limit memory x no_error = Accepts abi limit memory x
Defect abi limit memory x e = (j : ℕ) × FirstReady memory limit 1 j × FieldDefect abi (memory j) x e

-- Each outcome of the checks behind the wait says what holds of the block.
module _ (abi : Abi) (h : ControlBlock) (x : Expected) where
  check_fields_alignment :
      check_fields abi h x ≡ alignment_invalid
      → (h.data_alignment ≢ or_default_align x.alignment)
        ⊎ (is_power_of_two_uint32 h.data_alignment ≡ false)
  unfolding check_fields
  check_fields_alignment q = ground arith

  check_fields-FieldDefect : (e : ValidateError) → check_fields abi h x ≡ e → FieldDefect abi h x e
  unfolding check_fields
  check_fields-FieldDefect no_error q = (check_fields_iff abi h x).0 q
  check_fields-FieldDefect alignment_invalid q =
      map_right (λ r i. refute r ((is_power_of_two_uint32_iff h.data_alignment).1 i))
        (check_fields_alignment q)
    where
      refute :
          is_power_of_two_uint32 h.data_alignment ≡ false
          → is_power_of_two_uint32 h.data_alignment ≡ true
          → ⊥
      refute a b = cc
  check_fields-FieldDefect version_mismatch q = ground arith
  check_fields-FieldDefect _ q = ground arith

module _ (abi : Abi) (limit : ℕ) (memory : ℕ → ControlBlock) (x : Expected) where
  validate_within_cases :
      ((memory 0).magic ≢ abi.expected_magic) × (validate_within abi limit memory x ≡ bad_magic)
      ⊎ ((memory 0).magic ≡ abi.expected_magic)
        × (validate_within abi limit memory x ≡ check_ready abi (wait_ready memory limit 1) x)
  unfolding validate_within
  validate_within_cases = ground arith

  Defect-of_FieldDefect :
      (e : ValidateError) (j : ℕ)
      → (memory 0).magic ≡ abi.expected_magic
      → FirstReady memory limit 1 j
      → FieldDefect abi (memory j) x e
      → Defect abi limit memory x e
  Defect-of_FieldDefect bad_magic j m f d = absurd d
  Defect-of_FieldDefect not_ready_timeout j m f d = absurd d
  Defect-of_FieldDefect no_error j m f d = (m, (j, f, d))
  Defect-of_FieldDefect _ j m f d = (j, f, d)

  check_ready-Defect :
      (seen : Option ControlBlock) (e : ValidateError)
      → 0 < limit
      → (memory 0).magic ≡ abi.expected_magic
      → wait_ready memory limit 1 ≡ seen
      → check_ready abi seen x ≡ e
      → Defect abi limit memory x e
  unfolding check_ready
  check_ready-Defect none e p m w q =
      subst (Defect abi limit memory x) q (wait_ready_timeout memory limit 1 p w)
  check_ready-Defect (some h) e p m w q =
      let (j, f, same) = wait_ready_sound memory limit 1 h p w in
      Defect-of_FieldDefect e j m f (check_fields-FieldDefect abi (memory j) x e (rw same q))

  pub validate_within-Defect :
      (e : ValidateError)
      → 0 < limit
      → validate_within abi limit memory x ≡ e
      → Defect abi limit memory x e
  validate_within-Defect e p q = elim validate_within_cases [
    | inl (m, b) ↦ subst (Defect abi limit memory x) (sym b ∙ q) m
    | inr (m, b) ↦ check_ready-Defect (wait_ready memory limit 1) e p m refl (sym b ∙ q)
  ]

  pub validate_within-Accepts :
      Accepts abi limit memory x → validate_within abi limit memory x ≡ no_error
  unfolding validate_within check_ready
  validate_within-Accepts (m, (j, f, fits)) =
      let seen : wait_ready memory limit 1 ≡ some (memory j) =
        wait_ready_complete memory limit 1 j f in
      let fine : check_fields abi (memory j) x ≡ no_error =
        (check_fields_iff abi (memory j) x).1 fits in
      ground arith

-- Checking a mapped block succeeds exactly if its magic number is right at the first read, one of
-- the first is_ready_spin_limit loads of is_ready finds it set, and the block found then agrees
-- with the ABI of the build and with what the caller expects: versions, header size, layout, item
-- size that divides the capacity, schema, alignment (a power of two from 4 on) and capacity.
pub validate_detailed_iff :
    (abi : Abi) (memory : ℕ → ControlBlock) (x : Expected)
    → (validate_detailed abi (some memory) x ≡ no_error) ↔ Accepts abi is_ready_spin_limit memory x
unfolding validate_detailed
validate_detailed_iff abi memory x = (
  validate_within-Defect abi is_ready_spin_limit memory x no_error (omega arith),
  validate_within-Accepts abi is_ready_spin_limit memory x,
)

-- Each outcome of a check is true of the block: a bad magic number was read first, or every load of
-- is_ready up to the limit found it unset, or the block that the wait found ready has the defect
-- that the error names.
pub validate_detailed-Defect :
    (abi : Abi) (memory : ℕ → ControlBlock) (x : Expected) (e : ValidateError)
    → validate_detailed abi (some memory) x ≡ e
    → Defect abi is_ready_spin_limit memory x e
unfolding validate_detailed
validate_detailed-Defect abi memory x e q =
    validate_within-Defect abi is_ready_spin_limit memory x e (omega arith) q
