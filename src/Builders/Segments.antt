-- ===== src/Builders/Segments.antt =====
-- What reading a segment gives that was formatted with the options of a builder.
use xproc.Prelude.{
  ℕ, ◌<◌, ◌≡◌, refl, sym, ap, ◌∙◌, ◌≢◌, ◌⊎◌, inl, inr, true, false, List, [], some, arith,
}
use xproc.Errors.{ok, no_error}
use xproc.Options.{Abi, TransportOptions}
use xproc.Options.Laws.{IsAlignment, IsValid, validate_transport_options_iff, capacity-size}
use xproc.Layout.{
  ControlBlock, Expected, Creation, InitControlBlock, or_default_align, format, is_ready_spin_limit,
  validate, validate_detailed, ref_count,
}
use xproc.Layout.Validate.{Matches, validate_detailed_iff}
use xproc.Layout.Format.{InitLaw, init_header-eq-ok, constant_ready, publish-Matches}
use xproc.Shm.{Kernel}
use xproc.Endpoint.{expected_of}
use xproc.Builders.{FixedChannelBuilder, VarlenChannelBuilder, fixed_fields, varlen_fields}
use xproc.Builders.Laws.{FitsSize, size_of_capacity}
use xproc.Shm.Read.{Readable}
use xproc.Builders.Retry.{open_rounds_outcome}
use xproc.Builders.Existing.{
  Segment, ChannelAttacher, own_fields, existing_fields, read_existing_shm_options, read_header,
  read_mapping,
}

-- A segment that nobody changes while it is read.
abbrev pub quiet : (ℕ → Kernel) → ControlBlock → Segment
quiet kernels h = record { kernels = kernels; before = h; memory = λ i. h; after = h }

-- What a creator leaves that formatted a segment with the expectations `x`.
pub record Made (abi : Abi) (x : Expected) (c : Creation) (h : ControlBlock) : Type 0 where
  pub magic : h.magic ≡ abi.expected_magic
  pub ready : h.is_ready ≡ true
  pub count : h.attach_count ≡ 1
  pub fits : Matches abi h x
  pub capacity : h.data_capacity ≡ x.capacity
  pub timestamp : h.creator_timestamp_ns ≡ c.timestamp
  pub flags : h.creator_flags ≡ c.flags

module _ (abi : Abi) (init : InitControlBlock) (law : InitLaw abi init) where
  pub format-Made :
      (memory : ℕ → ControlBlock) (h : ControlBlock) (x : Expected) (c : Creation)
      → (x.alignment ≡ 0) ⊎ IsAlignment x.alignment
      → format abi init true memory true x c ref_count ≡ (true, h)
      → Made abi x c h
  unfolding format
  format-Made memory h x c a e =
      let (done, whole, shape) =
        init_header-eq-ok abi init (memory 0) h x c.timestamp c.flags c.pid e in
      let r = (memory 0).spscring_cb in
      let (magic, fits) =
        publish-Matches abi init law r x x.capacity c.timestamp c.flags c.pid done whole a
          (omega arith) in
      let w = law.arguments r x.capacity x.layout (or_default_align x.alignment) x.item_size done in
      rw shape (record {
        magic = magic;
        ready = refl;
        count = refl;
        fits = fits;
        capacity = w.0;
        timestamp = refl;
        flags = refl;
      })

default_idem : (a : ℕ) → or_default_align (or_default_align a) ≡ or_default_align a
default_idem a = ground arith

default_align_twice : (a : ℕ) → IsAlignment a → a ≡ or_default_align a
default_align_twice a (big, k) = ground arith

module _ (abi : Abi) (h : ControlBlock) (x : Expected) (c : Creation) (made : Made abi x c h) where
  accepted : (y : Expected) → Matches abi h y → validate_detailed abi (some (λ i. h)) y ≡ no_error
  accepted y m =
      (validate_detailed_iff abi (λ i. h) y).1
        (made.magic, (1, constant_ready h is_ready_spin_limit made.ready (omega arith), m))

  aligned : h.data_alignment ≡ or_default_align h.data_alignment
  aligned = default_align_twice h.data_alignment made.fits.pow2

  Matches-own : Matches abi h (own_fields h)
  Matches-own = record {
    major = made.fits.major;
    minor = made.fits.minor;
    size = made.fits.size;
    whole_items = made.fits.whole_items;
    pow2 = made.fits.pow2;
    layout = refl;
    item = refl;
    schema = refl;
    alignment = aligned ∙ ap or_default_align aligned;
    room = omega arith;
  }

  module _ (kernels : ℕ → Kernel) (path namespace : List ℕ) (named : path ≢ [])
      (fits_size : FitsSize abi h.data_capacity)
      (shape : ((h.layout_type ≡ 0) × (h.fixed_item_size ≢ 0)) ⊎ (h.layout_type ≡ 1)) where
    existing-IsValid : IsValid abi (existing_fields abi (quiet kernels h) path namespace)
    existing-IsValid = (
      elim shape [ inl (l, i) ↦ rw l (λ e. i) | inr l ↦ rw l (λ e. ground arith) ],
      inr (rw (← aligned) made.fits.pow2),
      (named, inr (size_of_capacity abi h.data_capacity fits_size).1),
    )

    pub read_header-quiet :
        read_header abi (quiet kernels h) path namespace
        ≡ ok (existing_fields abi (quiet kernels h) path namespace)
    unfolding read_header
    read_header-quiet =
        let checked = accepted (own_fields h) Matches-own in
        let valid =
          (validate_transport_options_iff abi
              (existing_fields abi (quiet kernels h) path namespace)).1
            existing-IsValid in
        elim shape [
          | inl (l, i) ↦ rw (checked, valid) (ground arith)
          | inr l ↦ rw (checked, valid) (ground arith)
        ]

  module _ (init : InitControlBlock) (c' : Creation) where
    -- Whoever attaches with the expectations of the creator, its alignment written out, is counted.
    pub attach-Made :
        format abi init true
          (λ i. h)
          false
          (record x { alignment = or_default_align x.alignment })
          c'
          ref_count
        ≡ (true, record h { attach_count = 2 })
    unfolding format validate
    attach-Made =
        let fits : Matches abi h (record x { alignment = or_default_align x.alignment }) = record {
          major = made.fits.major;
          minor = made.fits.minor;
          size = made.fits.size;
          layout = made.fits.layout;
          item = made.fits.item;
          whole_items = made.fits.whole_items;
          schema = made.fits.schema;
          alignment = made.fits.alignment ∙ sym (default_idem x.alignment);
          pow2 = made.fits.pow2;
          room = made.fits.room;
        } in
        rw (accepted (record x { alignment = or_default_align x.alignment }) fits, made.count)

-- The options that an attacher finds for a channel of a builder.
abbrev pub found : ℕ → TransportOptions → TransportOptions
found data_align o = record o {
  data_align = or_default_align data_align;
  create_if_missing = false;
}

-- A reader that some attempt lets in.
pub record Admitted (kernels : ℕ → Kernel) : Type 0 where
  pub i : ℕ
  pub soon : i < 10
  pub readable : Readable (kernels i)

pub read_existing_quiet :
    (abi : Abi) (s : Segment) (path namespace : List ℕ)
    → Admitted s.kernels
    → read_existing_shm_options abi s path namespace ≡ read_header abi s path namespace
unfolding read_existing_shm_options read_mapping
read_existing_quiet abi s path namespace r = elim (open_rounds_outcome path s.kernels) [
  | inl f ↦ rw (f.opened, f.mapped)
  | inr m ↦ absurd (m.never r.i (omega arith) (omega (arith, r.soon)) r.readable)
]

-- The schema that an attacher asks for, if it does.
abbrev pub Asks : ChannelAttacher → ℕ → Type 0
Asks a schema = (a.schema_id_set ≡ false) ⊎ (a.schema_id ≡ schema)

module _ (abi : Abi) (capacity : ℕ) (fits_size : FitsSize abi capacity) (h : ControlBlock)
    (kernels : ℕ → Kernel) where
  pub existing-fixed :
      (b : FixedChannelBuilder) (c : Creation)
      → c.timestamp ≡ b.creator_timestamp_ns
      → c.flags ≡ b.creator_flags
      → Made abi (expected_of abi (fixed_fields abi b capacity)) c h
      → existing_fields abi (quiet kernels h) b.path b.win32_object_namespace
        ≡ found b.data_align (fixed_fields abi b capacity)
  existing-fixed b c t f made =
      let layout : h.layout_type ≡ 0 = made.fits.layout in
      let item : h.fixed_item_size ≡ b.item_size = made.fits.item in
      let cap : h.data_capacity ≡ capacity =
        made.capacity ∙ capacity-size abi capacity fits_size.1 in
      let al : or_default_align h.data_alignment ≡ or_default_align b.data_align =
        sym (aligned abi h _ c made) ∙ made.fits.alignment ∙ default_idem b.data_align in
      rw (layout, item, cap, al, made.fits.schema, made.timestamp ∙ t, made.flags ∙ f)

  pub existing-varlen :
      (b : VarlenChannelBuilder) (c : Creation)
      → c.timestamp ≡ b.creator_timestamp_ns
      → c.flags ≡ b.creator_flags
      → Made abi (expected_of abi (varlen_fields abi b capacity)) c h
      → existing_fields abi (quiet kernels h) b.path b.win32_object_namespace
        ≡ found b.data_align (varlen_fields abi b capacity)
  existing-varlen b c t f made =
      let layout : h.layout_type ≡ 1 = made.fits.layout in
      let cap : h.data_capacity ≡ capacity =
        made.capacity ∙ capacity-size abi capacity fits_size.1 in
      let al : or_default_align h.data_alignment ≡ or_default_align b.data_align =
        sym (aligned abi h _ c made) ∙ made.fits.alignment ∙ default_idem b.data_align in
      rw (layout, cap, al, made.fits.schema, made.timestamp ∙ t, made.flags ∙ f)
