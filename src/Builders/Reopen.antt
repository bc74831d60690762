-- ===== src/Builders/Reopen.antt =====
-- A channel that a builder describes and its creator formats is what an attacher finds again.
use xproc.Prelude.{
  ℕ, ◌≡◌, refl, sym, ap, subst, ◌∙◌, ◌≢◌, inl, inr, true, false, List, arith, not, ◌&&◌, ◌==◌,
  if◌then◌else◌,
}
use xproc.Errors.{ok, throw, layout_exception, layout_type_mismatch}
use xproc.Options.{Abi, TransportOptions, is_fixed}
use xproc.Options.Laws.{capacity-size}
use xproc.Layout.{ControlBlock, Expected, Creation, InitControlBlock, format, ref_count}
use xproc.Layout.Format.{InitLaw, or_default_align-IsAlignment}
use xproc.Shm.{Kernel}
use xproc.Endpoint.{expected_of}
use xproc.Builders.{FixedChannelBuilder, VarlenChannelBuilder, fixed_fields, varlen_fields}
use xproc.Builders.Laws.{Usable, FitsSize}
use xproc.Builders.Existing.{
  Segment, ChannelAttacher, read_existing_shm_options, chosen_schema, fixed_attacher_options,
  varlen_attacher_options,
}
use xproc.Builders.Segments.{
  read_header-quiet, attach-Made, quiet, format-Made, found, Admitted, read_existing_quiet, Asks,
  existing-fixed, existing-varlen,
}

module _ (abi : Abi) (h : ControlBlock) (kernels : ℕ → Kernel) (a : ChannelAttacher) where
  chosen-found : (o : TransportOptions) → Asks a o.schema_id → chosen_schema a o ≡ o
  chosen-found o (inl e) = rw e
  chosen-found o (inr e) = ground arith

  -- The options of the two attachers of what a read of the segment gives.
  fixed_attacher_outcome :
      (o : TransportOptions)
      → read_existing_shm_options abi (quiet kernels h) a.path a.win32_object_namespace ≡ ok o
      → Asks a o.schema_id
      → (fixed_attacher_options abi (quiet kernels h) a
          ≡ (if is_fixed o.type then ok o else throw (layout_exception layout_type_mismatch)))
        × (varlen_attacher_options abi (quiet kernels h) a
            ≡ (if is_fixed o.type then throw (layout_exception layout_type_mismatch) else ok o))
  unfolding fixed_attacher_options varlen_attacher_options
  fixed_attacher_outcome o e asks = rw e (
      let kept = chosen-found o asks in
      let same : (a.schema_id_set && not (o.schema_id == a.schema_id)) ≡ false = ground arith in
      rw (same, kept) (ground arith))

-- What the attachers make of a channel with options `o`, and what an endpoint makes of theirs.
pub record Reopens (abi : Abi) (init : InitControlBlock) (s : Segment) (h : ControlBlock)
    (a : ChannelAttacher) (o : TransportOptions) (c : Creation) : Type 0 where
  pub fixed_attacher : fixed_attacher_options abi s a ≡ (
      if is_fixed o.type
      then ok (found o.data_align o)
      else throw (layout_exception layout_type_mismatch))
  pub varlen_attacher : varlen_attacher_options abi s a ≡ (
      if is_fixed o.type
      then throw (layout_exception layout_type_mismatch)
      else ok (found o.data_align o))
  pub endpoint :
      format abi init true (λ i. h) false (expected_of abi (found o.data_align o)) c ref_count
      ≡ (true, record h { attach_count = 2 })

-- The attacher names the segment of the builder, and the schema if it asks for one.
pub record Names (a : ChannelAttacher) (of namespace_of : List ℕ) (schema_of : ℕ) : Type 0 where
  pub path : a.path ≡ of
  pub namespace : a.win32_object_namespace ≡ namespace_of
  pub schema : Asks a schema_of

module _ (abi : Abi) (init : InitControlBlock) (law : InitLaw abi init) (capacity pid : ℕ)
    (memory : ℕ → ControlBlock) (h : ControlBlock) (kernels : ℕ → Kernel) (a : ChannelAttacher)
    (c : Creation) where
  -- A segment whose creator formatted it with the options of a builder, read back while nobody
  -- changes it and the kernel answers one of ten attempts: the attacher of the fixed type finds the
  -- options of the builder (with the default alignment written out, and without the permission to
  -- create), the attacher of the other type reports a layout mismatch, and an endpoint that attaches
  -- with the options found is counted in as the second one. The builder has a path, an item size and
  -- a valid alignment, the sizes fit a size_t, and the attacher asks for the builder's schema if it
  -- asks for one.
  pub fixed_options-reopen :
      (b : FixedChannelBuilder)
      → FitsSize abi capacity
      → Usable b.path b.data_align
      → b.item_size ≢ 0
      → format abi init true memory true
          (expected_of abi (fixed_fields abi b capacity))
          (record { timestamp = b.creator_timestamp_ns; flags = b.creator_flags; pid = pid })
          ref_count
        ≡ (true, h)
      → Admitted kernels
      → Names a b.path b.win32_object_namespace b.schema_id
      → Reopens abi init (quiet kernels h) h a (fixed_fields abi b capacity) c
  fixed_options-reopen b fits_size usable item made_by admitted names =
      let o : TransportOptions = fixed_fields abi b capacity in
      let x : Expected = expected_of abi o in
      let made =
        format-Made abi init law memory h x _
          (inr (or_default_align-IsAlignment b.data_align usable.aligned)) made_by in
      let cap : h.data_capacity ≡ capacity =
        made.capacity ∙ capacity-size abi capacity fits_size.1 in
      let read_back : read_existing_shm_options abi (quiet kernels h) a.path
            a.win32_object_namespace
          ≡ ok (found b.data_align o) =
        rw (names.path, names.namespace)
          (read_existing_quiet abi (quiet kernels h) b.path b.win32_object_namespace admitted
            ∙ read_header-quiet abi h x _ made kernels b.path b.win32_object_namespace usable.named
                (subst (FitsSize abi) (sym cap) fits_size)
                (inl (made.fits.layout, rw made.fits.item item))
            ∙ ap ok (existing-fixed abi capacity fits_size h kernels b _ refl refl made)) in
      let outcome =
        fixed_attacher_outcome abi h kernels a (found b.data_align o) read_back names.schema in
      record {
        fixed_attacher = outcome.0;
        varlen_attacher = outcome.1;
        endpoint = attach-Made abi h x _ made init c;
      }

  -- The same of a builder for messages of any length, with the attachers in the other roles.
  pub varlen_options-reopen :
      (b : VarlenChannelBuilder)
      → FitsSize abi capacity
      → Usable b.path b.data_align
      → format abi init true memory true
          (expected_of abi (varlen_fields abi b capacity))
          (record { timestamp = b.creator_timestamp_ns; flags = b.creator_flags; pid = pid })
          ref_count
        ≡ (true, h)
      → Admitted kernels
      → Names a b.path b.win32_object_namespace b.schema_id
      → Reopens abi init (quiet kernels h) h a (varlen_fields abi b capacity) c
  varlen_options-reopen b fits_size usable made_by admitted names =
      let o : TransportOptions = varlen_fields abi b capacity in
      let x : Expected = expected_of abi o in
      let made =
        format-Made abi init law memory h x _
          (inr (or_default_align-IsAlignment b.data_align usable.aligned)) made_by in
      let cap : h.data_capacity ≡ capacity =
        made.capacity ∙ capacity-size abi capacity fits_size.1 in
      let read_back : read_existing_shm_options abi (quiet kernels h) a.path
            a.win32_object_namespace
          ≡ ok (found b.data_align o) =
        rw (names.path, names.namespace)
          (read_existing_quiet abi (quiet kernels h) b.path b.win32_object_namespace admitted
            ∙ read_header-quiet abi h x _ made kernels b.path b.win32_object_namespace usable.named
                (subst (FitsSize abi) (sym cap) fits_size) (inr made.fits.layout)
            ∙ ap ok (existing-varlen abi capacity fits_size h kernels b _ refl refl made)) in
      let outcome =
        fixed_attacher_outcome abi h kernels a (found b.data_align o) read_back names.schema in
      record {
        fixed_attacher = outcome.0;
        varlen_attacher = outcome.1;
        endpoint = attach-Made abi h x _ made init c;
      }
