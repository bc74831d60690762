-- ===== src/Layout/Format.antt =====
-- layout_manager::format: what a creator leaves is what an attacher accepts.
use xproc.Prelude.{
  ℕ, zero, suc, ◌%◌, ◌≤◌, ◌<◌, ◌≡◌, refl, subst, ◌≢◌, ◌⊎◌, inl, inr, true, false, some, arith,
  Bool-cases,
}
use xproc.Errors.{ValidateError, no_error}
use xproc.Options.{Abi}
use xproc.Options.Laws.{IsAlignment}
use xproc.Layout.{
  RingBlock, ControlBlock, Expected, Creation, InitControlBlock, AttachBehavior, ref_count,
  readonly, or_default_align, is_ready_spin_limit, ready_read, validate_detailed, validate, is_ok,
  init_header, format, publish,
}
use xproc.Layout.Wait.{FirstReady}
use xproc.Layout.Validate.{Matches, Accepts, validate_detailed_iff}

-- What xproc relies on of spscring::init_control_block: where it reports success, the block carries
-- the constants of the ABI and the arguments of the call.
pub record InitLaw (abi : Abi) (init : InitControlBlock) : Type 0 where
  pub magic :
      (r : RingBlock) (cap layout align item : ℕ)
      → (init r cap layout align item).0 ≡ true
      → (init r cap layout align item).1.magic ≡ abi.expected_magic
  pub versions :
      (r : RingBlock) (cap layout align item : ℕ)
      → (init r cap layout align item).0 ≡ true
      → ((init r cap layout align item).1.version_major ≡ abi.version_major)
        × ((init r cap layout align item).1.version_minor ≡ abi.version_minor)
  pub arguments :
      (r : RingBlock) (cap layout align item : ℕ)
      → (init r cap layout align item).0 ≡ true
      → ((init r cap layout align item).1.data_capacity ≡ cap)
        × ((init r cap layout align item).1.layout_type ≡ layout)
        × ((init r cap layout align item).1.data_alignment ≡ align)
        × ((init r cap layout align item).1.fixed_item_size ≡ item)

eight-IsAlignment : IsAlignment 8
eight-IsAlignment = (omega arith, (3, refl))

pub or_default_align-IsAlignment :
    (a : ℕ) → (a ≡ 0) ⊎ IsAlignment a → IsAlignment (or_default_align a)
or_default_align-IsAlignment zero h = eight-IsAlignment
or_default_align-IsAlignment (suc a) (inl e) = absurd (omega arith)
or_default_align-IsAlignment (suc a) (inr h) =
    let kept : suc a ≡ or_default_align (suc a) = ground arith in subst IsAlignment kept h

-- The parts of a successful initialisation.
pub init_header-eq-ok :
    (abi : Abi) (init : InitControlBlock) (h h' : ControlBlock) (x : Expected)
    (timestamp flags pid : ℕ)
    → init_header abi init h x timestamp flags pid ≡ (true, h')
    → let made =
        init h.spscring_cb x.capacity x.layout (or_default_align x.alignment) x.item_size in
      (made.0 ≡ true)
      × (x.item_size ≢ 0 → x.capacity % x.item_size ≡ 0)
      × (h' ≡ publish abi x timestamp flags pid made.1)
unfolding init_header
init_header-eq-ok abi init h h' x timestamp flags pid e = ground arith

module _ (abi : Abi) (init : InitControlBlock) (law : InitLaw abi init) where
  pub publish-Matches :
      (r : RingBlock) (x : Expected) (capacity timestamp flags pid : ℕ)
      → let made = init r x.capacity x.layout (or_default_align x.alignment) x.item_size in
        made.0 ≡ true
        → (x.item_size ≢ 0 → x.capacity % x.item_size ≡ 0)
        → (x.alignment ≡ 0) ⊎ IsAlignment x.alignment
        → capacity ≤ x.capacity
        → (made.1.magic ≡ abi.expected_magic)
          × Matches abi
              (publish abi x timestamp flags pid made.1)
              (record x { capacity = capacity })
  publish-Matches r x capacity timestamp flags pid done whole a le =
      let align : ℕ = or_default_align x.alignment in
      let v = law.versions r x.capacity x.layout align x.item_size done in
      let w = law.arguments r x.capacity x.layout align x.item_size done in
      (
        law.magic r x.capacity x.layout align x.item_size done,
        record {
          major = v.0;
          minor = v.1;
          size = refl;
          layout = w.1;
          item = w.3;
          whole_items = rw (w.0, w.3) whole;
          schema = refl;
          alignment = w.2;
          pow2 = rw w.2 (or_default_align-IsAlignment x.alignment a);
          room = rw w.0 le;
        },
      )

pub constant_ready :
    (h : ControlBlock) (limit : ℕ) → h.is_ready ≡ true → 0 < limit → FirstReady (λ _. h) limit 1 1
constant_ready h limit r p = record {
  from = omega arith;
  within = omega arith;
  ready = r;
  before = λ k a b. absurd (omega arith);
}

ready_read_constant :
    (h : ControlBlock) (limit i : ℕ) (memory : ℕ → ControlBlock)
    → ((k : ℕ) → memory k ≡ h)
    → memory (ready_read memory limit i) ≡ h
ready_read_constant h limit i memory same = same (ready_read memory limit i)

-- A segment that its creator formatted, and that nobody has changed since, is accepted by an
-- attacher with the same expectations and a capacity up to the creator's: the attacher gets the
-- header, a counting one raises attach_count from 1 to 2 and a read-only one changes nothing. The
-- alignment asked for is 0 or a power of two from 4 on, which validate_transport_options enforces.
pub format-attach :
    (abi : Abi) (init : InitControlBlock)
    → InitLaw abi init
    → (memory : ℕ → ControlBlock) (h : ControlBlock) (x : Expected) (c c' : Creation)
      (b : AttachBehavior) (capacity : ℕ)
    → (x.alignment ≡ 0) ⊎ IsAlignment x.alignment
    → capacity ≤ x.capacity
    → format abi init true memory true x c b ≡ (true, h)
    → let attach = format abi init true (λ _. h) false (record x { capacity = capacity }) c' in
      (attach ref_count ≡ (true, record h { attach_count = 2 })) × (attach readonly ≡ (true, h))
unfolding format validate
format-attach abi init law memory h x c c' b capacity a le e =
    let (done, whole, shape) =
      init_header-eq-ok abi init (memory 0) h x c.timestamp c.flags c.pid e in
    let (magic, fits) =
      publish-Matches abi init law (memory 0).spscring_cb x capacity c.timestamp c.flags c.pid done
        whole a le in
    let accepts : Accepts abi is_ready_spin_limit (λ _. h) (record x { capacity = capacity }) =
      rw shape (magic, (1, constant_ready _ is_ready_spin_limit refl (omega arith), fits)) in
    let accepted =
      (validate_detailed_iff abi (λ _. h) (record x { capacity = capacity })).1 accepts in
    let one : h.attach_count ≡ 1 = rw shape in (rw (accepted, one), rw accepted)

pub is_ok-true : (e : ValidateError) → is_ok e ≡ true → e ≡ no_error
is_ok-true no_error h = refl
is_ok-true _ h = ground arith

-- A creator whose formatting fails leaves is_ready as it was: a block that was not ready stays so,
-- and no attacher accepts it.
pub format_failed_unready :
    (abi : Abi) (init : InitControlBlock) (memory : ℕ → ControlBlock) (x y : Expected)
    (c c' : Creation) (b b' : AttachBehavior) (h : ControlBlock)
    → (memory 0).is_ready ≡ false
    → format abi init true memory true x c b ≡ (false, h)
    → (format abi init true (λ _. h) false y c' b').0 ≡ false
unfolding format validate init_header
format_failed_unready abi init memory x y c c' b b' h r e =
    elim (Bool-cases (validate abi (some (λ _. h)) y)) [
      | inl accepted ↦
          let (magic, (j, first, fits)) =
            (validate_detailed_iff abi (λ _. h) y).0
              (is_ok-true (validate_detailed abi (some (λ _. h)) y) accepted) in
          let ready : h.is_ready ≡ true = first.ready in
          let unready : h.is_ready ≡ false = ground arith in cc
      | inr refused ↦ rw refused
    ]
