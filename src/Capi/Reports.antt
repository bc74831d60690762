-- ===== src/Capi/Reports.antt =====
-- What every call of the C interface says of its outcome: the last error agrees with the status.
use xproc.Prelude.{
  ℕ, ◌≡◌, refl, sym, ap, subst, ◌≢◌, ◌⊎◌, inl, inr, false, List, [], Option, none, some, arith,
  Bool-cases, ltb,
}
use xproc.Errors.{
  Exception, Result, ok, throw, invalid_argument, logic_error, runtime_error, layout_exception,
  ◌>>◌, ◌>>=◌,
}
use xproc.Options.{
  Abi, TransportOptions, validate_producer_transport_options, validate_consumer_transport_options,
  validate_observer_transport_options,
}
use xproc.SendResult.{MessageMeta, empty_meta}
use xproc.Capi.{
  Status, success, bad_argument, logic_failure, layout_failure, runtime_failure, Reply, LayoutError,
  no_layout_error, to_c_layout_error, caught, catch_status, succeed,
}
use xproc.Capi.Options.{COptions, to_cpp_options, validate_for, validate_options_for_kind}
use xproc.Capi.Producer.{
  ProducerInterface, Data, lacks_data, payload_of, after_check, guarded_send, consumer_open,
  observer_open, producer_open, producer_send_fixed_bytes, producer_send_fixed_sized,
  producer_send_fixed_sized_with_meta, producer_send_varlen, producer_send_varlen_with_meta,
  to_cpp_meta,
}

-- The status that an exception becomes.
abbrev pub status_of : Exception → Status
status_of (layout_exception e) = layout_failure
status_of (invalid_argument m) = bad_argument
status_of (logic_error m) = logic_failure
status_of (runtime_error m) = runtime_failure

abbrev pub layout_of : Exception → LayoutError
layout_of (layout_exception e) = to_c_layout_error e
layout_of _ = no_layout_error

-- The reply reports the exception, by its class and its text.
pub record ReportsThrow (what : Exception → List ℕ) {A : Type 0} (e : Exception) (r : Reply A)
    : Type 0 where
  pub status : r.status ≡ status_of e
  pub message : r.last.message ≡ what e
  pub layout : r.last.layout_error ≡ layout_of e

module _ (what : Exception → List ℕ) {A : Type 0} where
  pub caught-ReportsThrow :
      (a : A) (e : Exception) → ReportsThrow what e (caught what a e) × ((caught what a e).out ≡ a)
  unfolding caught
  caught-ReportsThrow a (layout_exception e) =
      (record { status = refl; message = refl; layout = refl }, refl)
  caught-ReportsThrow a (invalid_argument m) =
      (record { status = refl; message = refl; layout = refl }, refl)
  caught-ReportsThrow a (logic_error m) =
      (record { status = refl; message = refl; layout = refl }, refl)
  caught-ReportsThrow a (runtime_error m) =
      (record { status = refl; message = refl; layout = refl }, refl)

pub Result-cases {ℓ} :
    {A : Type ℓ} (r : Result A) → ((a : A) × (r ≡ ok a)) ⊎ ((e : Exception) × (r ≡ throw e))
Result-cases (ok a) = inl (a, refl)
Result-cases (throw e) = inr (e, refl)

-- The outcome of an open whose pointers are not null, in a world `w`: `check` validates the options,
-- `create` makes the channel, and `r` is the reply with the handle, and the world afterwards.
pub data Opened (what : Exception → List ℕ) {P W : Type 0} (check : Result (Unit {0}))
    (create : W → Result P × W) (w : W) (r : Reply (Option P) × W) : Type 0 where
  opened :
      (p : P)
      → check ≡ ok tt
      → (create w).0 ≡ ok p
      → r.0 ≡ succeed (some p)
      → r.1 ≡ (create w).1
      → Opened what check create w r
  invalid :
      (e : Exception)
      → check ≡ throw e
      → ReportsThrow what e r.0
      → r.0.out ≡ none
      → r.1 ≡ w
      → Opened what check create w r
  failed :
      (e : Exception)
      → check ≡ ok tt
      → (create w).0 ≡ throw e
      → ReportsThrow what e r.0
      → r.0.out ≡ none
      → r.1 ≡ (create w).1
      → Opened what check create w r

status_of-success : (e : Exception) → status_of e ≢ success
status_of-success e = ground arith

module _ (what : Exception → List ℕ) {P W : Type 0} (create : W → Result P × W) (w : W) where
  created-Opened :
      (c : Result P × W)
      → create w ≡ c
      → Opened what
          (ok tt)
          create
          w
          (catch_status what none (c.0 >>= λ p. ok (succeed (some p))), c.1)
  unfolding catch_status
  created-Opened (ok p, w') q = opened p refl (ap (λ x. x.0) q) refl (sym (ap (λ x. x.1) q))
  created-Opened (throw e, w') q =
      let nothing : Option P = none in
      let (report, kept) = caught-ReportsThrow what nothing e in
      failed e refl (ap (λ x. x.0) q) report kept (sym (ap (λ x. x.1) q))

  after_check-Opened :
      (v : Result (Unit {0}))
      → Opened what v create w
          (after_check what (catch_status what tt (v >> ok (succeed tt))) create w)
  unfolding catch_status
  after_check-Opened (ok u) = created-Opened (create w) refl
  after_check-Opened (throw (layout_exception m)) =
      invalid _ refl (record { status = refl; message = refl; layout = refl }) refl refl
  after_check-Opened (throw (invalid_argument m)) =
      invalid _ refl (record { status = refl; message = refl; layout = refl }) refl refl
  after_check-Opened (throw (logic_error m)) =
      invalid _ refl (record { status = refl; message = refl; layout = refl }) refl refl
  after_check-Opened (throw (runtime_error m)) =
      invalid _ refl (record { status = refl; message = refl; layout = refl }) refl refl

module _ (abi : Abi) (what : Exception → List ℕ) {P W : Type 0}
    (create : TransportOptions → W → Result P × W) (o : COptions) (w : W) where
  validate_known_kind :
      (kind : ℕ)
      → ltb 2 kind ≡ false
      → validate_options_for_kind abi what kind (some o)
        ≡ catch_status what tt (validate_for abi what kind (to_cpp_options o) >> ok (succeed tt))
  unfolding validate_options_for_kind
  validate_known_kind kind k = elim (Bool-cases (ltb 2 kind)) [ inl e ↦ cc | inr e ↦ rw e ]

  open_checked :
      (kind : ℕ)
      → ltb 2 kind ≡ false
      → let v = validate_for abi what kind (to_cpp_options o) in
        let c = create (to_cpp_options o) in
        Opened what v c w (after_check what (validate_options_for_kind abi what kind (some o)) c w)
  open_checked kind k =
      let c = create (to_cpp_options o) in
      subst
        (λ r.
          Opened what (validate_for abi what kind (to_cpp_options o)) c w (after_check what r c w))
        (sym (validate_known_kind kind k))
        (after_check-Opened what c w (validate_for abi what kind (to_cpp_options o)))

  -- Opening an endpoint of each kind, with pointers that are not null: the options are those of the
  -- caller, checked for the kind, and then the channel is made; the call succeeds with the handle
  -- exactly if neither throws, and else the handle is null, and the status, the text and the layout
  -- error are those of what was thrown. After a failed check nothing is made: the world is as before.
  pub open_outcome-Opened :
      Opened what
        (validate_producer_transport_options abi (to_cpp_options o))
        (create (to_cpp_options o))
        w
        (producer_open abi what create (some o) false w)
      × Opened what
          (validate_consumer_transport_options abi (to_cpp_options o))
          (create (to_cpp_options o))
          w
          (consumer_open abi what create (some o) false w)
      × Opened what
          (validate_observer_transport_options abi (to_cpp_options o))
          (create (to_cpp_options o))
          w
          (observer_open abi what create (some o) false w)
  unfolding producer_open consumer_open observer_open
  open_outcome-Opened = (open_checked 0 refl, open_checked 1 refl, open_checked 2 refl)

-- The metadata that a caller gives, or no metadata.
abbrev pub caller_meta : Option MessageMeta → MessageMeta
caller_meta none = empty_meta
caller_meta (some m) = m

-- The outcome of a send: `sent` is what the channel's own send leaves and returns or throws.
pub data Sent (what : Exception → List ℕ) {P : Type 0} (sent : P × Result (Unit {0}))
    (r : Reply (Option P)) : Type 0 where
  accepted : sent.1 ≡ ok tt → r ≡ succeed (some sent.0) → Sent what sent r
  thrown :
      (e : Exception)
      → sent.1 ≡ throw e
      → ReportsThrow what e r
      → r.out ≡ some sent.0
      → Sent what sent r

module _ (what : Exception → List ℕ) {P : Type 0} where
  guarded_send-Sent :
      (m n : List ℕ) (send : List ℕ → P → P × Result (Unit {0})) (p : P) (d : Data)
      → lacks_data d ≡ false
      → Sent what (send (payload_of d) p) (guarded_send what m n send (some p) d)
  unfolding catch_status
  guarded_send-Sent m n send p d h = rw h (go (send (payload_of d) p))
    where
      go :
          (sent : P × Result (Unit {0}))
          → Sent what sent (catch_status what (some sent.0) (sent.1 >> ok (succeed (some sent.0))))
      go (q, ok u) = accepted refl refl
      go (q, throw e) =
          let (report, kept) = caught-ReportsThrow what (some q) e in thrown e refl report kept

module _ (what : Exception → List ℕ) {P : Type 0} (ops : ProducerInterface P) where
  -- A send of any of the five kinds, on a handle that is not null, with data that is not null or a
  -- length of 0: the channel's own send is made with these bytes (none for null) and the metadata
  -- (empty for null or where there is no such argument), the handle is left as that send leaves it,
  -- and the call succeeds exactly if the send returns; else it reports what was thrown.
  pub sends-Sent :
      (p : P) (d : Data) (meta : Option MessageMeta)
      → lacks_data d ≡ false
      → Sent what
          (ops.send_fixed_bytes (payload_of d) p)
          (producer_send_fixed_bytes what ops (some p) d)
        × Sent what
            (ops.send_fixed_sized (payload_of d) empty_meta p)
            (producer_send_fixed_sized what ops (some p) d)
        × Sent what
            (ops.send_fixed_sized (payload_of d) (caller_meta meta) p)
            (producer_send_fixed_sized_with_meta what ops (some p) d meta)
        × Sent what
            (ops.send_varlen (payload_of d) empty_meta p)
            (producer_send_varlen what ops (some p) d)
        × Sent what
            (ops.send_varlen (payload_of d) (caller_meta meta) p)
            (producer_send_varlen_with_meta what ops (some p) d meta)
  unfolding producer_send_fixed_bytes producer_send_fixed_sized producer_send_fixed_sized_with_meta
      producer_send_varlen producer_send_varlen_with_meta to_cpp_meta
  sends-Sent p d none h = (
    guarded_send-Sent what [] _ ops.send_fixed_bytes p d h,
    guarded_send-Sent what [] _ (λ b. ops.send_fixed_sized b empty_meta) p d h,
    guarded_send-Sent what [] _ (λ b. ops.send_fixed_sized b (to_cpp_meta none)) p d h,
    guarded_send-Sent what [] _ (λ b. ops.send_varlen b empty_meta) p d h,
    guarded_send-Sent what [] _ (λ b. ops.send_varlen b (to_cpp_meta none)) p d h,
  )
  sends-Sent p d (some m) h = (
    guarded_send-Sent what [] _ ops.send_fixed_bytes p d h,
    guarded_send-Sent what [] _ (λ b. ops.send_fixed_sized b empty_meta) p d h,
    guarded_send-Sent what [] _ (λ b. ops.send_fixed_sized b (to_cpp_meta (some m))) p d h,
    guarded_send-Sent what [] _ (λ b. ops.send_varlen b empty_meta) p d h,
    guarded_send-Sent what [] _ (λ b. ops.send_varlen b (to_cpp_meta (some m))) p d h,
  )
