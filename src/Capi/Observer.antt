-- ===== src/Capi/Observer.antt =====
-- src/capi/xproc_c.cpp: the observer's part of the C interface, the tracker of its snapshots, and the
-- reading of the last error. A snapshot is given field by field, under the same names.
use xproc.Prelude.{
  ℕ, ◌%◌, ◌^◌, Bool, true, false, List, [], Option, none, some, ltb, if◌then◌else◌, length, take,
  bytes,
}
use xproc.Errors.{Exception, Result, ok, throw}
use xproc.Options.{TransportOptions}
use xproc.Ring.{Entry}
use xproc.SendResult.{MessageMeta}
use xproc.Observer.{RingSnapshot, Tracker, start_tracker, update, producer_alive, idle_duration}
use xproc.Capi.{
  success, buffer_too_small, LastError, Reply, succeed, try_again, set_last_error, refuse, caught,
}
use xproc.Capi.Options.{COptions}
use xproc.Capi.Producer.{copy_options_from_handle}
use xproc.Capi.Consumer.{null_with_capacity}

-- ipc::observer, as the C interface uses it: `peek` with a handler that copies the message and returns
-- gives the message that the handler was called with, or none if it returns false.
pub record ObserverInterface (O : Type 0) : Type 0 where
  pub peek : O → O × Result (Option Entry)
  pub snapshot : O → RingSnapshot
  pub options : O → TransportOptions

-- What a peek leaves: the observer, the metadata written behind out_meta (if it is not null), the
-- bytes written to the buffer, and what stands behind out_len, if that is not null.
pub record Looked (O : Type 0) : Type 0 where
  pub handle : Option O
  pub meta : Option MessageMeta
  pub written : List ℕ
  pub out_len : Option ℕ

-- `to_c_meta`
unfoldable pub to_c_meta : MessageMeta → Option MessageMeta → Option MessageMeta
to_c_meta m none = none
to_c_meta m (some out) = some (record {
  user_data = m.user_data;
  timestamp_ns = m.timestamp_ns;
  schema_id = m.schema_id;
  flags = m.flags;
})

module _ (what : Exception → List ℕ) {O : Type 0} (ops : ObserverInterface O) where
  -- After the peek. `write_meta` is what the handler does with the metadata.
  abbrev pub copy_peeked :
      List ℕ
      → (MessageMeta → Option MessageMeta)
      → Option MessageMeta
      → ℕ
      → ℕ
      → O × Result (Option Entry)
      → Reply (Looked O)
  copy_peeked message write_meta meta capacity out_len (o, throw e) =
      caught what (record { handle = some o; meta = meta; written = []; out_len = some out_len }) e
  copy_peeked message write_meta meta capacity out_len (o, ok none) =
      try_again (record { handle = some o; meta = meta; written = []; out_len = some 0 })
  copy_peeked message write_meta meta capacity out_len (o, ok (some (m, payload))) =
      if ltb capacity (length payload)
      then set_last_error buffer_too_small message (record {
        handle = some o;
        meta = write_meta m;
        written = [];
        out_len = some (length payload);
      })
      else succeed (record {
        handle = some o;
        meta = write_meta m;
        written = payload;
        out_len = some (length payload);
      })

  -- The guards, with the texts of the three refusals that name the function.
  abbrev pub guarded_peek :
      List ℕ
      → List ℕ
      → List ℕ
      → (MessageMeta → Option MessageMeta)
      → Option MessageMeta
      → Option O
      → Bool
      → ℕ
      → Option ℕ
      → Reply (Looked O)
  guarded_peek len_message handle_message small write_meta meta observer null_buffer capacity none =
      refuse len_message (record { handle = observer; meta = meta; written = []; out_len = none })
  guarded_peek len_message handle_message small write_meta meta none null_buffer capacity (some n) =
      refuse
        (if null_with_capacity null_buffer capacity
          then bytes "xproc_c: buffer is null while buffer_capacity is non-zero"
          else handle_message)
        (record { handle = none; meta = meta; written = []; out_len = some 0 })
  guarded_peek len_message handle_message small write_meta meta (some o) null_buffer capacity
        (some n) =
      if null_with_capacity null_buffer capacity
      then refuse (bytes "xproc_c: buffer is null while buffer_capacity is non-zero")
          (record { handle = some o; meta = meta; written = []; out_len = some 0 })
      else copy_peeked small write_meta meta capacity n (ops.peek o)

  unfoldable pub observer_peek_copy : Option O → Bool → ℕ → Option ℕ → Reply (Looked O)
  observer_peek_copy observer null_buffer capacity out_len =
      guarded_peek (bytes "xproc_c_observer_peek_copy: out_len must not be null")
        (bytes "xproc_c_observer_peek_copy: observer is null")
        (bytes "xproc_c_observer_peek_copy: buffer too small") (λ m. none) none observer null_buffer
        capacity out_len

  unfoldable pub observer_peek_copy_with_meta :
      Option O → Option MessageMeta → Bool → ℕ → Option ℕ → Reply (Looked O)
  unfolding to_c_meta
  observer_peek_copy_with_meta observer out_meta null_buffer capacity out_len =
      guarded_peek (bytes "xproc_c_observer_peek_copy_with_meta: out_len must not be null")
        (bytes "xproc_c_observer_peek_copy_with_meta: observer is null")
        (bytes "xproc_c_observer_peek_copy_with_meta: buffer too small") (λ m. to_c_meta m out_meta)
        out_meta observer null_buffer capacity out_len

  unfoldable pub observer_options : Option O → Option COptions → Reply (Option COptions)
  unfolding copy_options_from_handle
  observer_options observer out =
      copy_options_from_handle what (bytes "xproc_c_observer_options: observer is null")
        (bytes "xproc_c_observer_options: out_options must not be null") ops.options observer out

  -- xproc_c_observer_snapshot: `out` is what stands behind out_snapshot, if that is not null.
  unfoldable pub observer_snapshot : Option O → Option RingSnapshot → Reply (Option RingSnapshot)
  observer_snapshot observer none =
      refuse (bytes "xproc_c_observer_snapshot: out_snapshot must not be null") none
  observer_snapshot none (some out) =
      refuse (bytes "xproc_c_observer_snapshot: observer is null") (some out)
  observer_snapshot (some o) (some out) = succeed (some (ops.snapshot o))

  -- xproc_c_diagnostics_tracker_create: `null_out` says that the out pointer is null. The result is
  -- what stands behind it; `now` is the time that the tracker's constructor reads. The tracker keeps
  -- the observer that it borrows.
  unfoldable pub diagnostics_tracker_create : ℕ → Option O → Bool → Reply (Option (Tracker × O))
  diagnostics_tracker_create now observer true =
      refuse (bytes "xproc_c_diagnostics_tracker_create: out must not be null") none
  diagnostics_tracker_create now none false =
      refuse (bytes "xproc_c_diagnostics_tracker_create: observer is null") none
  diagnostics_tracker_create now (some o) false =
      succeed (some (start_tracker now (ops.snapshot o), o))

  unfoldable pub diagnostics_tracker_update :
      ℕ → Option (Tracker × O) → Reply (Option (Tracker × O))
  diagnostics_tracker_update now none =
      refuse (bytes "xproc_c_diagnostics_tracker_update: tracker is null") none
  diagnostics_tracker_update now (some (t, o)) = succeed (some (update now (ops.snapshot o) t, o))

  unfoldable pub diagnostics_tracker_producer_alive :
      Option (Tracker × O) → Option Bool → Reply (Option Bool)
  diagnostics_tracker_producer_alive tracker none =
      refuse (bytes "xproc_c_diagnostics_tracker_producer_alive: out must not be null") none
  diagnostics_tracker_producer_alive none (some out) =
      refuse (bytes "xproc_c_diagnostics_tracker_producer_alive: tracker is null") (some out)
  diagnostics_tracker_producer_alive (some (t, o)) (some out) = succeed (some (producer_alive t))

  -- A number that the observer reports, with the texts of the two refusals.
  abbrev pub query : List ℕ → List ℕ → (O → ℕ) → Option O → Option ℕ → Reply (Option ℕ)
  query out_message handle_message number observer none = refuse out_message none
  query out_message handle_message number none (some out) = refuse handle_message (some out)
  query out_message handle_message number (some o) (some out) = succeed (some (number o))

-- The numbers of the observer are arguments. (occupancy_ratio is a double and is not modelled.)
module _ {O : Type 0} (what : Exception → List ℕ) (ops : ObserverInterface O)
    (occupancy_bytes available_bytes consumer_lag_bytes : O → ℕ) where
  unfoldable pub observer_occupancy_bytes : Option O → Option ℕ → Reply (Option ℕ)
  observer_occupancy_bytes observer out =
      query what ops (bytes "xproc_c_observer_occupancy_bytes: out must not be null")
        (bytes "xproc_c_observer_occupancy_bytes: observer is null") occupancy_bytes observer out

  unfoldable pub observer_available_bytes : Option O → Option ℕ → Reply (Option ℕ)
  observer_available_bytes observer out =
      query what ops (bytes "xproc_c_observer_available_bytes: out must not be null")
        (bytes "xproc_c_observer_available_bytes: observer is null") available_bytes observer out

  unfoldable pub observer_consumer_lag_bytes : Option O → Option ℕ → Reply (Option ℕ)
  observer_consumer_lag_bytes observer out =
      query what ops (bytes "xproc_c_observer_consumer_lag_bytes: out must not be null")
        (bytes "xproc_c_observer_consumer_lag_bytes: observer is null") consumer_lag_bytes observer
        out

-- `idle_duration_ms` of the time `now`, on a clock of milliseconds.
unfoldable pub diagnostics_tracker_idle_ms :
    {O : Type 0} → ℕ → Option (Tracker × O) → Option ℕ → Reply (Option ℕ)
diagnostics_tracker_idle_ms now tracker none =
    refuse (bytes "xproc_c_diagnostics_tracker_idle_ms: out must not be null") none
diagnostics_tracker_idle_ms now none (some out) =
    refuse (bytes "xproc_c_diagnostics_tracker_idle_ms: tracker is null") (some out)
diagnostics_tracker_idle_ms now (some (t, o)) (some out) = succeed (some (idle_duration now t))

-- What xproc_c_last_error_copy leaves: the bytes written to the buffer, and what stands behind
-- out_len, if that is not null.
pub record ErrorCopy : Type 0 where
  pub written : List ℕ
  pub out_len : Option ℕ

-- The length is cut to 32 bits. `g` is the last error, which only a refused argument changes.
unfoldable pub last_error_copy : LastError → Bool → ℕ → Option ℕ → Reply ErrorCopy
last_error_copy g null_buffer capacity none =
    refuse (bytes "xproc_c_last_error_copy: out_len must not be null")
      (record { written = []; out_len = none })
last_error_copy g null_buffer capacity (some n) =
    if null_with_capacity null_buffer capacity
    then refuse (bytes "xproc_c_last_error_copy: buffer is null while buffer_capacity is non-zero")
        (record { written = []; out_len = some 0 })
    else let len = length g.message % 2 ^ 32 in
      if ltb capacity len
      then record {
        status = buffer_too_small;
        last = g;
        out = record { written = []; out_len = some len };
      }
      else record {
        status = success;
        last = g;
        out = record { written = take len g.message; out_len = some len };
      }
