-- ===== src/Capi/Consumer.antt =====
-- src/capi/xproc_c.cpp: the consumer's part of the C interface, with the message that it keeps for a
-- caller whose buffer was too small.
use xproc.Prelude.{
  ℕ, Bool, not, ◌&&◌, List, [], Option, none, some, ltb, ◌==◌, if◌then◌else◌, length, bytes,
}
use xproc.Errors.{Exception, Result, ok, throw, ◌>>◌}
use xproc.Options.{TransportOptions, is_empty}
use xproc.Capi.{
  buffer_too_small, Reply, succeed, try_again, set_last_error, refuse, caught, catch_status,
}
use xproc.Capi.Options.{COptions}
use xproc.Capi.Producer.{copy_options_from_handle, producer_socket_port_impl}

-- consumer_channel_interface: `poll` with a handler that copies the message and returns gives the
-- message that the handler was called with, or none if it returns false; `wait` may throw.
pub record ConsumerInterface (C : Type 0) : Type 0 where
  pub poll : C → C × Result (Option (List ℕ))
  pub wait : C → C × Result (Unit {0})
  pub options : C → TransportOptions

-- `xproc_c_consumer`. An empty `pending` is no message: what is kept is never empty.
pub record ConsumerHandle (C : Type 0) : Type 0 where
  pub impl : C
  pub pending : List ℕ

-- What a copy leaves: the handle, the bytes written to the buffer, and what stands behind out_len, if
-- that is not null.
pub record Copied (C : Type 0) : Type 0 where
  pub handle : Option (ConsumerHandle C)
  pub written : List ℕ
  pub out_len : Option ℕ

abbrev pub null_with_capacity : Bool → ℕ → Bool
null_with_capacity null_buffer capacity = null_buffer && not (capacity == 0)

module _ (what : Exception → List ℕ) {C : Type 0} (ops : ConsumerInterface C) where
  unfoldable pub consumer_pending_len : Option (ConsumerHandle C) → Option ℕ → Reply (Option ℕ)
  consumer_pending_len consumer none =
      refuse (bytes "xproc_c_consumer_pending_len: out_len must not be null") none
  consumer_pending_len none (some n) =
      refuse (bytes "xproc_c_consumer_pending_len: consumer is null") (some 0)
  consumer_pending_len (some h) (some n) = succeed (some (length h.pending))

  abbrev pub too_small : ConsumerHandle C → ℕ → Reply (Copied C)
  too_small h len =
      set_last_error buffer_too_small (bytes "xproc_c_consumer_poll_copy: buffer too small")
        (record { handle = some h; written = []; out_len = some len })

  -- With a message that an earlier call kept.
  abbrev pub copy_pending : ConsumerHandle C → ℕ → Reply (Copied C)
  copy_pending h capacity =
      if ltb capacity (length h.pending)
      then too_small h (length h.pending)
      else succeed (record {
        handle = some (record h { pending = [] });
        written = h.pending;
        out_len = some (length h.pending);
      })

  -- After the poll; it may throw, and then out_len is left as it was.
  abbrev pub copy_polled :
      ConsumerHandle C → ℕ → ℕ → C × Result (Option (List ℕ)) → Reply (Copied C)
  copy_polled h capacity out_len (c, throw e) =
      caught what
        (record { handle = some (record h { impl = c }); written = []; out_len = some out_len }) e
  copy_polled h capacity out_len (c, ok none) =
      try_again (record { handle = some (record h { impl = c }); written = []; out_len = some 0 })
  copy_polled h capacity out_len (c, ok (some message)) =
      if ltb capacity (length message)
      then too_small (record { impl = c; pending = message }) (length message)
      else succeed (record {
        handle = some (record h { impl = c });
        written = message;
        out_len = some (length message);
      })

  abbrev pub copy_from : ConsumerHandle C → ℕ → ℕ → Reply (Copied C)
  copy_from h capacity out_len =
      if is_empty h.pending
      then copy_polled h capacity out_len (ops.poll h.impl)
      else copy_pending h capacity

  unfoldable pub consumer_poll_copy :
      Option (ConsumerHandle C) → Bool → ℕ → Option ℕ → Reply (Copied C)
  consumer_poll_copy consumer null_buffer capacity none =
      refuse (bytes "xproc_c_consumer_poll_copy: out_len must not be null")
        (record { handle = consumer; written = []; out_len = none })
  consumer_poll_copy none null_buffer capacity (some n) =
      refuse
        (if null_with_capacity null_buffer capacity
          then bytes "xproc_c: buffer is null while buffer_capacity is non-zero"
          else bytes "xproc_c_consumer_poll_copy: consumer is null")
        (record { handle = none; written = []; out_len = some 0 })
  consumer_poll_copy (some h) null_buffer capacity (some n) =
      if null_with_capacity null_buffer capacity
      then refuse (bytes "xproc_c: buffer is null while buffer_capacity is non-zero")
          (record { handle = some h; written = []; out_len = some 0 })
      else copy_from h capacity n

  unfoldable pub consumer_wait : Option (ConsumerHandle C) → Reply (Option (ConsumerHandle C))
  consumer_wait none = refuse (bytes "xproc_c_consumer_wait: consumer is null") none
  consumer_wait (some h) =
      let (c, r) = ops.wait h.impl in
      if is_empty h.pending
      then catch_status what (some (record h { impl = c }))
          (r >> ok (succeed (some (record h { impl = c }))))
      else succeed (some h)

  unfoldable pub consumer_options :
      Option (ConsumerHandle C) → Option COptions → Reply (Option COptions)
  unfolding copy_options_from_handle
  consumer_options consumer out =
      copy_options_from_handle what (bytes "xproc_c_consumer_options: consumer is null")
        (bytes "xproc_c_consumer_options: out_options must not be null") (λ h. ops.options h.impl)
        consumer out

  unfoldable pub consumer_socket_port : Option (ConsumerHandle C) → Option ℕ → Reply (Option ℕ)
  unfolding producer_socket_port_impl
  consumer_socket_port consumer out =
      producer_socket_port_impl what (bytes "xproc_c_consumer_socket_port: consumer is null")
        (λ h. ops.options h.impl) consumer out
