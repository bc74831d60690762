-- ===== src/Observer.antt =====
-- include/xproc/ipc/observer.hpp, inspector.hpp, diagnostics_tracker.hpp and
-- src/ipc/diagnostics_tracker.cpp: the read-only attach, the snapshot and the sizes that it reports,
-- the peek, and the tracker that compares snapshots.
pub mod Laws
use xproc.Prelude.{
  ℕ, ◌+◌, ◌-◌, Bool, true, false, not, ◌||◌, List, Option, none, some, min, leb, ◌==◌,
  if◌then◌else◌,
}
use xproc.Errors.{
  Exception, Result, ok, throw, runtime_error, layout_exception, attach_failed, ◌>>=◌, ◌>>◌,
}
use xproc.Options.{
  Abi, TransportOptions, is_fixed, shm_size_for_data_capacity, validate_observer_transport_options,
}
use xproc.Layout.{ControlBlock, Expected, InitControlBlock, readonly, format, validate_detailed}
use xproc.Shm.{Shm, read, empty_shm, open_segment}
use xproc.Endpoint.{World, expected_of}
use xproc.SendResult.{MessageMeta, empty_meta}
use xproc.Ring.{Entry, Visitor, Ring}
use xproc.Channel.{Handler}

pub record Observer : Type 0 where
  pub opts : TransportOptions
  pub shm : Shm
  pub header : ControlBlock

unfoldable pub attach_readonly :
    Abi → InitControlBlock → World → TransportOptions → Shm → Result Observer
attach_readonly abi init w opts shm =
    let x : Expected = expected_of abi opts in
    let (formatted, h) =
      format abi init true w.memory false x
        (record { timestamp = opts.creator_timestamp_ns; flags = opts.creator_flags; pid = w.pid })
        readonly in
    if formatted
    then ok (record {
      opts = record opts {
        shm_size = shm_size_for_data_capacity abi h.data_capacity;
        creator_timestamp_ns = h.creator_timestamp_ns;
        creator_flags = h.creator_flags;
      };
      shm = shm;
      header = h;
    })
    else throw (layout_exception (validate_detailed abi (some w.memory_again) x))

-- The constructor.
unfoldable pub attach_observer : Abi → InitControlBlock → World → TransportOptions → Result Observer
attach_observer abi init w opts = do
  validate_observer_transport_options abi opts
  let o = open_segment w.kernel opts.path opts.shm_size read empty_shm
  if o.result then attach_readonly abi init w opts o.shm else throw (runtime_error attach_failed)

pub record RingSnapshot : Type 0 where
  pub write_pos : ℕ
  pub read_pos : ℕ
  pub commit_pos : ℕ
  pub commit_seq : ℕ
  pub read_wake_seq : ℕ
  pub attach_count : ℕ
  pub producer_pid : ℕ

-- `seq_value` is spscring::notify_seq_value, which drops the waiter flag of a notify word.
unfoldable pub snapshot : (ℕ → ℕ) → ControlBlock → RingSnapshot
snapshot seq_value h = record {
  write_pos = h.write_pos;
  read_pos = h.read_pos;
  commit_pos = h.commit_pos;
  commit_seq = seq_value h.commit_seq;
  read_wake_seq = seq_value h.read_wake_seq;
  attach_count = h.attach_count;
  producer_pid = h.producer_pid;
}

-- `used_bytes_()`, which is also occupancy_bytes and consumer_lag_bytes.
unfoldable pub occupancy_bytes : ControlBlock → ℕ
occupancy_bytes h =
    if leb h.read_pos h.write_pos then min (h.write_pos - h.read_pos) h.data_capacity else 0

unfoldable pub free_bytes : ControlBlock → ℕ
unfolding occupancy_bytes
free_bytes h = h.data_capacity - occupancy_bytes h

-- A peek: the message that the handler was called with, the outcome, and the ring.
pub record Peeked (R : Type 0) : Type 0 where
  pub seen : Option Entry
  pub result : Result Bool
  pub ring : R

-- The adapter around the handler: it takes no message.
abbrev pub keep_with : Handler → Visitor
keep_with handler meta payload = elim (handler meta payload) [ ok u ↦ ok false | throw e ↦ throw e ]

abbrev pub found_or_thrown : Option Entry → Result Bool → Result Bool
found_or_thrown seen (throw e) = throw e
found_or_thrown none (ok b) = ok false
found_or_thrown (some e) (ok b) = ok true

module _ {R : Type 0} (ops : Ring R) where
  peek_slot : Handler → R → Option (List ℕ) → Peeked R
  peek_slot handler r none = record { seen = none; result = ok false; ring = r }
  peek_slot handler r (some slot) = elim (handler empty_meta slot) [
    | throw e ↦ record { seen = some (empty_meta, slot); result = throw e; ring = r }
    | ok u ↦ record { seen = some (empty_meta, slot); result = ok true; ring = r }
  ]

  unfoldable pub peek : TransportOptions → Handler → R → Peeked R
  unfolding peek_slot
  peek opts handler r =
      let v = ops.varlen_read (keep_with handler) r in
      if is_fixed opts.type
      then peek_slot handler r (ops.fixed_try_read r)
      else record { seen = v.seen; result = found_or_thrown v.seen v.result; ring = v.ring }

-- diagnostics_tracker, with times of the steady clock in its own unit.
pub record Tracker : Type 0 where
  pub prev : RingSnapshot
  pub curr : RingSnapshot
  pub last_progress : ℕ

abbrev pub start_tracker : ℕ → RingSnapshot → Tracker
start_tracker now initial = record { prev = initial; curr = initial; last_progress = now }

-- `now` is the time at which the update reads the clock, if it does.
unfoldable pub update : ℕ → RingSnapshot → Tracker → Tracker
update now snap t = record {
  prev = t.curr;
  curr = snap;
  last_progress =
      if not (snap.write_pos == t.curr.write_pos) || not (snap.read_pos == t.curr.read_pos)
      then now
      else t.last_progress;
}

unfoldable pub producer_alive : Tracker → Bool
producer_alive t = not (t.curr.commit_seq == t.prev.commit_seq)

unfoldable pub idle_duration : ℕ → Tracker → ℕ
idle_duration now t = now - t.last_progress
