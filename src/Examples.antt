-- ===== src/Examples.antt =====
-- A small ABI, a segment of 16 bytes of data behind it, and spscring's initialisation as a function
-- with the properties that are asked of it.
use xproc.Prelude.{ℕ, ◌≡◌, refl, ◌≢◌, ◌↔◌, inr, true, false, [], ◌∷◌, some, arith, ltb, bytes}
use xproc.Errors.{no_error, bad_magic, ok}
use xproc.Options.{
  Abi, TransportOptions, shared_memory, socket, default_options, validate_transport_options,
  validate_producer_transport_options, validate_consumer_transport_options,
  validate_observer_transport_options, data_align_refused, shm_size_for_data_capacity,
  shm_data_capacity_for_size,
}
use xproc.Options.Laws.{
  IsAlignment, IsValid, StatesSize, validate_transport_options_iff, role_validation,
}
use xproc.Layout.{
  RingBlock, ControlBlock, Expected, Creation, InitControlBlock, ref_count, readonly,
  is_ready_spin_limit, check_fields, check_ready, validate_detailed, validate_within, init_header,
  format, validate, is_power_of_two_uint32, ready_read, wait_ready,
}
use xproc.Layout.Validate.{Accepts, validate_detailed_iff, validate_detailed-Defect}
use xproc.Layout.Format.{InitLaw, format-attach}
use xproc.Shm
use xproc.Shm.{
  ShmOpenMode, open_create, fails, gives, Shm, empty_shm, open_segment, open_descriptor,
  map_segment,
}
use xproc.Endpoint.{
  consumer, Endpoint, World, expected_of, validate_role, attach_mapping, establish_connection,
}
use xproc.Layout.Wait.{FirstReady}
use xproc.Layout.Validate.{Matches}
use xproc.Observer.{Observer, attach_observer, attach_readonly}
use xproc.Observer.Laws.{observe_unchanged}
use xproc.Endpoint.Attach.{
  attach, observe, detach, run, alive, run-alive, Joined, establish_connection-Joined,
}

abbrev pub abi : Abi
abi = record {
  sizeof_control_block = 64;
  expected_magic = 77;
  version_major = 1;
  version_minor = 0;
}

abbrev pub blank_ring : RingBlock
blank_ring = record {
  magic = 0;
  version_major = 0;
  version_minor = 0;
  header_size = 0;
  layout_type = 0;
  fixed_item_size = 0;
  data_capacity = 0;
  data_alignment = 0;
  write_pos = 0;
  read_pos = 0;
  commit_pos = 0;
  commit_seq = 0;
  read_wake_seq = 0;
}

abbrev pub blank : ControlBlock
blank = record {
  spscring_cb = blank_ring;
  attach_count = 0;
  is_ready = false;
  producer_pid = 0;
  schema_id = 0;
  creator_timestamp_ns = 0;
  creator_flags = 0;
  reserved_xproc = 0;
}

abbrev pub init : InitControlBlock
init r capacity layout align item = (
  ltb 0 capacity,
  record blank_ring {
    magic = 77;
    version_major = 1;
    data_capacity = capacity;
    layout_type = layout;
    data_alignment = align;
    fixed_item_size = item;
  },
)

pub init-InitLaw : InitLaw abi init
init-InitLaw = record {
  magic = λ r cap layout align item e. refl;
  versions = λ r cap layout align item e. (refl, refl);
  arguments = λ r cap layout align item e. (refl, refl, refl, refl);
}

abbrev expected : ℕ → Expected
expected capacity = record {
  capacity = capacity;
  layout = 0;
  alignment = 8;
  item_size = 4;
  schema = 9;
}

abbrev pub creation : Creation
creation = record { timestamp = 3; flags = 1; pid = 42 }

abbrev formatted : ControlBlock
formatted = record {
  spscring_cb = record blank_ring {
    magic = 77;
    version_major = 1;
    header_size = 64;
    data_capacity = 16;
    data_alignment = 8;
    fixed_item_size = 4;
  };
  attach_count = 1;
  is_ready = true;
  producer_pid = 42;
  schema_id = 9;
  creator_timestamp_ns = 3;
  creator_flags = 1;
  reserved_xproc = 0;
}

eight-IsAlignment : IsAlignment 8
eight-IsAlignment = (omega arith, (3, refl))

validate_detailed_iff_example :
    (validate_detailed abi (some (λ _. formatted)) (expected 16) ≡ no_error)
    ↔ Accepts abi is_ready_spin_limit (λ _. formatted) (expected 16)
validate_detailed_iff_example = validate_detailed_iff abi (λ _. formatted) (expected 16)

validate_detailed-Defect_example : blank.magic ≢ 77
unfolding validate_detailed validate_within
validate_detailed-Defect_example =
    validate_detailed-Defect abi (λ _. blank) (expected 16) bad_magic refl

format-attach_example :
    let attach_block = format abi init true (λ _. formatted) false (expected 12) creation in
    (attach_block ref_count ≡ (true, record formatted { attach_count = 2 }))
    × (attach_block readonly ≡ (true, formatted))
unfolding format init_header
format-attach_example =
    format-attach abi init init-InitLaw (λ _. blank) formatted (expected 16) creation creation
      ref_count 12 (inr eight-IsAlignment) (omega arith) refl

abbrev options : ℕ → TransportOptions
options size = record default_options {
  path = bytes "/ring";
  shm_size = size;
  item_size = 4;
  data_align = 8;
  schema_id = 9;
}

validate_transport_options_iff_example :
    (validate_transport_options abi (options 80) ≡ ok tt) ↔ IsValid abi (options 80)
validate_transport_options_iff_example = validate_transport_options_iff abi (options 80)

role_validation_example :
    ((validate_producer_transport_options abi (options 80) ≡ ok tt) ↔ (
      IsValid abi (options 80)
      × StatesSize (options 80)
      × (shared_memory ≡ socket → false ≡ false)))
    × ((validate_consumer_transport_options abi (options 80) ≡ ok tt) ↔ (
        IsValid abi (options 80)
        × StatesSize (options 80)
        × (shared_memory ≡ socket → false ≡ true)))
    × ((validate_observer_transport_options abi (options 80) ≡ ok tt)
        ↔ (IsValid abi (options 80) × (shared_memory ≡ shared_memory)))
role_validation_example = role_validation abi (options 80)

run-alive_example :
    run (attach ∷ observe ∷ attach ∷ detach ∷ []) formatted ≡ record formatted { attach_count = 2 }
unfolding alive
run-alive_example =
    run-alive (attach ∷ observe ∷ attach ∷ detach ∷ []) formatted 1 2 refl (omega arith) refl

abbrev kernel : Shm.Kernel
kernel = record {
  open_rdwr = gives 5;
  open_excl = fails 17;
  reopen_rdwr = gives 5;
  open_rdonly = gives 5;
  truncate = gives 0;
  stat = gives 80;
  map = gives 4096;
}

abbrev world : World
world = record { kernel = kernel; memory = λ _. formatted; memory_again = λ _. formatted; pid = 43 }

-- A consumer that states 72 bytes of a segment of 80.
abbrev joined_endpoint : Endpoint
joined_endpoint = record {
  role = consumer;
  opts = record (options 80) { creator_timestamp_ns = 3; creator_flags = 1 };
  shm = record empty_shm { addr = some 4096; size = 72; fd = some 5; name = bytes "/ring" };
  header = record formatted { attach_count = 2 };
}

establishes : establish_connection abi init world consumer (options 72) ≡ ok joined_endpoint
unfolding establish_connection validate_role validate_consumer_transport_options
    validate_transport_options data_align_refused open_segment open_descriptor map_segment
    attach_mapping format validate validate_detailed validate_within check_ready wait_ready
    check_fields is_power_of_two_uint32 shm_data_capacity_for_size ready_read
    shm_size_for_data_capacity
establishes = refl

establish_connection-Joined_example : Joined abi world consumer (options 72) joined_endpoint
establish_connection-Joined_example =
    establish_connection-Joined abi init world consumer (options 72) joined_endpoint establishes
      refl

abbrev observing : Observer
observing = record {
  opts = record (options 80) { creator_timestamp_ns = 3; creator_flags = 1 };
  shm = record empty_shm { addr = some 4096; size = 72; fd = some 5; name = bytes "/ring" };
  header = formatted;
}

observes : attach_observer abi init world (options 72) ≡ ok observing
unfolding attach_observer validate_observer_transport_options validate_transport_options
    data_align_refused open_segment open_descriptor map_segment attach_readonly format validate
    validate_detailed validate_within check_ready wait_ready check_fields is_power_of_two_uint32
    shm_data_capacity_for_size ready_read shm_size_for_data_capacity
observes = refl

observe_unchanged_example :
    (validate_observer_transport_options abi (options 72) ≡ ok tt)
    × ((j : ℕ) × FirstReady (λ _. formatted) is_ready_spin_limit 1 j
        × Matches abi formatted (expected_of abi (options 72))
        × (formatted ≡ formatted))
observe_unchanged_example = observe_unchanged abi init world (options 72) observing observes
