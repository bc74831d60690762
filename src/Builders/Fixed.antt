-- ===== src/Builders/Fixed.antt =====
-- include/xproc/ipc/shm_builders.hpp: the members of fixed_channel_builder that change it.
use xproc.Prelude.{ℕ, List}
use xproc.Builders.{FixedChannelBuilder}

abbrev pub with_data_align : ℕ → FixedChannelBuilder → FixedChannelBuilder
with_data_align data_align b = record b { data_align = data_align }

abbrev pub with_schema_id : ℕ → FixedChannelBuilder → FixedChannelBuilder
with_schema_id schema_id b = record b { schema_id = schema_id }

abbrev pub with_creator_timestamp_ns : ℕ → FixedChannelBuilder → FixedChannelBuilder
with_creator_timestamp_ns creator_timestamp_ns b = record b {
  creator_timestamp_ns = creator_timestamp_ns;
}

abbrev pub with_creator_flags : ℕ → FixedChannelBuilder → FixedChannelBuilder
with_creator_flags creator_flags b = record b { creator_flags = creator_flags }

abbrev pub with_win32_object_namespace : List ℕ → FixedChannelBuilder → FixedChannelBuilder
with_win32_object_namespace win32_object_namespace b = record b {
  win32_object_namespace = win32_object_namespace;
}
