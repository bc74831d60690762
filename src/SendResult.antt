-- ===== src/SendResult.antt =====
-- include/xproc/ipc/send_result.hpp and message_meta.hpp: what the bounded sends return, and what
-- goes with a message.
use xproc.Prelude.{ℕ, List, bytes, ◌==◌, if◌then◌else◌}

pub data SendResult : Type 0 where
  ok full timeout message_too_large invalid_argument : SendResult

unfoldable pub send_result_cstr : SendResult → List ℕ
send_result_cstr SendResult.ok = bytes "ok"
send_result_cstr SendResult.full = bytes "full"
send_result_cstr SendResult.timeout = bytes "timeout"
send_result_cstr SendResult.message_too_large = bytes "message_too_large"
send_result_cstr SendResult.invalid_argument = bytes "invalid_argument"

pub record MessageMeta : Type 0 where
  pub user_data : ℕ
  pub timestamp_ns : ℕ
  pub schema_id : ℕ
  pub flags : ℕ

abbrev pub empty_meta : MessageMeta
empty_meta = record { user_data = 0; timestamp_ns = 0; schema_id = 0; flags = 0 }

-- With the time `now` where the caller set none.
unfoldable pub to_spscring_meta : ℕ → MessageMeta → MessageMeta
to_spscring_meta now m = if m.timestamp_ns == 0 then record m { timestamp_ns = now } else m
