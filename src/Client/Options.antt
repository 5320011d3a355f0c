-- ===== src/Client/Options.antt =====
-- `ClientOptions`, `defaultOptions` and `normalizeOptions` of clientlibs/js/src/client.ts.
-- Times, sizes and counts are integers; the multiplier and the jitter are in thousandths.
use vectron.Prelude.{ℕ, String, Bool, false, Option, none, some, List, ℤ, pos}

-- A property of the object that the caller passes: left out, or given, perhaps as `undefined`.
pub data Slot {ℓ} (A : Type ℓ) : Type ℓ where
  missing : Slot A
  given : Option A → Slot A

pub data Compression : Type 0 where
  gzip : Compression

pub record ClientOptions : Type 0 where
  pub timeout_ms : Slot ℤ
  pub use_tls : Slot Bool
  pub tls_root_certs : Slot (List ℕ)
  pub tls_server_name : Slot String
  pub max_recv_msg_size : Slot ℤ
  pub max_send_msg_size : Slot ℤ
  pub keepalive_time_ms : Slot ℤ
  pub keepalive_timeout_ms : Slot ℤ
  pub keepalive_permit_without_calls : Slot Bool
  pub expected_vector_dim : Slot ℤ
  pub user_agent : Slot String
  pub compression : Slot Compression
  pub hedged_reads : Slot Bool
  pub hedge_delay_ms : Slot ℤ
  pub max_batch_bytes : Slot ℤ
  pub retry_max_attempts : Slot ℤ
  pub retry_initial_backoff_ms : Slot ℤ
  pub retry_max_backoff_ms : Slot ℤ
  pub retry_backoff_multiplier : Slot ℤ
  pub retry_jitter : Slot ℤ
  pub retry_on_writes : Slot Bool
  pub retryable_status_codes : Slot (List ℕ)

-- The options that the client keeps; `none` is `undefined`.
pub record Options : Type 0 where
  pub timeout_ms : Option ℤ
  pub use_tls : Option Bool
  pub tls_root_certs : Option (List ℕ)
  pub tls_server_name : Option String
  pub max_recv_msg_size : Option ℤ
  pub max_send_msg_size : Option ℤ
  pub keepalive_time_ms : Option ℤ
  pub keepalive_timeout_ms : Option ℤ
  pub keepalive_permit_without_calls : Option Bool
  pub expected_vector_dim : Option ℤ
  pub user_agent : Option String
  pub compression : Option Compression
  pub hedged_reads : Option Bool
  pub hedge_delay_ms : Option ℤ
  pub max_batch_bytes : Option ℤ
  pub retry_max_attempts : Option ℤ
  pub retry_initial_backoff_ms : Option ℤ
  pub retry_max_backoff_ms : Option ℤ
  pub retry_backoff_multiplier : Option ℤ
  pub retry_jitter : Option ℤ
  pub retry_on_writes : Option Bool
  pub retryable_status_codes : Option (List ℕ)

abbrev pub default_options : Options
default_options = record {
  timeout_ms = some (pos 10000);
  use_tls = some false;
  tls_root_certs = none;
  tls_server_name = none;
  max_recv_msg_size = some (pos 16777216);
  max_send_msg_size = some (pos 16777216);
  keepalive_time_ms = some (pos 30000);
  keepalive_timeout_ms = some (pos 10000);
  keepalive_permit_without_calls = some false;
  expected_vector_dim = some (pos 0);
  user_agent = some "vectron-js-client";
  compression = none;
  hedged_reads = some false;
  hedge_delay_ms = some (pos 75);
  max_batch_bytes = some (pos 0);
  retry_max_attempts = some (pos 3);
  retry_initial_backoff_ms = some (pos 100);
  retry_max_backoff_ms = some (pos 2000);
  retry_backoff_multiplier = some (pos 2000);
  retry_jitter = some (pos 200);
  retry_on_writes = some false;
  retryable_status_codes = none;
}

-- One property of `{ ...defaults, ...options }`: a given `undefined` covers the default too.
abbrev pub spread {ℓ} : {A : Type ℓ} → Slot A → Option A → Option A
spread missing d = d
spread (given v) d = v

spread_options : ClientOptions → Options
spread_options o = record {
  timeout_ms = spread o.timeout_ms default_options.timeout_ms;
  use_tls = spread o.use_tls default_options.use_tls;
  tls_root_certs = spread o.tls_root_certs default_options.tls_root_certs;
  tls_server_name = spread o.tls_server_name default_options.tls_server_name;
  max_recv_msg_size = spread o.max_recv_msg_size default_options.max_recv_msg_size;
  max_send_msg_size = spread o.max_send_msg_size default_options.max_send_msg_size;
  keepalive_time_ms = spread o.keepalive_time_ms default_options.keepalive_time_ms;
  keepalive_timeout_ms = spread o.keepalive_timeout_ms default_options.keepalive_timeout_ms;
  keepalive_permit_without_calls =
      spread o.keepalive_permit_without_calls default_options.keepalive_permit_without_calls;
  expected_vector_dim = spread o.expected_vector_dim default_options.expected_vector_dim;
  user_agent = spread o.user_agent default_options.user_agent;
  compression = spread o.compression default_options.compression;
  hedged_reads = spread o.hedged_reads default_options.hedged_reads;
  hedge_delay_ms = spread o.hedge_delay_ms default_options.hedge_delay_ms;
  max_batch_bytes = spread o.max_batch_bytes default_options.max_batch_bytes;
  retry_max_attempts = spread o.retry_max_attempts default_options.retry_max_attempts;
  retry_initial_backoff_ms =
      spread o.retry_initial_backoff_ms default_options.retry_initial_backoff_ms;
  retry_max_backoff_ms = spread o.retry_max_backoff_ms default_options.retry_max_backoff_ms;
  retry_backoff_multiplier =
      spread o.retry_backoff_multiplier default_options.retry_backoff_multiplier;
  retry_jitter = spread o.retry_jitter default_options.retry_jitter;
  retry_on_writes = spread o.retry_on_writes default_options.retry_on_writes;
  retryable_status_codes = spread o.retryable_status_codes default_options.retryable_status_codes;
}

-- `options ?? {}`: with no options every property is left out.
unfoldable pub normalize_options : Option ClientOptions → Options
unfolding spread_options
normalize_options none = default_options
normalize_options (some o) = spread_options o
