-- ===== src/Client/Session.antt =====
-- `VectronClient` of clientlibs/js/src/client.ts: its fields, its constructor, `getMetadata`,
-- `getCallOptions`, `validateVectorDim`, `callRead`, `close`, and how it sends a request.
use Prim.Native.String.{◌++◌ as str_append}
use vectron.Prelude.{
  ℕ, String, Bool, true, false, Option, none, some, List, [], ◌∷◌, ◌++◌, length, is_empty_str,
  ltb_ℤ, ℤ, pos, ◌+ℤ◌, eqb_ℤ, is_zero, not, ◌&&◌, if◌then◌else◌, Outcome, ok, err, pending, or_else,
  max_ℕ,
}
use vectron.Client.Errors.{Platform, Thrown, service, ServiceError, invalid_argument_thrown}
use vectron.Client.Options.{Options, ClientOptions, normalize_options}
use vectron.Client.Hedge.{hedged}
use vectron.Client.Retry.{is_truthy, call_with_retry}
use vectron.Client.World.{Request, ResponseOf, CallOptions, Async, order_now, timers}

pub data ChannelValue : Type 0 where
  num : ℤ → ChannelValue
  text : String → ChannelValue

pub data Credentials : Type 0 where
  ssl : Option (List ℕ) → Credentials
  insecure : Credentials

-- The arguments of `new VectronServiceClient`, and whether `close` was called on it.
pub record Channel : Type 0 where
  pub host : String
  pub credentials : Credentials
  pub channel_options : List (String × ChannelValue)
  pub is_closed : Bool

pub record Client : Type 0 where
  pub channel : Channel
  pub api_key : Option String
  pub options : Options

-- `if (value) options[name] = value`, for a number and for a text.
abbrev set_num : String → Option ℤ → List (String × ChannelValue)
set_num name none = []
set_num name (some z) = if is_zero z then [] else (name, num z) ∷ []

abbrev set_text : String → Option String → List (String × ChannelValue)
set_text name none = []
set_text name (some s) = if is_empty_str s then [] else (name, text s) ∷ []

unfoldable pub channel_options_of : Options → List (String × ChannelValue)
channel_options_of o =
    set_num "grpc.max_receive_message_length" o.max_recv_msg_size
    ++ (set_num "grpc.max_send_message_length" o.max_send_msg_size
        ++ (set_num "grpc.keepalive_time_ms" o.keepalive_time_ms
            ++ (set_num "grpc.keepalive_timeout_ms" o.keepalive_timeout_ms
                ++ ((
                  "grpc.keepalive_permit_without_calls",
                  num (if is_truthy o.keepalive_permit_without_calls then pos 1 else pos 0),
                )
                    ∷ (set_text "grpc.primary_user_agent" o.user_agent
                        ++ set_text "grpc.ssl_target_name_override" o.tls_server_name)))))

-- The object that the constructor leaves behind.
unfoldable pub opened_client : String → Option String → Options → Client
opened_client host api_key o = record {
  channel = record {
    host = host;
    credentials = if is_truthy o.use_tls then ssl o.tls_root_certs else insecure;
    channel_options = channel_options_of o;
    is_closed = false;
  };
  api_key = api_key;
  options = o;
}

unfoldable pub new_client : String → Option String → Option ClientOptions → Outcome Thrown Client
new_client host api_key options =
    if is_empty_str host
    then invalid_argument_thrown "Host cannot be empty."
    else ok (opened_client host api_key (normalize_options options))

unfoldable pub close : Client → Client
close c = record c { channel = record c.channel { is_closed = true } }

abbrev pub bearer : Option String → List (String × String)
bearer none = []
bearer (some key) =
    if is_empty_str key then [] else ("authorization", str_append "Bearer " key) ∷ []

unfoldable pub get_metadata : Client → List (String × String)
get_metadata c = bearer c.api_key

abbrev deadline_of : Option ℤ → ℤ → Option ℤ
deadline_of none now = none
deadline_of (some timeout) now =
    if not (is_zero timeout) && ltb_ℤ (pos 0) timeout then some (now +ℤ timeout) else none

unfoldable pub get_call_options : Client → ℤ → CallOptions
get_call_options c now = record {
  deadline = deadline_of c.options.timeout_ms now;
  compression = c.options.compression;
}

-- The callback of a call: an error rejects, an answer goes to `resolve`.
abbrev pub answer :
    {A B : Type 0} → (B → Outcome Thrown A) → Outcome ServiceError B → Outcome Thrown A
answer resolve (ok response) = resolve response
answer resolve (err e) = err (service e)
answer resolve pending = pending

module _ {F : Type 0} where
  abbrev pub mismatches : Option ℤ → List F → Bool
  mismatches none vector = false
  mismatches (some dim) vector = not (is_zero dim) && not (eqb_ℤ (pos (length vector)) dim)

  -- A guard: the vector itself, or the error that is thrown.
  unfoldable pub validate_vector_dim : Platform → Client → List F → Outcome Thrown (List F)
  validate_vector_dim pf c vector =
      if mismatches c.options.expected_vector_dim vector
      then invalid_argument_thrown (
          str_append "Vector dimension " (
            str_append (pf.show (pos (length vector))) (
              str_append " does not match expected "
                (str_append (pf.show (or_else c.options.expected_vector_dim (pos 0))) "."))))
      else ok vector

  module _ {A : Type 0} where
    -- One call of a method of `VectronServiceClient` with its metadata, as a promise.
    unfoldable pub rpc :
        Client
        → List (String × String)
        → (r : Request F) → (ResponseOf r → Outcome Thrown A)
        → Async F A
    rpc c metadata r resolve w = (
      answer resolve (w.replies (length w.sent) r),
      record w {
        sent =
            record {
              request = r;
              metadata = metadata;
              call_options = get_call_options c (w.clock (length w.sent));
            }
            ∷ w.sent;
      },
    )

    unfoldable pub call_write : Platform → Client → Async F A → Async F A
    call_write pf c fn = call_with_retry timers pf c.options true fn

    unfoldable pub call_read : Platform → Client → Async F A → Async F A
    call_read pf c fn =
        if not (is_truthy c.options.hedged_reads)
        then call_with_retry timers pf c.options false fn
        else call_with_retry timers pf c.options false
            (hedged order_now fn (max_ℕ (or_else c.options.hedge_delay_ms (pos 75)) 0))
