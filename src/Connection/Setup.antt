-- ===== src/Connection/Setup.antt =====
-- src/connection.cpp: `Connection::init`, the constructor, `setup_tls_session` and `make_conn`, and the
-- callback that makes new connection ids. What ngtcp2 gives is an argument.
pub mod Made
mod Tests
use oxen_libquic.Base.{
  ℕ, suc, ◌-◌, ◌*◌, ◌%◌, ◌^◌, ltb, Bool, true, false, Option, none, some, List, [], ◌∷◌,
  if◌then◌else◌,
}
use oxen_libquic.Base.Int.{ℤ, ◌==ℤ◌, pos, negsuc}
use oxen_libquic.Base.Outcome.{Outcome, done, undefined, throws, ◌>>=◌}
use oxen_libquic.Context.{Context}
use oxen_libquic.Connection.{Connection, Answer, check_pending_streams, zero_rv, callback_failure}
use oxen_libquic.Tls.{SessionCall, make_session}

-- `operator""_Mi`.
abbrev pub mi : ℕ → ℕ
mi x = x * 1024 * 1024

-- A callback that ngtcp2 calls, by the field of `ngtcp2_callbacks` that holds it.
pub data Slot : Type 0 where
  client_initial recv_client_initial recv_crypto_data encrypt decrypt hp_mask recv_stream_data
        acked_stream_data_offset stream_open stream_close recv_retry extend_max_local_streams_bidi
        rand get_new_connection_id update_key stream_reset delete_crypto_aead_ctx
        delete_crypto_cipher_ctx get_path_challenge_data version_negotiation other_slot :
      Slot

-- What a field holds: the helper that ngtcp2_crypto has for it, or a function of libquic.
pub data Handler : Type 0 where
  of_crypto on_stream_data on_acked on_stream_open on_stream_close on_stream_reset on_more_streams
        fill_random make_new_id :
      Handler

abbrev pub Callbacks : Type 0
Callbacks = Slot → Option Handler

abbrev pub init_callbacks : Callbacks
init_callbacks client_initial = none
init_callbacks recv_client_initial = none
init_callbacks recv_retry = none
init_callbacks recv_stream_data = some on_stream_data
init_callbacks acked_stream_data_offset = some on_acked
init_callbacks stream_open = some on_stream_open
init_callbacks stream_close = some on_stream_close
init_callbacks stream_reset = some on_stream_reset
init_callbacks extend_max_local_streams_bidi = some on_more_streams
init_callbacks rand = some fill_random
init_callbacks get_new_connection_id = some make_new_id
init_callbacks other_slot = none
init_callbacks s = some of_crypto

-- What a constructor of a client or of a server adds.
abbrev pub client_callbacks : Callbacks
client_callbacks client_initial = some of_crypto
client_callbacks recv_retry = some of_crypto
client_callbacks s = init_callbacks s

abbrev pub server_callbacks : Callbacks
server_callbacks recv_client_initial = some of_crypto
server_callbacks s = init_callbacks s

-- The settings that `init` writes, and the token of a server.
pub record Settings : Type 0 where
  pub initial_ts : ℕ
  pub max_tx_udp_payload_size : ℕ
  pub max_window : ℕ
  pub max_stream_window : ℕ
  pub token : Option (List ℕ)

pub record Params : Type 0 where
  pub initial_max_data : ℕ
  pub initial_max_streams_uni : ℕ
  pub initial_max_stream_data_bidi_local : ℕ
  pub initial_max_stream_data_bidi_remote : ℕ
  pub initial_max_stream_data_uni : ℕ
  pub max_idle_timeout : ℕ
  pub active_connection_id_limit : ℕ
  pub initial_max_streams_bidi : ℕ
  pub original_dcid : Option ℕ

abbrev pub default_max_bidi_streams : ℕ
default_max_bidi_streams = 32

-- An `int` as a `uint64_t`.
abbrev pub to_uint64 : ℤ → ℕ
to_uint64 (pos n) = n
to_uint64 (negsuc n) = 2 ^ 64 - suc n

-- At a time, with NGTCP2_MAX_PMTUD_UDP_PAYLOAD_SIZE.
unfoldable pub init_settings : ℕ → ℕ → Settings
init_settings now max_pmtud = record {
  initial_ts = now;
  max_tx_udp_payload_size = max_pmtud;
  max_window = mi 24;
  max_stream_window = mi 16;
  token = none;
}

-- `init`, with `user_config.max_streams`. A timeout is in nanoseconds.
unfoldable pub init_params : ℤ → Params
init_params max_streams = record {
  initial_max_data = mi 15;
  initial_max_streams_uni = 0;
  initial_max_stream_data_bidi_local = mi 6;
  initial_max_stream_data_bidi_remote = mi 6;
  initial_max_stream_data_uni = mi 6;
  max_idle_timeout = 5 * 60 * 1000000000;
  active_connection_id_limit = 8;
  initial_max_streams_bidi =
      if max_streams ==ℤ pos 0 then default_max_bidi_streams else to_uint64 max_streams;
  original_dcid = none;
}

-- The packet header that a server starts from.
pub record Header : Type 0 where
  pub hdr_dcid : ℕ
  pub hdr_token : List ℕ

-- The call of ngtcp2_conn_client_new or ngtcp2_conn_server_new.
pub record NewCall : Type 0 where
  pub is_client : Bool
  pub dcid : ℕ
  pub scid : ℕ
  pub callbacks : Callbacks
  pub settings : Settings
  pub params : Params

-- A connection that has been made: its streams, the pointer to ngtcp2's part, the calls for its TLS
-- session, and whether its output event is active.
pub record MadeConnection : Type 0 where
  pub connection : Connection
  pub ngtcp2_conn : ℕ
  pub session : List SessionCall
  pub io_triggered : Bool

-- `setup_tls_session`: credentials that are null are dereferenced.
unfoldable pub setup_tls_session :
    (SessionCall → Bool) → Context → Bool → Outcome (List SessionCall)
setup_tls_session tls_fails ctx is_client = elim ctx.tls_creds [
  | none ↦ undefined
  | some creds ↦
      let (calls, ok) = make_session tls_fails is_client in if ok then done calls else throws
]

-- `new_conn` is the call of ngtcp2 that makes a connection: a pointer, or `none` for an error, for which
-- the code uses a pointer that was never set before it comes to the test of `rv`.
module _ (now max_pmtud : ℕ) (new_conn : NewCall → Option ℕ) (tls_fails : SessionCall → Bool) where
  -- For a server without a header the code reads through a null pointer.
  unfoldable pub new_call : Context → ℕ → ℕ → Bool → Option Header → Outcome NewCall
  new_call ctx scid dcid outbound hdr = elim outbound [
    | true ↦ done (record {
      is_client = true;
      dcid = dcid;
      scid = scid;
      callbacks = client_callbacks;
      settings = init_settings now max_pmtud;
      params = init_params ctx.max_streams;
    })
    | false ↦ elim hdr [
      | none ↦ undefined
      | some h ↦ done (record {
        is_client = false;
        dcid = dcid;
        scid = scid;
        callbacks = server_callbacks;
        settings = record (init_settings now max_pmtud) { token = some h.hdr_token };
        params = record (init_params ctx.max_streams) { original_dcid = some h.hdr_dcid };
      })
    ]
  ]

  -- The constructor from `conn.reset(connptr)` on.
  unfoldable pub with_conn : Context → Bool → Option ℕ → Outcome MadeConnection
  unfolding setup_tls_session
  with_conn ctx outbound none = undefined
  with_conn ctx outbound (some p) = setup_tls_session tls_fails ctx outbound >>= λ calls.
      done (record {
        connection = record { context = ctx; streams = []; pending_streams = [] };
        ngtcp2_conn = p;
        session = calls;
        io_triggered = false;
      })

  -- The constructor.
  unfoldable pub construct : Context → ℕ → ℕ → Bool → Option Header → Outcome MadeConnection
  unfolding new_call with_conn
  construct ctx scid dcid outbound hdr =
      new_call ctx scid dcid outbound hdr >>= λ nc. with_conn ctx outbound (new_conn nc)

  unfoldable pub make_conn : Context → ℕ → ℕ → Bool → Option Header → Outcome MadeConnection
  unfolding construct
  make_conn ctx scid dcid outbound hdr =
      construct ctx scid dcid outbound hdr >>= λ c. done (record c { io_triggered = true })

-- `get_new_connection_id_cb`, with the bytes that GnuTLS draws for the id, or `none` for an error, and
-- whether it draws a token: the answer, and the id where it has been written.
unfoldable pub get_new_connection_id_cb : Option (List ℕ) → Bool → Answer × Option (List ℕ)
get_new_connection_id_cb none token_drawn = (callback_failure, none)
get_new_connection_id_cb (some cid) token_drawn =
    (if token_drawn then zero_rv else callback_failure, some cid)

-- A `uint64_t` as the `int` parameter of `check_pending_streams`, where a negative number is like 0.
abbrev pub to_available : ℕ → ℕ
to_available n = if ltb (n % 2 ^ 32) (2 ^ 31) then n % 2 ^ 32 else 0

-- The callback `extend_max_local_streams_bidi`, with ngtcp2_conn_get_streams_bidi_left and what
-- ngtcp2_conn_open_bidi_stream gives.
unfoldable pub more_streams : Connection → ℕ → List (Option ℕ) → Connection
more_streams c remaining opened =
    if ltb 0 remaining then check_pending_streams c (to_available remaining) opened else c
