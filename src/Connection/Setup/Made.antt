-- ===== src/Connection/Setup/Made.antt =====
-- Connections as `make_conn` makes them.
use oxen_libquic.Base.{
  ℕ, ◌≤◌, ◌<◌, ◌≡◌, refl, ◌^◌, ◌==◌, Bool, true, false, Option, none, some, is_some, List, [],
  if◌then◌else◌, inl, inr, Bool-cases, Option-cases, arith,
}
use oxen_libquic.Base.Int.{pos, negsuc}
use oxen_libquic.Base.Outcome.{done, undefined, Holds, Holds-bind, Holds-done, Holds-Unit}
use oxen_libquic.Base.Calls.{check_each_all}
use oxen_libquic.Context.{Context}
use oxen_libquic.Stream.Buffers.{Buffer}
use oxen_libquic.Connection.{Connection}
use oxen_libquic.Connection.Streams.{find}
use oxen_libquic.Connection.Steps.{Change, Run}
use oxen_libquic.Connection.Steps.Wf.{IsWf, Run-IsWf}
use oxen_libquic.Connection.Steps.Open.{is_open, Run-holds}
use oxen_libquic.Connection.Setup.{
  Header, NewCall, MadeConnection, init_params, init_settings, new_call, setup_tls_session,
  with_conn, construct, make_conn,
}
use oxen_libquic.Tls.{SessionCall, session_calls, session_fails, make_session}

-- The streams and the session of a connection that has just been made.
pub record IsFresh (c : MadeConnection) (is_client : Bool) : Type 0 where
  pub no_streams : c.connection.streams ≡ []
  pub none_pending : c.connection.pending_streams ≡ []
  pub session_done : c.session ≡ session_calls is_client
  pub triggered : c.io_triggered ≡ true

setup_tls_session-Holds :
    (tls_fails : SessionCall → Bool) (ctx : Context) (is_client : Bool)
    → Holds (λ calls. calls ≡ session_calls is_client) (setup_tls_session tls_fails ctx is_client)
unfolding setup_tls_session make_session
setup_tls_session-Holds tls_fails ctx is_client = elim (Option-cases ctx.tls_creds) [
  | inl e ↦ rw e tt
  | inr (creds, e) ↦ rw e (elim (Bool-cases (make_session tls_fails is_client).1) [
    | inl ok ↦ rw ok (check_each_all (session_fails tls_fails) (session_calls is_client) ok)
    | inr failed ↦ rw failed tt
  ])
]

module _ (now max_pmtud : ℕ) (new_conn : NewCall → Option ℕ) (tls_fails : SessionCall → Bool) where
  with_conn-IsFresh :
      (ctx : Context) (outbound : Bool) (p : Option ℕ)
      → Holds
          (λ c. IsFresh (record c { io_triggered = true }) outbound)
          (with_conn now max_pmtud new_conn tls_fails ctx outbound p)
  unfolding with_conn
  with_conn-IsFresh ctx outbound none = tt
  with_conn-IsFresh ctx outbound (some p) =
      Holds-bind (λ calls. calls ≡ session_calls outbound) _
        (setup_tls_session tls_fails ctx outbound) _
        (setup_tls_session-Holds tls_fails ctx outbound)
        (λ calls e. record {
          no_streams = refl;
          none_pending = refl;
          session_done = e;
          triggered = refl;
        })

  make_conn-IsFresh :
      (ctx : Context) (scid dcid : ℕ) (outbound : Bool) (hdr : Option Header)
      → Holds
          (λ c. IsFresh c outbound)
          (make_conn now max_pmtud new_conn tls_fails ctx scid dcid outbound hdr)
  unfolding make_conn construct
  make_conn-IsFresh ctx scid dcid outbound hdr =
      Holds-bind (λ c. IsFresh (record c { io_triggered = true }) outbound) _ _ _
        (Holds-bind (λ _. Unit {0}) _
          (new_call now max_pmtud new_conn tls_fails ctx scid dcid outbound hdr) _ (Holds-Unit _)
          (λ nc _. with_conn-IsFresh ctx outbound (new_conn nc)))
        (λ c f. f)

-- A connection that `make_conn` makes has its TLS session set up completely and its output event
-- active. Through every history that follows of calls of ngtcp2, and of the application's calls of
-- `get_new_stream` and of its streams' `send` and `close`, its map holds exactly the streams that have
-- been opened and not closed since, each once, ready and under its own id, and its queue only streams
-- that are not ready.
pub make_conn-IsWf :
    {S : Type 0} (release : ℕ → S → S × List Buffer) (empty_front : Option ℕ) (now max_pmtud : ℕ)
    (new_conn : NewCall → Option ℕ) (tls_fails : SessionCall → Bool) (ctx : Context) (scid dcid : ℕ)
    (outbound : Bool) (hdr : Option Header) (c : MadeConnection) (d : Connection)
    (changes : List Change)
    → make_conn now max_pmtud new_conn tls_fails ctx scid dcid outbound hdr ≡ done c
    → Run release empty_front c.connection changes d
    → (c.session ≡ session_calls outbound)
      × (c.io_triggered ≡ true)
      × IsWf d
      × ((id : ℕ) → is_some (find id d.streams) ≡ is_open changes id)
make_conn-IsWf release empty_front now max_pmtud new_conn tls_fails ctx scid dcid outbound hdr c d
      changes h r =
    let f =
      Holds-done (λ x. IsFresh x outbound) _ c
        (make_conn-IsFresh now max_pmtud new_conn tls_fails ctx scid dcid outbound hdr) h in
    (
      f.session_done,
      f.triggered,
      Run-IsWf release empty_front c.connection d changes f.no_streams f.none_pending r,
      λ id. Run-holds release empty_front c.connection d changes id f.no_streams f.none_pending r,
    )

-- Where ngtcp2 makes no connection, which the code means to report by an exception, it uses a pointer
-- that was never set.
pub make_conn_undefined :
    (now max_pmtud : ℕ) (new_conn : NewCall → Option ℕ) (tls_fails : SessionCall → Bool)
    (ctx : Context) (scid dcid : ℕ) (outbound : Bool) (hdr : Option Header)
    → ((nc : NewCall) → new_conn nc ≡ none)
    → make_conn now max_pmtud new_conn tls_fails ctx scid dcid outbound hdr ≡ undefined
unfolding make_conn construct new_call with_conn
make_conn_undefined now max_pmtud new_conn tls_fails ctx scid dcid true hdr n = rw n refl
make_conn_undefined now max_pmtud new_conn tls_fails ctx scid dcid false none n = refl
make_conn_undefined now max_pmtud new_conn tls_fails ctx scid dcid false (some h) n = rw n refl

-- Of the limits that a connection announces, a stream's is below the connection's, that below the window
-- that it may grow to, and a stream's below its own; the number of streams is what the user has set,
-- or 32 for none, but 2^60, which QUIC does not allow, is passed where the user has set a negative one.
pub init_params_bounds :
    (now max_pmtud n : ℕ)
    → n < 2 ^ 31
    → ((init_params (pos n)).initial_max_stream_data_bidi_remote
        ≤ (init_settings now max_pmtud).max_stream_window)
      × ((init_params (pos n)).initial_max_stream_data_bidi_remote
          ≤ (init_params (pos n)).initial_max_data)
      × ((init_params (pos n)).initial_max_data ≤ (init_settings now max_pmtud).max_window)
      × ((init_params (pos n)).initial_max_streams_bidi ≡ (if n == 0 then 32 else n))
      × ((init_params (pos n)).initial_max_streams_bidi ≤ 2 ^ 60)
      × (2 ^ 60 < (init_params (negsuc n)).initial_max_streams_bidi)
unfolding init_params init_settings
init_params_bounds now max_pmtud n h =
    (omega arith, omega arith, omega arith, ground arith, ground arith, omega arith)
