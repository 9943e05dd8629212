-- ===== src/Context.antt =====
-- src/context.cpp, include/quic/context.hpp and include/quic/opt.hpp: the options of a context. The
-- classes InboundContext and OutboundContext treat them alike.
pub mod Options
mod Tests
use oxen_libquic.Base.{ℕ, Option, none, some, List, [], ◌∷◌}
use oxen_libquic.Base.Int.{ℤ, pos}

-- `ContextBase`: credentials and callbacks by number.
pub record Context : Type 0 where
  pub tls_creds : Option ℕ
  pub stream_data_cb : Option ℕ
  pub stream_open_cb : Option ℕ
  pub stream_close_cb : Option ℕ
  pub max_streams : ℤ

abbrev pub empty_context : Context
empty_context = record {
  tls_creds = none;
  stream_data_cb = none;
  stream_open_cb = none;
  stream_close_cb = none;
  max_streams = pos 0;
}

-- One argument of `listen` or `connect`. A pointer or a function may be empty.
pub data Opt : Type 0 where
  tls data_cb open_cb close_cb : Option ℕ → Opt
  streams : ℤ → Opt

abbrev pub default_max_bidi_streams : ℤ
default_max_bidi_streams = pos 32

-- `opt::max_streams`, made without a number or with one.
abbrev pub max_streams_opt : Option ℤ → Opt
max_streams_opt none = streams default_max_bidi_streams
max_streams_opt (some n) = streams n

-- `handle_inbound_opt` and `handle_outbound_opt`.
unfoldable pub handle_opt : Context → Opt → Context
handle_opt c (tls t) = record c { tls_creds = t }
handle_opt c (data_cb f) = record c { stream_data_cb = f }
handle_opt c (open_cb f) = record c { stream_open_cb = f }
handle_opt c (close_cb f) = record c { stream_close_cb = f }
handle_opt c (streams n) = record c { max_streams = n }

abbrev pub handle_all : Context → List Opt → Context
handle_all c [] = c
handle_all c (o ∷ os) = handle_all (handle_opt c o) os

-- The constructors: the options from left to right.
unfoldable pub make_context : List Opt → Context
unfolding handle_opt
make_context os = handle_all empty_context os
