-- ===== src/Context/Tests.antt =====
-- The options of a context, with one given twice.
use oxen_libquic.Base.{◌≡◌, none, some, [], ◌∷◌}
use oxen_libquic.Base.Int.{pos}
use oxen_libquic.Context.{data_cb, streams, make_context}
use oxen_libquic.Context.Options.{make_context-last_of}

make_context-last_of_example :
    make_context (data_cb (some 1) ∷ streams (pos 8) ∷ data_cb (some 2) ∷ []) ≡ record {
      tls_creds = none;
      stream_data_cb = some 2;
      stream_open_cb = none;
      stream_close_cb = none;
      max_streams = pos 8;
    }
make_context-last_of_example =
    make_context-last_of (data_cb (some 1) ∷ streams (pos 8) ∷ data_cb (some 2) ∷ [])
