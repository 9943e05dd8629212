-- ===== src/Context/Options.antt =====
-- Which options hold.
use oxen_libquic.Base.{ℕ, ◌≡◌, refl, Option, none, some, List, [], ◌∷◌}
use oxen_libquic.Base.Int.{ℤ, pos}
use oxen_libquic.Context.{
  Context, Opt, tls, data_cb, open_cb, close_cb, streams, empty_context, handle_opt, handle_all,
  make_context,
}

-- What an option says of a field, if it says anything.
abbrev pub data_cb_of : Opt → Option (Option ℕ)
data_cb_of (data_cb f) = some f
data_cb_of _ = none

abbrev pub open_cb_of : Opt → Option (Option ℕ)
open_cb_of (open_cb f) = some f
open_cb_of _ = none

abbrev pub close_cb_of : Opt → Option (Option ℕ)
close_cb_of (close_cb f) = some f
close_cb_of _ = none

abbrev pub tls_of : Opt → Option (Option ℕ)
tls_of (tls t) = some t
tls_of _ = none

abbrev pub streams_of : Opt → Option ℤ
streams_of (streams n) = some n
streams_of _ = none

abbrev pub or_else {ℓ} : {A : Type ℓ} → Option A → A → A
or_else none d = d
or_else (some a) d = a

-- What the last of the options that say something says, or the value before them.
abbrev pub last_of {ℓ} : {A : Type ℓ} → (Opt → Option A) → A → List Opt → A
last_of says d [] = d
last_of says d (o ∷ os) = last_of says (or_else (says o) d) os

handle_all-last_of :
    (c : Context) (os : List Opt)
    → handle_all c os ≡ record {
      tls_creds = last_of tls_of c.tls_creds os;
      stream_data_cb = last_of data_cb_of c.stream_data_cb os;
      stream_open_cb = last_of open_cb_of c.stream_open_cb os;
      stream_close_cb = last_of close_cb_of c.stream_close_cb os;
      max_streams = last_of streams_of c.max_streams os;
    }
unfolding handle_opt
handle_all-last_of c [] = refl
handle_all-last_of c (tls t ∷ os) = handle_all-last_of (handle_opt c (tls t)) os
handle_all-last_of c (data_cb f ∷ os) = handle_all-last_of (handle_opt c (data_cb f)) os
handle_all-last_of c (open_cb f ∷ os) = handle_all-last_of (handle_opt c (open_cb f)) os
handle_all-last_of c (close_cb f ∷ os) = handle_all-last_of (handle_opt c (close_cb f)) os
handle_all-last_of c (streams n ∷ os) = handle_all-last_of (handle_opt c (streams n)) os

-- Each field of a context is what the last option of its kind says, whatever the options between; a
-- field that no option names is empty, and the number of streams 0.
pub make_context-last_of :
    (os : List Opt)
    → make_context os ≡ record {
      tls_creds = last_of tls_of none os;
      stream_data_cb = last_of data_cb_of none os;
      stream_open_cb = last_of open_cb_of none os;
      stream_close_cb = last_of close_cb_of none os;
      max_streams = last_of streams_of (pos 0) os;
    }
unfolding make_context
make_context-last_of os = handle_all-last_of empty_context os
