-- ===== src/Tls.antt =====
-- src/gnutls_crypto.cpp, include/quic/gnutls_crypto.hpp and include/quic/crypto.hpp: credentials and
-- TLS sessions. What GnuTLS answers and which files exist are arguments.
pub mod Credentials
pub mod Sessions
mod Tests
use oxen_libquic.Base.{
  ℕ, ◌+◌, ◌%◌, Bool, true, false, not, ◌&&◌, ◌||◌, Option, none, some, List, [], ◌∷◌, map, ◌==◌,
  ltb, leb, if◌then◌else◌, length, take, drop,
}
use oxen_libquic.Base.Int.{ℤ, pos}
use oxen_libquic.Base.Calls.{check_each}
use oxen_libquic.Base.Outcome.{Outcome, done, undefined, ◌>>=◌}
use oxen_libquic.Address.{same_bytes}

abbrev pub FilePath : Type 0
FilePath = List ℕ

pub data Format : Type 0 where
  der pem : Format

-- `mem.data`: the buffer of the constructor's parameter does not outlive the constructor.
pub data Pointer : Type 0 where
  null dangling : Pointer

pub record Datum : Type 0 where
  pub path : FilePath
  pub pointer : Pointer
  pub size : ℕ
  pub format : Format
  pub from_mem : Bool

abbrev pub empty_datum : Datum
empty_datum = record { path = []; pointer = null; size = 0; format = der; from_mem = false }

-- From the last `c` on.
abbrev pub from_last : ℕ → List ℕ → Option (List ℕ)
from_last c [] = none
from_last c (x ∷ xs) = elim (from_last c xs) [
  | some s ↦ some s
  | none ↦ if x == c then some (x ∷ xs) else none
]

abbrev pub filename : FilePath → List ℕ
filename p = elim (from_last b'/' p) [ none ↦ p | some s ↦ drop 1 s ]

-- `fs::path::extension`.
abbrev pub extension : FilePath → List ℕ
extension p =
    if same_bytes (filename p) (b'.' ∷ b'.' ∷ [])
    then []
    else elim (from_last b'.' (drop 1 (filename p))) [ none ↦ [] | some s ↦ s ]

abbrev pub tolower : ℕ → ℕ
tolower c = if leb b'A' c && leb c b'Z' then c + 32 else c

unfoldable pub str_tolower : List ℕ → List ℕ
str_tolower s = map tolower s

abbrev pub file_format : FilePath → Format
file_format p =
    if same_bytes (str_tolower (extension p)) (b'.' ∷ b'p' ∷ b'e' ∷ b'm' ∷ []) then pem else der

abbrev pub dashes : List ℕ
dashes = b'-' ∷ b'-' ∷ b'-' ∷ b'-' ∷ b'-' ∷ []

abbrev pub text_format : List ℕ → Format
text_format input = if same_bytes dashes (take 5 input) then pem else der

abbrev pub is_empty : List ℕ → Bool
is_empty [] = true
is_empty (x ∷ xs) = false

-- `datum::operator bool`.
abbrev pub is_set : Datum → Bool
is_set d = not (is_empty d.path) || not (d.size == 0)

-- `datum::operator=`: memcpy to a null pointer or to freed memory is undefined, but for no bytes.
unfoldable pub assign : Datum → Datum → Outcome Datum
assign this other =
    if other.size == 0 then done (record other { pointer = this.pointer }) else undefined

-- The copy constructor.
unfoldable pub copy : Datum → Outcome Datum
copy other = assign empty_datum other

-- The calls of GnuTLS for credentials.
pub data Call : Type 0 where
  allocate : Call
  trust_mem : Datum → Format → Call
  trust_file : FilePath → Format → Call
  key_mem : Datum → Datum → Format → Call
  key_file : FilePath → FilePath → Format → Call

-- GnuTLS reads the bytes of a datum.
abbrev pub is_readable : Datum → Bool
is_readable d = elim d.pointer [ null ↦ true | dangling ↦ d.size == 0 ]

abbrev pub can_run : Call → Bool
can_run (trust_mem d f) = is_readable d
can_run (key_mem c k f) = is_readable c && is_readable k
can_run other = true

-- The calls that a constructor has made, and whether it returns; otherwise it throws.
abbrev pub Construction : Type 0
Construction = List Call × Bool

-- `null_path` is what `path = NULL` does: it makes a std::string of a null pointer, which the standard
-- leaves undefined; libstdc++ throws.
module _ (fails : Call → Bool) (exists : FilePath → Bool) (null_path : Outcome FilePath) where
  -- The constructor of `datum`. The size is cast to `uint8_t`.
  unfoldable pub make_datum : List ℕ → Outcome Datum
  make_datum input =
      if exists input
      then done (record {
        path = input;
        pointer = null;
        size = 0;
        format = file_format input;
        from_mem = false;
      })
      else null_path >>= λ p. done (record {
        path = p;
        pointer = dangling;
        size = length input % 256;
        format = text_format input;
        from_mem = true;
      })

  abbrev pub call : Call → Outcome Construction → Outcome Construction
  call c more =
      if not (can_run c)
      then undefined
      else if fails c
      then done (c ∷ [], false)
      else more >>= λ r. done (c ∷ r.0, r.1)

  unfoldable pub set_trust : Datum → Outcome Construction → Outcome Construction
  set_trust ca more =
      if is_set ca
      then call (if ca.from_mem then trust_mem ca ca.format else trust_file ca.path ca.format) more
      else more

  unfoldable pub set_key : Datum → Datum → Outcome Construction
  set_key lcert lkey =
      call
        (if lcert.from_mem
          then key_mem lcert lkey lkey.format
          else key_file lcert.path lkey.path lkey.format)
        (done ([], true))

  -- `datum rcert; if (not remote_cert.empty()) rcert = datum{remote_cert};`
  unfoldable pub remote_datum : List ℕ → Outcome Datum
  remote_datum remote_cert =
      if is_empty remote_cert
      then done empty_datum
      else make_datum remote_cert >>= λ d. assign empty_datum d

  -- `datum ca; if (not ca_arg.empty()) ca = datum{ca};`
  unfoldable pub ca_datum : List ℕ → Outcome Datum
  ca_datum ca_arg =
      if is_empty ca_arg then done empty_datum else copy empty_datum >>= λ d. assign empty_datum d

  -- The constructor of GNUTLSCreds.
  unfoldable pub make_creds : List ℕ → List ℕ → List ℕ → List ℕ → Outcome Construction
  unfolding make_datum remote_datum ca_datum set_trust set_key
  make_creds local_key local_cert remote_cert ca_arg = make_datum local_key >>= λ lkey.
      make_datum local_cert >>= λ lcert. remote_datum remote_cert >>= λ rcert.
      ca_datum ca_arg >>= λ ca. call allocate (set_trust ca (set_key lcert lkey))

-- The calls for a session, of a client or of a server.
pub data SessionCall : Type 0 where
  gnutls_init configure_session : Bool → SessionCall
  set_default_priority set_ptr set_credentials set_server_name set_hook_function : SessionCall

-- `gnutls_session_set_ptr` and `gnutls_handshake_set_hook_function` give no result.
abbrev pub has_result : SessionCall → Bool
has_result set_ptr = false
has_result set_hook_function = false
has_result other = true

abbrev pub session_calls : Bool → List SessionCall
session_calls is_client =
    gnutls_init is_client
    ∷ set_default_priority
    ∷ configure_session is_client
    ∷ set_ptr
    ∷ set_credentials
    ∷ (if is_client then set_server_name ∷ set_hook_function ∷ [] else set_hook_function ∷ [])

abbrev pub session_fails : (SessionCall → Bool) → SessionCall → Bool
session_fails fails c = has_result c && fails c

-- The constructor of GNUTLSSession: its calls, and whether it returns; otherwise it throws.
unfoldable pub make_session : (SessionCall → Bool) → Bool → List SessionCall × Bool
make_session fails is_client = check_each (session_fails fails) (session_calls is_client)

-- `do_tls_callback`, with what the policies of `creds`, where they are set, return.
unfoldable pub do_tls_callback : Bool → Option ℤ → Option ℤ → ℤ
do_tls_callback is_client client_tls_policy server_tls_policy = elim is_client [
  | true ↦ elim client_tls_policy [ none ↦ pos 0 | some rv ↦ rv ]
  | false ↦ elim server_tls_policy [ none ↦ pos 0 | some rv ↦ rv ]
]
