-- ===== src/IoResult.antt =====
-- include/quic/utils.hpp: `struct io_result`, on a POSIX system. The error numbers are those of
-- Linux, where EWOULDBLOCK is EAGAIN.
use oxen_libquic.Base.{Bool, true, false, not, if◌then◌else◌}
use oxen_libquic.Base.Int.{ℤ, pos, negsuc, ◌==ℤ◌}

pub record IoResult : Type 0 where
  pub error_code : ℤ
  pub is_ngtcp2 : Bool

abbrev pub eagain : ℤ
eagain = pos 11

abbrev pub ebadf : ℤ
ebadf = pos 9

-- NGTCP2_ERR_STREAM_DATA_BLOCKED is -210.
abbrev pub stream_data_blocked : ℤ
stream_data_blocked = negsuc 209

-- The constructor from an `errno` value, and `io_result::ngtcp2`.
abbrev pub from_errno : ℤ → IoResult
from_errno e = record { error_code = e; is_ngtcp2 = false }

abbrev pub from_ngtcp2 : ℤ → IoResult
from_ngtcp2 e = record { error_code = e; is_ngtcp2 = true }

abbrev pub good : IoResult
good = from_errno (pos 0)

abbrev pub success : IoResult → Bool
success r = r.error_code ==ℤ pos 0

abbrev pub failure : IoResult → Bool
failure r = not (success r)

abbrev pub blocked : IoResult → Bool
blocked r = if r.is_ngtcp2 then r.error_code ==ℤ stream_data_blocked else r.error_code ==ℤ eagain
