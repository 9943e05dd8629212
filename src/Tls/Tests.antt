-- ===== src/Tls/Tests.antt =====
-- A session for which the server name cannot be set.
use oxen_libquic.Base.{Bool, true, false}
use oxen_libquic.Tls.{SessionCall, set_server_name}

abbrev name_fails : SessionCall → Bool
name_fails set_server_name = true
name_fails _ = false
