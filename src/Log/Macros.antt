-- ===== src/Log/Macros.antt =====
-- The macros of src/log.rs, for the formatted text: each has its level.
use mini_db.Bytes.{Bytes}
use mini_db.Log.{Level, Console, log}

unfoldable pub trace : Bytes → Bytes → Console → Console
trace now msg = log now Level.trace msg

unfoldable pub debug : Bytes → Bytes → Console → Console
debug now msg = log now Level.debug msg

unfoldable pub info : Bytes → Bytes → Console → Console
info now msg = log now Level.info msg

unfoldable pub warn : Bytes → Bytes → Console → Console
warn now msg = log now Level.warn msg

unfoldable pub error : Bytes → Bytes → Console → Console
error now msg = log now Level.error msg
