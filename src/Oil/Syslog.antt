-- ===== src/Oil/Syslog.antt =====
-- The calls that misc_oil.c makes to syslog.
use libmisc.Base.{ℕ, Option, none, List, [], ◌∷◌}
use libmisc.Base.Text.{Text}

pub data SyslogCall : Type 0 where
  openlog : Option Text → ℕ → ℕ → SyslogCall
  syslog : ℕ → Text → SyslogCall
  closelog : SyslogCall

-- `oil_openlog`, with the value of LOG_DAEMON.
abbrev pub oil_openlog : ℕ → List SyslogCall
oil_openlog log_daemon = openlog none 0 log_daemon ∷ []

-- `oil_syslog`
abbrev pub oil_syslog : ℕ → Text → List SyslogCall
oil_syslog level buf = syslog level buf ∷ []

-- `oil_closelog`
abbrev pub oil_closelog : List SyslogCall
oil_closelog = closelog ∷ []
