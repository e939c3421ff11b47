-- ===== src/Log/Program.antt =====
-- A program from `log_init` to `log_cleanup`: what it hands to syslog.
pub mod Default
use libmisc.Base.{ℕ, List, [], ◌∷◌, ◌++◌}
use libmisc.Base.Text.{Text}
use libmisc.Log.{LogAttr, Nvram}
use libmisc.Log.Dispatch.{Output, silent, stderr, telnet, syslog}
use libmisc.Log.Session.{Call, session, started}
use libmisc.Oil.Syslog
use libmisc.Oil.Syslog.{SyslogCall, oil_openlog, oil_closelog}

-- `log_cleanup`
abbrev pub log_cleanup : List SyslogCall
log_cleanup = oil_closelog

-- The call of `syslog` at the end of `log_log`.
abbrev pub syslog_calls : Output → List SyslogCall
syslog_calls silent = []
syslog_calls (stderr t) = []
syslog_calls (telnet t) = []
syslog_calls (syslog level t) = Syslog.syslog level t ∷ []

abbrev pub all_calls : List Output → List SyslogCall
all_calls [] = []
all_calls (o ∷ os) = syslog_calls o ++ all_calls os

-- `log_init`, the calls of `log_log`, and `log_cleanup`.
unfoldable pub program : ℕ → Nvram → Text → LogAttr → List Call → List SyslogCall
unfolding session
program log_daemon nv appname a cs =
    oil_openlog log_daemon ++ (all_calls (session cs (started appname a nv)) ++ log_cleanup)
