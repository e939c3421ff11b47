-- ===== src/Log/Program/Default.antt =====
-- What a program logs that is not configured.
use mathlib.Core.List.{append-nil}
use libmisc.Base.{
  ℕ, ◌≡◌, refl, ap, ◌∙◌, inl, inr, Option, none, List, [], ◌∷◌, ◌++◌, leb, if◌then◌else◌, map, take,
  Bool-cases,
}
use libmisc.Base.Text.{Text, codes, truncated}
use libmisc.Log.{
  LogAttr, base_name, max_log_name_length, default_log_level, log_init, update_log_attr, configured,
  get_app_log_attr,
}
use libmisc.Log.Line.{Message, log_line}
use libmisc.Log.Line.Layout.{header, log_line-header}
use libmisc.Log.Dispatch.{log_log, emit}
use libmisc.Log.Session.{Call, call, started, session-log_init}
use libmisc.Log.Program.{program, all_calls, syslog_calls}
use libmisc.Oil.Syslog.{SyslogCall, openlog, closelog, syslog}

-- A call in a process without a configuration.
abbrev pub plain : Call → Call
plain c = record c { nvram = none }

-- The name of the application and the message, cut off behind 511 bytes.
abbrev pub default_line : Text → Message → Text
default_line appname m =
    take 511 ((truncated max_log_name_length (base_name appname appname) ++ codes ":") ++ m.message)

unfoldable pub default_calls : Text → List Call → List SyslogCall
default_calls appname [] = []
default_calls appname (c ∷ cs) =
    (if leb c.message.level default_log_level
      then syslog c.message.level (default_line appname c.message) ∷ []
      else [])
    ++ default_calls appname cs

default_header :
    (appname : Text) (a : LogAttr) (now : Option (ℕ × ℕ)) (m : Message)
    → header (log_init none appname a) now m
      ≡ truncated max_log_name_length (base_name appname appname) ++ codes ":"
unfolding log_init configured get_app_log_attr header
default_header appname a now m =
    let name = truncated max_log_name_length (base_name appname appname) ++ codes ":" in
    append-nil ((name ++ []) ++ []) ∙ append-nil (name ++ []) ∙ append-nil name

default_log_line :
    (appname : Text) (a : LogAttr) (now : Option (ℕ × ℕ)) (m : Message)
    → log_line (log_init none appname a) now m ≡ default_line appname m
default_log_line appname a now m =
    log_line-header (log_init none appname a) now m
    ∙ ap (λ t. take 511 (t ++ m.message)) (default_header appname a now m)

default_call :
    (appname : Text) (a : LogAttr) (c : Call)
    → syslog_calls (call (plain c) (started appname a none)).1 ≡ (
        if leb c.message.level default_log_level
        then syslog c.message.level (default_line appname c.message) ∷ []
        else [])
unfolding log_log update_log_attr log_init configured get_app_log_attr emit
default_call appname a c = elim (Bool-cases (leb c.message.level default_log_level)) [
  | inl shown ↦
      rw (log_log, shown)
        (ap (λ t. syslog c.message.level t ∷ []) (default_log_line appname a c.now c.message))
  | inr hidden ↦ rw (log_log, hidden) refl
]

calls_of :
    (appname : Text) (a : LogAttr) (cs : List Call)
    → all_calls (map (λ c. (call c (started appname a c.nvram)).1) (map plain cs))
      ≡ default_calls appname cs
unfolding default_calls
calls_of appname a [] = refl
calls_of appname a (c ∷ cs) = rw (default_call appname a c, calls_of appname a cs) refl

-- In the build without CONFIG_SCM_SUPPORT, whose `oil_getCfgValue` returns NULL, a program opens the
-- connection to syslog, the default destination of the code, hands it exactly its messages of the levels
-- up to LOG_LEVEL_ERR in their order, each behind the name of the program and cut off behind 511 bytes,
-- and closes the connection.
pub program-default_calls :
    (log_daemon : ℕ) (appname : Text) (a : LogAttr) (cs : List Call)
    → program log_daemon none appname a (map plain cs)
      ≡ openlog none 0 log_daemon ∷ (default_calls appname cs ++ closelog ∷ [])
unfolding program
program-default_calls log_daemon appname a cs =
    ap (λ l. openlog none 0 log_daemon ∷ (l ++ closelog ∷ []))
      (ap all_calls (session-log_init none appname a (map plain cs)) ∙ calls_of appname a cs)
