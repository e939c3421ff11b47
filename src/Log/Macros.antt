-- ===== src/Log/Macros.antt =====
-- The macros of libmisc.h over `log_log`, and the default level.
use libmisc.Base.{ℕ, ◌≡◌, refl, Bool, Option, none, some}
use libmisc.Base.Text.{Text}
use libmisc.Log.{
  LogAttr, log_level_err, log_level_notice, log_level_info, log_level_debug, update_log_attr,
  configured, get_app_log_attr,
}
use libmisc.Log.Line.{Message}
use libmisc.Log.Dispatch.{log_log, Output, silent, stderr, telnet, syslog, emit}

abbrev pub log_level_crit : ℕ
log_level_crit = 2

abbrev pub log_level_warning : ℕ
log_level_warning = 4

-- `log_log(level, __FUNCTION__, __LINE__, args)`
abbrev pub message_at : ℕ → Text → ℕ → Text → Message
message_at level func line text = record { level = level; func = func; line = line; message = text }

abbrev pub log_crit : Text → ℕ → Text → Message
log_crit = message_at log_level_crit

abbrev pub log_error : Text → ℕ → Text → Message
log_error = message_at log_level_err

abbrev pub log_warning : Text → ℕ → Text → Message
log_warning = message_at log_level_warning

abbrev pub log_notice : Text → ℕ → Text → Message
log_notice = message_at log_level_notice

abbrev pub log_info : Text → ℕ → Text → Message
log_info = message_at log_level_info

abbrev pub log_debug : Text → ℕ → Text → Message
log_debug = message_at log_level_debug

-- A line for syslog.
abbrev pub IsSyslog : Output → Type 0
IsSyslog silent = ⊥
IsSyslog (stderr t) = ⊥
IsSyslog (telnet t) = ⊥
IsSyslog (syslog level t) = Unit

-- Without a configuration, `misc_logCrit` and `misc_logError` reach syslog, and the other four macros
-- write nothing.
pub log_log_default :
    (now : Option (ℕ × ℕ)) (opened : Bool) (func : Text) (line : ℕ) (text : Text) (a : LogAttr)
    → (IsSyslog (log_log none now opened (log_crit func line text) (some a)).1)
      × (IsSyslog (log_log none now opened (log_error func line text) (some a)).1)
      × ((log_log none now opened (log_warning func line text) (some a)).1 ≡ silent)
      × ((log_log none now opened (log_notice func line text) (some a)).1 ≡ silent)
      × ((log_log none now opened (log_info func line text) (some a)).1 ≡ silent)
      × ((log_log none now opened (log_debug func line text) (some a)).1 ≡ silent)
unfolding log_log update_log_attr configured get_app_log_attr emit
log_log_default now opened func line text a = (tt, tt, refl, refl, refl, refl)
