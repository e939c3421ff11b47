-- ===== src/Log/Dispatch.antt =====
-- Which messages `log_log` writes, and where.
use libmisc.Base.{ℕ, Bool, Option, none, some, ◌++◌, ◌==◌, leb, if◌then◌else◌}
use libmisc.Base.Text.{Text, codes}
use libmisc.Log.{LogAttr, log_dest_stderr, log_dest_telnet, Nvram, update_log_attr}
use libmisc.Log.Line.{Message, log_line}

-- Where a line goes: to stderr, to the telnet terminal, or to syslog as its format.
pub data Output : Type 0 where
  silent : Output
  stderr telnet : Text → Output
  syslog : ℕ → Text → Output

-- The end of `log_log`; `opened` says whether the terminal could be opened.
unfoldable pub emit : Bool → ℕ → ℕ → Text → Output
emit opened destination level buf =
    if destination == log_dest_stderr
    then stderr (buf ++ codes "\n")
    else if destination == log_dest_telnet
    then (if opened then telnet (buf ++ codes "\n") else silent)
    else syslog level buf

-- `log_log`; without attributes it returns at once.
unfoldable pub log_log :
    Nvram → Option (ℕ × ℕ) → Bool → Message → Option LogAttr → Option LogAttr × Output
log_log nv now opened m none = (none, silent)
log_log nv now opened m (some a) =
    let a' = update_log_attr nv a in
    (
      some a',
      if leb m.level a'.log_level
          then emit opened a'.log_destination m.level (log_line a' now m)
          else silent,
    )
