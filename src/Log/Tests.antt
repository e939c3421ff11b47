-- ===== src/Log/Tests.antt =====
-- Runs of the log on small inputs, and the theorems at concrete inputs.
use libmisc.Base.{
  ap, length, ◌<◌, ◌≡◌, refl, ◌↔◌, ◌⊎◌, false, none, some, List, [], ◌∷◌, ◌++◌, ◌≢◌, map, take,
  arith,
}
use libmisc.Base.Text.{Text, codes}
use libmisc.Log.{
  LogAttr, Nvram, log_init, update_log_attr, base_name, get_app_log_attr, level_pendix, dest_pendix,
  mask_pendix, log_dest_telnet,
}
use libmisc.Log.Line.{Message, log_line}
use libmisc.Log.Line.Layout.{header, log_line-header}
use libmisc.Log.Slots.{init_log_entity, init_log_entity-Outcome, Outcome, find_unused, get_elem?}
use libmisc.Log.Reuse.{init_log_entity_long}
use libmisc.Base.Text.{decimal}
use libmisc.Log.Session.{Call, call, session, started, session-log_init}
use libmisc.Log.Separate.{init_log_entity_apart}
use libmisc.Log.Program.{program}
use libmisc.Log.Program.Default.{plain, default_calls, program-default_calls}
use libmisc.Oil.Syslog.{openlog, closelog}

abbrev blank : LogAttr
blank = record {
  log_application_name = [];
  log_level = 0;
  log_destination = 0;
  log_header_mask = 0;
}

abbrev on_stderr : LogAttr
on_stderr = record {
  log_application_name = codes "upnpd";
  log_level = 7;
  log_destination = 1;
  log_header_mask = 15;
}

abbrev on_telnet : LogAttr
on_telnet = record {
  log_application_name = codes "dhcpd";
  log_level = 7;
  log_destination = 3;
  log_header_mask = 1;
}

abbrev hello : Message
hello = record { level = 3; func = codes "main"; line = 42; message = codes "hello" }

-- An NVRAM that holds the level 7 under every name.
abbrev all_seven : Nvram
all_seven = some (λ name. some (codes "7"))

abbrev long_name : Text
long_name = codes "connection_tracker"

abbrev two_slots : List LogAttr
two_slots = on_stderr ∷ blank ∷ []

-- With all parts of the header.
full_line : log_line on_stderr (some (1_002, 5_000)) hello ≡ codes "upnpd:error:2.005:main.42:hello"
unfolding log_line libmisc.Log.Line.append_if libmisc.Log.Line.append_piece
    libmisc.Log.Line.log_level_str libmisc.Log.Line.timestamp_str libmisc.Base.Text.decimal
    libmisc.Log.Line.tms_get libmisc.Base.Text.decimal_03 libmisc.Log.Line.location_str
    libmisc.Base.Text.truncated
full_line = refl

path_name : (log_init none (codes "/usr/sbin/upnpd") blank).log_application_name ≡ codes "upnpd"
unfolding log_init libmisc.Base.Text.truncated
path_name = refl

log_line-header_example :
    log_line on_stderr none hello ≡ take 511 (header on_stderr none hello ++ codes "hello")
log_line-header_example = log_line-header on_stderr none hello

init_log_entity-Outcome_example :
    Outcome (codes "dhcpd") two_slots (init_log_entity (codes "dhcpd") two_slots)
init_log_entity-Outcome_example = init_log_entity-Outcome (codes "dhcpd") two_slots

init_log_entity_long_example : (init_log_entity long_name two_slots).0 ≡ find_unused two_slots
init_log_entity_long_example =
    init_log_entity_long long_name two_slots (omega arith) (omega arith, (omega arith, tt))

abbrev loud : Call
loud = record { nvram = all_seven; now = none; opened = false; message = hello }

abbrev quiet : Call
quiet = record { nvram = none; now = none; opened = false; message = hello }

found_first : (init_log_entity (codes "upnpd") two_slots).0 ≡ some 0
unfolding init_log_entity libmisc.Base.Text.text_eq
found_first = refl

session-log_init_example :
    session (loud ∷ quiet ∷ []) (started (codes "/sbin/a") blank none)
    ≡ map (λ c. (call c (started (codes "/sbin/a") blank c.nvram)).1) (loud ∷ quiet ∷ [])
session-log_init_example = session-log_init none (codes "/sbin/a") blank (loud ∷ quiet ∷ [])

init_log_entity_apart_example :
    let left = (init_log_entity (codes "upnpd") two_slots).1 in
    ((init_log_entity (codes "ntp") left).0 ≢ some 0)
    × (get_elem? (init_log_entity (codes "ntp") left).1 0 ≡ get_elem? left 0)
init_log_entity_apart_example =
    init_log_entity_apart (codes "upnpd") (codes "ntp") two_slots 0 (omega arith)
      (λ h. omega (arith, ap length h)) (λ h. omega (arith, ap length h)) found_first

program-default_calls_example :
    program 24 none (codes "/sbin/a") blank (map plain (loud ∷ quiet ∷ []))
    ≡ openlog none 0 24 ∷ (default_calls (codes "/sbin/a") (loud ∷ quiet ∷ []) ++ closelog ∷ [])
program-default_calls_example = program-default_calls 24 (codes "/sbin/a") blank (loud ∷ quiet ∷ [])
