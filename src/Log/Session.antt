-- ===== src/Log/Session.antt =====
-- A program that logs: `log_init`, and calls of `log_log`, each with the configuration of its moment.
use libmisc.Base.{◌≡◌, refl, ap, ◌∙◌, ℕ, Bool, Option, some, List, [], ◌∷◌, map}
use libmisc.Base.Text.{Text, truncated}
use libmisc.Log.{
  LogAttr, Nvram, update_log_attr, log_init, configured, base_name, max_log_name_length,
}
use libmisc.Log.Line.{Message}
use libmisc.Log.Dispatch.{log_log, Output}

-- A call of `log_log`: the configuration and the time of its moment, and whether the terminal can be
-- opened.
pub record Call : Type 0 where
  pub nvram : Nvram
  pub now : Option (ℕ × ℕ)
  pub opened : Bool
  pub message : Message

-- The call of `log_log` with the attributes.
abbrev pub call : Call → Option LogAttr → Option LogAttr × Output
call c a = log_log c.nvram c.now c.opened c.message a

-- What some calls write, from the attributes before the first.
unfoldable pub session : List Call → Option LogAttr → List Output
session [] a = []
session (c ∷ cs) a = (call c a).1 ∷ session cs (call c a).0

-- A program of the name that has just started.
abbrev pub started : Text → LogAttr → Nvram → Option LogAttr
started appname a nv = some (log_init nv appname a)

update_log_attr-name :
    (nv : Nvram) (a b : LogAttr)
    → a.log_application_name ≡ b.log_application_name
    → update_log_attr nv a ≡ update_log_attr nv b
unfolding update_log_attr configured
update_log_attr-name nv a b same =
    ap (λ name. configured nv name (record a { log_application_name = name })) same

-- Only the name counts of the attributes before a call.
call-name :
    (c : Call) (a b : LogAttr)
    → a.log_application_name ≡ b.log_application_name
    → (call c (some a)).1 ≡ (call c (some b)).1
unfolding log_log
call-name c a b same = rw (log_log, update_log_attr-name c.nvram a b same) refl

session-name :
    (cs : List Call) (appname : Text) (start a : LogAttr)
    → a.log_application_name ≡ truncated max_log_name_length (base_name appname appname)
    → session cs (some a) ≡ map (λ c. (call c (started appname start c.nvram)).1) cs
unfolding session log_log log_init update_log_attr configured
session-name [] appname start a same = refl
session-name (c ∷ cs) appname start a same =
    ap (λ o. o ∷ session cs (call c (some a)).0)
      (call-name c a (log_init c.nvram appname start) same)
    ∙ ap (λ os. (call c (started appname start c.nvram)).1 ∷ os)
        (session-name cs appname start (update_log_attr c.nvram a) same)

-- What the messages of a program come to does not depend on the calls before, nor on the configuration
-- at its start: each is written as if the program had just started with the configuration of its
-- moment.
pub session-log_init :
    (nv : Nvram) (appname : Text) (a : LogAttr) (cs : List Call)
    → session cs (started appname a nv) ≡ map (λ c. (call c (started appname a c.nvram)).1) cs
unfolding log_init configured
session-log_init nv appname a cs = session-name cs appname a (log_init nv appname a) refl
