-- ===== src/Crash/Dump/Signals.antt =====
-- What the crash handler does to the actions for signals.
use libmisc.Base.{ℕ, ◌≡◌, refl, ap, List, [], ◌∷◌, ◌++◌}
use libmisc.Crash.Signals.{Action, Actions, default_action, set_action}
use libmisc.Crash.Dump.{
  writes, fwrites, closes, fcloses, syncs, runs, defaults_signal, restores_signal, Effects,
}

-- The actions behind some effects; `saved` is the one that `sigaction` has stored.
unfoldable pub actions_after : Effects → Action → Actions → Actions
actions_after [] saved t = t
actions_after (defaults_signal s ∷ es) saved t =
    actions_after es (t s) (set_action s default_action t)
actions_after (restores_signal s ∷ es) saved t = actions_after es saved (set_action s saved t)
actions_after (writes d line ∷ es) saved t = actions_after es saved t
actions_after (fwrites q line ∷ es) saved t = actions_after es saved t
actions_after (closes d ∷ es) saved t = actions_after es saved t
actions_after (fcloses q ∷ es) saved t = actions_after es saved t
actions_after (syncs ∷ es) saved t = actions_after es saved t
actions_after (runs command ∷ es) saved t = actions_after es saved t

-- The actions for a signal while the commands run.
unfoldable pub actions_during : ℕ → Effects → Action → Actions → List Action
actions_during n [] saved t = []
actions_during n (defaults_signal s ∷ es) saved t =
    actions_during n es (t s) (set_action s default_action t)
actions_during n (restores_signal s ∷ es) saved t = actions_during n es saved (set_action s saved t)
actions_during n (writes d line ∷ es) saved t = actions_during n es saved t
actions_during n (fwrites q line ∷ es) saved t = actions_during n es saved t
actions_during n (closes d ∷ es) saved t = actions_during n es saved t
actions_during n (fcloses q ∷ es) saved t = actions_during n es saved t
actions_during n (syncs ∷ es) saved t = actions_during n es saved t
actions_during n (runs command ∷ es) saved t = t n ∷ actions_during n es saved t

-- The effects on signals, and the commands.
unfoldable pub signals : Effects → Effects
signals [] = []
signals (defaults_signal s ∷ es) = defaults_signal s ∷ signals es
signals (restores_signal s ∷ es) = restores_signal s ∷ signals es
signals (runs command ∷ es) = runs command ∷ signals es
signals (writes d line ∷ es) = signals es
signals (fwrites q line ∷ es) = signals es
signals (closes d ∷ es) = signals es
signals (fcloses q ∷ es) = signals es
signals (syncs ∷ es) = signals es

pub actions_after-signals :
    (es : Effects) (saved : Action) (t : Actions)
    → actions_after es saved t ≡ actions_after (signals es) saved t
unfolding actions_after signals
actions_after-signals [] saved t = refl
actions_after-signals (defaults_signal s ∷ es) saved t =
    actions_after-signals es (t s) (set_action s default_action t)
actions_after-signals (restores_signal s ∷ es) saved t =
    actions_after-signals es saved (set_action s saved t)
actions_after-signals (writes d line ∷ es) saved t = actions_after-signals es saved t
actions_after-signals (fwrites q line ∷ es) saved t = actions_after-signals es saved t
actions_after-signals (closes d ∷ es) saved t = actions_after-signals es saved t
actions_after-signals (fcloses q ∷ es) saved t = actions_after-signals es saved t
actions_after-signals (syncs ∷ es) saved t = actions_after-signals es saved t
actions_after-signals (runs command ∷ es) saved t = actions_after-signals es saved t

pub actions_during-signals :
    (n : ℕ) (es : Effects) (saved : Action) (t : Actions)
    → actions_during n es saved t ≡ actions_during n (signals es) saved t
unfolding actions_during signals
actions_during-signals n [] saved t = refl
actions_during-signals n (defaults_signal s ∷ es) saved t =
    actions_during-signals n es (t s) (set_action s default_action t)
actions_during-signals n (restores_signal s ∷ es) saved t =
    actions_during-signals n es saved (set_action s saved t)
actions_during-signals n (writes d line ∷ es) saved t = actions_during-signals n es saved t
actions_during-signals n (fwrites q line ∷ es) saved t = actions_during-signals n es saved t
actions_during-signals n (closes d ∷ es) saved t = actions_during-signals n es saved t
actions_during-signals n (fcloses q ∷ es) saved t = actions_during-signals n es saved t
actions_during-signals n (syncs ∷ es) saved t = actions_during-signals n es saved t
actions_during-signals n (runs command ∷ es) saved t =
    ap (λ l. t n ∷ l) (actions_during-signals n es saved t)

pub signals-append : (es fs : Effects) → signals (es ++ fs) ≡ signals es ++ signals fs
unfolding signals
signals-append [] fs = refl
signals-append (defaults_signal s ∷ es) fs = ap (λ l. defaults_signal s ∷ l) (signals-append es fs)
signals-append (restores_signal s ∷ es) fs = ap (λ l. restores_signal s ∷ l) (signals-append es fs)
signals-append (runs command ∷ es) fs = ap (λ l. runs command ∷ l) (signals-append es fs)
signals-append (writes d line ∷ es) fs = signals-append es fs
signals-append (fwrites q line ∷ es) fs = signals-append es fs
signals-append (closes d ∷ es) fs = signals-append es fs
signals-append (fcloses q ∷ es) fs = signals-append es fs
signals-append (syncs ∷ es) fs = signals-append es fs

-- Effects that leave the signals alone, in front of others.
pub quiet : (es fs : Effects) → signals es ≡ [] → signals (es ++ fs) ≡ signals fs
quiet es fs h = rw (signals-append es fs, h) refl
