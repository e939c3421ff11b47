-- ===== src/Crash/Dump/Shown.antt =====
-- What a destination of the dump is given.
use libmisc.Base.{
  ℕ, ◌-◌, ◌≡◌, refl, inl, inr, Bool, false, Option, none, some, List, [], ◌∷◌, ◌++◌, ◌==◌, ltb,
  if◌then◌else◌, length, Bool-cases,
}
use libmisc.Base.Int.{ℤ, eqb_ℤ}
use libmisc.Base.Text.{Text, codes}
use libmisc.Crash.Output.{max_line_len}
use libmisc.Crash.Dump.{
  writes, fwrites, closes, fcloses, syncs, runs, defaults_signal, restores_signal, Effects, Outputs,
  to_file, to_filep, to_fd, print_line, Input, line_feed,
}
use libmisc.Crash.Dump.Report.{
  Report, Sources, report_lines, print_lines, proc_file, frame_lines, thick_rule, title, star,
}

-- Where lines go: to a file pointer, or to a descriptor.
pub data Sink : Type 0 where
  stream : ℕ → Sink
  descriptor : ℤ → Sink

abbrev pub is_stream : Sink → ℕ → Bool
is_stream (stream p) q = q == p
is_stream (descriptor d) q = false

abbrev pub is_descriptor : Sink → ℤ → Bool
is_descriptor (stream p) d = false
is_descriptor (descriptor e) d = eqb_ℤ d e

-- The texts that it is given, in their order.
unfoldable pub received : Sink → Effects → List Text
received k [] = []
received k (fwrites q line ∷ es) = if is_stream k q then line ∷ received k es else received k es
received k (writes d line ∷ es) = if is_descriptor k d then line ∷ received k es else received k es
received k (closes d ∷ es) = received k es
received k (fcloses q ∷ es) = received k es
received k (syncs ∷ es) = received k es
received k (runs command ∷ es) = received k es
received k (defaults_signal s ∷ es) = received k es
received k (restores_signal s ∷ es) = received k es

-- The lines that fit the line buffer.
unfoldable pub short : List Text → List Text
short [] = []
short (line ∷ lines) =
    if ltb (length line) (max_line_len - 1) then line ∷ short lines else short lines

-- The lines of the buffers that `fgets` gives.
abbrev pub formatted : Option Text → List Text
formatted none = []
formatted (some line) = line ∷ []

unfoldable pub expanded : (Text → Option Text) → List Text → List Text
expanded expand [] = []
expanded expand (buf ∷ bufs) = formatted (expand buf) ++ expanded expand bufs

abbrev pub file_headline : Text → Text
file_headline file = codes "mCrash dumping file: " ++ (file ++ line_feed)

abbrev pub command_headline : Text → Text
command_headline command = codes "mCrash dumping command: " ++ (command ++ line_feed)

-- The lines of a file or a command: a headline, and its text if it can be opened.
unfoldable pub section : (Text → Option Text) → Text → Input → List Text
unfolding expanded
section expand headline input =
    headline ∷ elim input [ none ↦ [] | some bufs ↦ expanded expand bufs ++ line_feed ∷ [] ]

-- All the lines of a dump, whatever the destinations are.
unfoldable pub dump_lines :
    (Text → Option Text) → (ℕ → Text) → Report → Sources → List ℕ → List Text
unfolding section
dump_lines expand show_ptr r src entries =
    report_lines r
    ++ (section expand (command_headline (codes "ps")) src.ps
        ++ (section expand (file_headline (codes "/proc/meminfo")) src.meminfo
            ++ (section expand (file_headline (proc_file r.pid (codes "/stat"))) src.stat
                ++ (section expand (file_headline (proc_file r.pid (codes "/maps"))) src.maps_file
                    ++ ((thick_rule ∷ title ∷ thick_rule ∷ star ∷ [])
                        ++ (frame_lines show_ptr 0 entries
                            ++ (star ∷ thick_rule ∷ title ∷ thick_rule ∷ [])))))))

pub received-append :
    (k : Sink) (es fs : Effects) → received k (es ++ fs) ≡ received k es ++ received k fs
unfolding received
received-append k [] fs = refl
received-append k (fwrites q line ∷ es) fs = elim (Bool-cases (is_stream k q)) [
  | inl here ↦ rw (here, received-append k es fs) refl
  | inr other ↦ rw (other, received-append k es fs) refl
]
received-append k (writes d line ∷ es) fs = elim (Bool-cases (is_descriptor k d)) [
  | inl here ↦ rw (here, received-append k es fs) refl
  | inr other ↦ rw (other, received-append k es fs) refl
]
received-append k (closes d ∷ es) fs = received-append k es fs
received-append k (fcloses q ∷ es) fs = received-append k es fs
received-append k (syncs ∷ es) fs = received-append k es fs
received-append k (runs command ∷ es) fs = received-append k es fs
received-append k (defaults_signal s ∷ es) fs = received-append k es fs
received-append k (restores_signal s ∷ es) fs = received-append k es fs

pub short-append : (ls ms : List Text) → short (ls ++ ms) ≡ short ls ++ short ms
unfolding short
short-append [] ms = refl
short-append (l ∷ ls) ms = elim (Bool-cases (ltb (length l) (max_line_len - 1))) [
  | inl fits ↦ rw (fits, short-append ls ms) refl
  | inr long ↦ rw (long, short-append ls ms) refl
]

-- A sink is given the short ones of some lines.
abbrev pub Gives : Sink → Effects → List Text → Type 0
Gives k es lines = received k es ≡ short lines

pub Gives-append :
    (k : Sink) (es fs : Effects) (ls ms : List Text)
    → Gives k es ls
    → Gives k fs ms
    → Gives k (es ++ fs) (ls ++ ms)
Gives-append k es fs ls ms h g = rw (received-append k es fs, short-append ls ms, h, g) refl

-- A short line comes through to the sink, once.
abbrev pub Delivers : Sink → Outputs → Type 0
Delivers k o =
    (line : Text) → received k (to_file o line ++ (to_filep o line ++ to_fd o line)) ≡ line ∷ []

module _ (k : Sink) (o : Outputs) (delivers : Delivers k o) where
  pub print_line-Gives : (line : Text) → Gives k (print_line o line) (line ∷ [])
  unfolding print_line short
  print_line-Gives line = elim (Bool-cases (ltb (length line) (max_line_len - 1))) [
    | inl fits ↦ rw (print_line, fits) (delivers line)
    | inr long ↦ rw (print_line, long) received_nil
  ]
    where
      received_nil : received k [] ≡ []
      received_nil = unfold received in refl

  pub print_lines-Gives : (lines : List Text) → Gives k (print_lines o lines) lines
  unfolding print_lines short received
  print_lines-Gives [] = refl
  print_lines-Gives (line ∷ lines) =
      Gives-append k (print_line o line) (print_lines o lines) (line ∷ []) lines
        (print_line-Gives line) (print_lines-Gives lines)
