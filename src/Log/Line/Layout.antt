-- ===== src/Log/Line/Layout.antt =====
-- The line is its parts in order, cut off behind 511 bytes.
use mathlib.Core.List.{append-nil}
use libmisc.Base.{
  ℕ, ◌-◌, ◌≤◌, ◌<◌, ◌≡◌, refl, sym, ap, ◌∙◌, inl, inr, ◌⊎◌, Bool, true, false, ◌&&◌, Option, [],
  ◌++◌, ◌==◌, ltb, ltb→lt, ltb→ge, if◌then◌else◌, Bool-cases, length, length-append, take, arith,
}
use libmisc.Base.Text.{Text, codes, truncated}
use libmisc.Base.Text.Take.{take-append, take_all, take-append_full}
use libmisc.Log.{
  LogAttr, log_dest_stderr, max_log_line_length, shows_appname, shows_level, shows_timestamp,
  shows_location,
}
use libmisc.Log.Line.{
  LineBuf, append_piece, append_if, log_level_str, tms_get, Message, timestamp_str, location_str,
  log_line,
}

abbrev room : ℕ
room = max_log_line_length - 1

-- The buffer holds the text `full`, cut off to its size.
record Holds (full : Text) (b : LineBuf) : Type 0 where
  text : b.text ≡ take room full
  len : b.len ≡ length full ⊎ (max_log_line_length ≤ b.len) × (max_log_line_length ≤ length full)

-- The text of a piece behind a text that fits.
piece_text :
    (full s t : Text) (l : ℕ)
    → t ≡ take room full
    → l ≡ length full
    → l < max_log_line_length
    → take l t ++ take (max_log_line_length - l - 1) s ≡ take room (full ++ s)
piece_text full s t l held measured fits =
    let whole = take_all room full (omega arith) in
    rw (held, whole, take_all l full (omega arith), take-append room full s, whole)
      (ap (λ n. full ++ take n s) (omega arith))

append_piece-Holds :
    (full s : Text) (b : LineBuf)
    → Holds full b
    → b.len < max_log_line_length
    → Holds (full ++ s) (append_piece s b)
unfolding append_piece truncated
append_piece-Holds full s b h fits = elim h.len [
  | inl measured ↦ record {
    text = piece_text full s b.text b.len h.text measured fits;
    len = inl (omega (arith, measured, length-append full s));
  }
  | inr over ↦ absurd (omega (arith, over))
]

-- Behind a full buffer, what is left out would be cut off anyway.
beyond-Holds :
    (full s : Text) (b : LineBuf) → Holds full b → max_log_line_length ≤ b.len → Holds (full ++ s) b
beyond-Holds full s b h over =
    let long : max_log_line_length ≤ length full = elim h.len [
      | inl measured ↦ omega (arith, measured)
      | inr both ↦ both.1
    ] in
    record {
      text = h.text ∙ sym (take-append_full room full s (omega arith));
      len = inr (over, omega (arith, length-append full s));
    }

-- A piece that is not shown, or does not fit any more, adds nothing that is seen.
append_if-Holds :
    (shown : Bool) (s full : Text) (b : LineBuf)
    → Holds full b
    → Holds (full ++ (if shown then s else [])) (append_if shown s b)
unfolding append_if
append_if-Holds false s full b h = rw (append-nil full) h
append_if-Holds true s full b h = elim (Bool-cases (ltb b.len max_log_line_length)) [
  | inl fits ↦ rw fits (append_piece-Holds full s b h (ltb→lt b.len max_log_line_length fits))
  | inr past ↦ rw past (beyond-Holds full s b h (ltb→ge b.len max_log_line_length past))
]

-- The parts of a line before its message, as the attributes ask for them.
unfoldable pub header : LogAttr → Option (ℕ × ℕ) → Message → Text
header a now m =
    (if shows_appname a.log_header_mask then a.log_application_name ++ codes ":" else [])
    ++ (if shows_level a.log_header_mask && a.log_destination == log_dest_stderr
        then log_level_str m.level ++ codes ":"
        else [])
    ++ (if shows_timestamp a.log_header_mask then timestamp_str (tms_get now) else [])
    ++ (if shows_location a.log_header_mask then location_str m else [])

-- A line is the header and the message, cut off behind 511 bytes, however long they are.
pub log_line-header :
    (a : LogAttr) (now : Option (ℕ × ℕ)) (m : Message)
    → log_line a now m ≡ take room (header a now m ++ m.message)
unfolding log_line header
log_line-header a now m =
    let h₁ =
      append_if-Holds (shows_appname a.log_header_mask) (a.log_application_name ++ codes ":") [] _
        (record { text = refl; len = inl refl }) in
    let h₂ =
      append_if-Holds (shows_level a.log_header_mask && a.log_destination == log_dest_stderr)
        (log_level_str m.level ++ codes ":") _ _ h₁ in
    let h₃ =
      append_if-Holds (shows_timestamp a.log_header_mask) (timestamp_str (tms_get now)) _ _ h₂ in
    let h₄ = append_if-Holds (shows_location a.log_header_mask) (location_str m) _ _ h₃ in
    (append_if-Holds true m.message _ _ h₄).text
