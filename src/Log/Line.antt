-- ===== src/Log/Line.antt =====
-- The line that `log_log` puts together in a buffer of 512 bytes.
pub mod Layout
use libmisc.Base.{
  ℕ, zero, suc, ◌+◌, ◌-◌, ◌*◌, ◌/◌, ◌%◌, ◌^◌, ◌≤◌, ◌<◌, ◌≡◌, refl, sym, ap, ◌∙◌, inl, inr, ◌⊎◌, ◌↔◌,
  Bool, true, false, ◌&&◌, ◌||◌, Option, none, some, List, [], ◌∷◌, ◌++◌, ◌==◌, ltb, leb,
  if◌then◌else◌, Bool-cases, Option-cases, length, length-append, take, All, arith, not,
}
use libmisc.Base.Text.{Text, codes, text_eq, truncated, decimal, decimal_03, atoi, to_u32}
use libmisc.Base.Text.Take.{take-append, take_all, take-take, take-append_full, take-append_take}
use libmisc.Log.{
  LogAttr, log_level_err, log_level_notice, log_level_info, log_level_debug, log_dest_stderr,
  log_dest_telnet, max_log_line_length, shows_appname, shows_level, shows_timestamp, shows_location,
  Nvram, update_log_attr, max_log_name_length, default_log_level, default_log_destination,
  default_log_header_mask, log_init, configured, attr_key, get_app_log_attr, base_name, value_or,
  level_pendix, dest_pendix, mask_pendix, get_cfg_value, is_null_str, oil_max_str_len,
}

-- The buffer of `log_log`: its text, and the `len` that the calls of `snprintf` add up.
pub record LineBuf : Type 0 where
  pub text : Text
  pub len : ℕ

-- `len += snprintf(&(buf[len]), maxLen - len, …)` of a text, where `len` is below `maxLen`.
unfoldable pub append_piece : Text → LineBuf → LineBuf
append_piece s b = record {
  text = take b.len b.text ++ truncated (max_log_line_length - b.len) s;
  len = b.len + length s;
}

-- The condition in front of each piece but the first.
unfoldable pub append_if : Bool → Text → LineBuf → LineBuf
append_if shown s b = if shown && ltb b.len max_log_line_length then append_piece s b else b

-- The `switch` over the levels.
unfoldable pub log_level_str : ℕ → Text
log_level_str level =
    if level == log_level_err
    then codes "error"
    else if level == log_level_notice
    then codes "notice"
    else if level == log_level_info
    then codes "info"
    else if level == log_level_debug
    then codes "debug"
    else codes "invalid"

-- `oilTimeStamp_t`
pub record OilTimeStamp : Type 0 where
  pub sec : ℕ
  pub nsec : ℕ

-- `oil_tmsGet`, from what `gettimeofday` returns: seconds and microseconds, or a failure.
unfoldable pub tms_get : Option (ℕ × ℕ) → OilTimeStamp
tms_get none = record { sec = 0; nsec = 0 }
tms_get (some (s, us)) = record { sec = s % 2 ^ 32; nsec = us * 1000 }

-- The arguments of a call of `log_log`; `message` is the text that the format and its arguments
-- give.
pub record Message : Type 0 where
  pub level : ℕ
  pub func : Text
  pub line : ℕ
  pub message : Text

-- `"%u.%03u:"` of the time stamp.
unfoldable pub timestamp_str : OilTimeStamp → Text
timestamp_str ts = decimal (ts.sec % 1000) ++ b'.' ∷ decimal_03 (ts.nsec / 1_000_000) ++ codes ":"

-- `"%s.%u:"` of the function and the line.
unfoldable pub location_str : Message → Text
location_str m = m.func ++ b'.' ∷ decimal m.line ++ codes ":"

-- The line that `log_log` writes.
unfoldable pub log_line : LogAttr → Option (ℕ × ℕ) → Message → Text
log_line a now m =
    let start : LineBuf = record { text = []; len = 0 } in
    let named =
      append_if (shows_appname a.log_header_mask) (a.log_application_name ++ codes ":") start in
    let levelled =
      append_if (shows_level a.log_header_mask && a.log_destination == log_dest_stderr)
        (log_level_str m.level ++ codes ":") named in
    let timed =
      append_if (shows_timestamp a.log_header_mask) (timestamp_str (tms_get now)) levelled in
    let located = append_if (shows_location a.log_header_mask) (location_str m) timed in
    (append_if true m.message located).text
