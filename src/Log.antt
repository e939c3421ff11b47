-- ===== src/Log.antt =====
-- misc_log.c with the configuration lookup of misc_oil.c. The log attributes are the one object that
-- `logAttribute` points to, or one of an array of slots (Log/Slots). Enumerations and masks are `unsigned int` values below 2 ^ 32.
pub mod Line
pub mod Config
pub mod Slots
pub mod Reuse
pub mod Macros
pub mod Session
pub mod Program
pub mod Separate
pub mod Dispatch
mod Tests
use libmisc.Base.{
  ℕ, zero, suc, ◌+◌, ◌-◌, ◌*◌, ◌/◌, ◌%◌, ◌^◌, Bool, true, false, ◌&&◌, ◌||◌, Option, none, some,
  List, [], ◌∷◌, ◌++◌, ◌==◌, ltb, leb, if◌then◌else◌, length, take,
}
use libmisc.Base.Text.{Text, codes, text_eq, truncated, decimal, decimal_03, atoi, to_u32}

pub record LogAttr : Type 0 where
  pub log_application_name : Text
  pub log_level : ℕ
  pub log_destination : ℕ
  pub log_header_mask : ℕ

abbrev pub log_level_err : ℕ
log_level_err = 3

abbrev pub log_level_notice : ℕ
log_level_notice = 5

abbrev pub log_level_info : ℕ
log_level_info = 6

abbrev pub log_level_debug : ℕ
log_level_debug = 7

abbrev pub log_dest_stderr : ℕ
log_dest_stderr = 1

abbrev pub log_dest_syslog : ℕ
log_dest_syslog = 2

abbrev pub log_dest_telnet : ℕ
log_dest_telnet = 3

abbrev pub default_log_level : ℕ
default_log_level = log_level_err

abbrev pub default_log_destination : ℕ
default_log_destination = log_dest_syslog

abbrev pub default_log_header_mask : ℕ
default_log_header_mask = 1

abbrev pub max_log_name_length : ℕ
max_log_name_length = 16

abbrev pub max_log_line_length : ℕ
max_log_line_length = 512

abbrev pub oil_max_str_len : ℕ
oil_max_str_len = 256

-- The tests of `logHeaderMask` by `LOG_HDRMASK_APPNAME` and its kin.
abbrev pub shows_appname : ℕ → Bool
shows_appname mask = mask % 2 == 1

abbrev pub shows_level : ℕ → Bool
shows_level mask = mask / 2 % 2 == 1

abbrev pub shows_timestamp : ℕ → Bool
shows_timestamp mask = mask / 4 % 2 == 1

abbrev pub shows_location : ℕ → Bool
shows_location mask = mask / 8 % 2 == 1

-- What `nvram_get` says of a name, where the library is built with CONFIG_SCM_SUPPORT; `none`
-- elsewhere.
abbrev pub Nvram : Type 0
Nvram = Option (Text → Option Text)

-- `oil_getCfgValue`
unfoldable pub get_cfg_value : Nvram → Text → Option Text
get_cfg_value none name = none
get_cfg_value (some nvram_get) name = elim (nvram_get name) [
  | none ↦ some []
  | some p ↦ some (truncated oil_max_str_len p)
]

-- `misc_isNullStr`
unfoldable pub is_null_str : Option Text → Bool
is_null_str none = true
is_null_str (some []) = true
is_null_str (some (c ∷ s)) = false

-- The name under which an attribute of an application is looked up: `"%s_%s"`.
unfoldable pub attr_key : Text → Text → Text
attr_key app_name attr_pendix = truncated max_log_name_length (app_name ++ b'_' ∷ attr_pendix)

-- `get_appLogAttr`
unfoldable pub get_app_log_attr : Nvram → Text → Text → Option Text
unfolding get_cfg_value is_null_str attr_key
get_app_log_attr nv app_name attr_pendix =
    let val = get_cfg_value nv (attr_key app_name attr_pendix) in
    if is_null_str val then none else val

-- An attribute, or its default.
abbrev pub value_or : Option Text → ℕ → ℕ
value_or none default = default
value_or (some s) default = to_u32 (atoi s)

abbrev pub level_pendix : Text
level_pendix = codes "log_level"

abbrev pub dest_pendix : Text
dest_pendix = codes "log_dest"

abbrev pub mask_pendix : Text
mask_pendix = codes "log_mask"

-- The attributes as they are configured for an application.
unfoldable pub configured : Nvram → Text → LogAttr → LogAttr
configured nv app_name a = record a {
  log_level = value_or (get_app_log_attr nv app_name level_pendix) default_log_level;
  log_destination = value_or (get_app_log_attr nv app_name dest_pendix) default_log_destination;
  log_header_mask = value_or (get_app_log_attr nv app_name mask_pendix) default_log_header_mask;
}

-- `updateLogAttr`
unfoldable pub update_log_attr : Nvram → LogAttr → LogAttr
unfolding configured
update_log_attr nv a = configured nv a.log_application_name a

-- The loop at the head of `log_init`: the text behind the last slash.
unfoldable pub base_name : Text → Text → Text
base_name app_name [] = app_name
base_name app_name (c ∷ s) = base_name (if c == b'/' then s else app_name) s

-- `log_init` without SHM_SUPPORT.
unfoldable pub log_init : Nvram → Text → LogAttr → LogAttr
unfolding configured base_name
log_init nv appname a =
    let app_name = base_name appname appname in
    record (configured nv app_name a) {
      log_application_name = truncated max_log_name_length app_name;
    }
