-- ===== src/Config/ByteSize.antt =====
-- internal/config/service_config.go: parseByteSize and formatByteSize.
use elnssm.Common.{
  ℕ, ◌-◌, ℤ, pos, leb_ℤ, eqb_ℤ, String, str_eq, Option, none, some, ◌||◌, if◌then◌else◌,
}
use Prim.Native.String.{len, slice, ◌++◌}
use elnssm.Config.Texts.{Texts, ◌>>=◌}

-- strings.HasSuffix and strings.TrimSuffix: the text before the suffix, if the text ends with it.
unfoldable pub cut_suffix : String → String → Option String
cut_suffix s suffix =
    let start = len s - len suffix in
    if str_eq (slice s start (len s)) suffix then some (slice s 0 start) else none

abbrev pub kb : ℕ
kb = 1024

abbrev pub mb : ℕ
mb = 1048576

abbrev pub gb : ℕ
gb = 1073741824

abbrev pub tb : ℕ
tb = 1099511627776

-- What a suffix of the text leaves for ParseFloat, and its multiplier.
abbrev pub or_unit : Option String → ℕ → String × ℕ → String × ℕ
or_unit (some number) multiplier rest = (number, multiplier)
or_unit none multiplier rest = rest

unfoldable pub split_unit : String → String × ℕ
split_unit s = or_unit (cut_suffix s "TB") tb (
    or_unit (cut_suffix s "GB") gb (
      or_unit (cut_suffix s "MB") mb
        (or_unit (cut_suffix s "KB") kb (or_unit (cut_suffix s "B") 1 (s, 1)))))

unfoldable pub parse_byte_size : Texts → String → Option ℤ
parse_byte_size g s =
    let trimmed = g.trim_space s in
    let parts : String × ℕ = split_unit (g.to_upper trimmed) in
    if str_eq trimmed "" || str_eq trimmed "0"
    then some (pos 0)
    else g.parse_float (g.trim_space parts.0) >>= λ val. some (g.to_bytes val (pos parts.1))

unfoldable pub format_byte_size : Texts → ℤ → String
format_byte_size g b =
    if eqb_ℤ b (pos 0)
    then ""
    else if leb_ℤ (pos tb) b
    then g.fixed 1 (g.ratio b (pos tb)) ++ "TB"
    else if leb_ℤ (pos gb) b
    then g.fixed 1 (g.ratio b (pos gb)) ++ "GB"
    else if leb_ℤ (pos mb) b
    then g.fixed 0 (g.ratio b (pos mb)) ++ "MB"
    else if leb_ℤ (pos kb) b
    then g.fixed 0 (g.ratio b (pos kb)) ++ "KB"
    else g.decimal b ++ "B"
