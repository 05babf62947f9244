-- ===== src/Config/Go.antt =====
-- What the code of internal/config relies on in Go's time, strconv, fmt and strings, and the sizes that
-- parseByteSize reads back from formatByteSize.
use elnssm.Common.{
  ℕ, ◌-◌, ◌*◌, ◌≤◌, ◌<◌, ℤ, pos, ◌≤ℤ◌, leb_ℤ, String, str_eq, str_eq_iff, none, some, Bool, true,
  false, ◌||◌, ◌==◌, Option, ◌≡◌, ◌≢◌, refl, ap, arith, if◌then◌else◌, inl, inr, Bool-cases,
}
use Prim.Native.String.{len, slice, ◌++◌}
use text.Mathlib.TextPositions.{slice-append_left, slice-append_right, len-append}
use elnssm.Model.{Float64}
use elnssm.Config.Texts.{Texts}
use elnssm.Config.ByteSize.{
  cut_suffix, kb, mb, gb, tb, split_unit, parse_byte_size, format_byte_size,
}

abbrev pub is_unit : String → Bool
is_unit u = str_eq u "TB" || str_eq u "GB" || str_eq u "MB" || str_eq u "KB"

abbrev pub is_scale : ℕ → Bool
is_scale unit = (unit == tb) || (unit == gb) || (unit == mb) || (unit == kb)

-- A duration's text is not empty and can be read again. The decimal of the ratio of an int64 to a
-- unit, which is finite, has no blank around it and no small letter, and can be read; of the ratio of
-- a small multiple of the unit nothing is lost.
pub record IsGo (g : Texts) : Type 0 where
  pub parse_string : (d : ℤ) → g.parse_duration (g.duration_string d) ≡ some d
  pub string_some : (d : ℤ) → g.duration_string d ≢ ""
  pub trim_decimal :
      (n : ℕ) (b : ℤ) (unit : ℕ)
      → is_scale unit ≡ true
      → g.trim_space (g.fixed n (g.ratio b (pos unit))) ≡ g.fixed n (g.ratio b (pos unit))
  pub trim_unit :
      (n : ℕ) (b : ℤ) (unit : ℕ) (u : String)
      → is_scale unit ≡ true
      → is_unit u ≡ true
      → g.trim_space (g.fixed n (g.ratio b (pos unit)) ++ u) ≡ g.fixed n (g.ratio b (pos unit)) ++ u
  pub upper_unit :
      (n : ℕ) (b : ℤ) (unit : ℕ) (u : String)
      → is_scale unit ≡ true
      → is_unit u ≡ true
      → g.to_upper (g.fixed n (g.ratio b (pos unit)) ++ u) ≡ g.fixed n (g.ratio b (pos unit)) ++ u
  pub reread : ℕ → Float64 → Float64
  pub parse_fixed :
      (n : ℕ) (b : ℤ) (unit : ℕ)
      → is_scale unit ≡ true
      → g.parse_float (g.fixed n (g.ratio b (pos unit))) ≡ some (reread n (g.ratio b (pos unit)))
  pub whole :
      (n k unit : ℕ)
      → is_scale unit ≡ true
      → k < 1024
      → g.to_bytes (reread n (g.ratio (pos (k * unit)) (pos unit))) (pos unit) ≡ pos (k * unit)

last_two : (s u : String) → len u ≡ 2 → slice (s ++ u) (len (s ++ u) - 2) (len (s ++ u)) ≡ u
last_two s u e =
    let from : len (s ++ u) - 2 ≡ len s = omega (arith, len-append s u, e) in
    rw (from, len-append s u) (slice-append_right s u)

cut_suffix-append :
    (s u v : String)
    → len u ≡ 2
    → len v ≡ 2
    → cut_suffix (s ++ u) v ≡ (if str_eq u v then some s else none)
unfolding cut_suffix
cut_suffix-append s u v e f =
    let from : len (s ++ u) - 2 ≡ len s = omega (arith, len-append s u, e) in
    rw (f, last_two s u e, from, slice-append_left s u) refl

split_unit-append :
    (s : String)
    → (split_unit (s ++ "TB") ≡ (s, tb))
      × (split_unit (s ++ "GB") ≡ (s, gb))
      × (split_unit (s ++ "MB") ≡ (s, mb))
      × (split_unit (s ++ "KB") ≡ (s, kb))
unfolding split_unit
split_unit-append s = (
  rw (cut_suffix-append s "TB" "TB" refl refl) refl,
  rw (cut_suffix-append s "GB" "TB" refl refl, cut_suffix-append s "GB" "GB" refl refl) refl,
  rw
      (
        cut_suffix-append s "MB" "TB" refl refl,
        cut_suffix-append s "MB" "GB" refl refl,
        cut_suffix-append s "MB" "MB" refl refl,
      )
      refl,
  rw
      (
        cut_suffix-append s "KB" "TB" refl refl,
        cut_suffix-append s "KB" "GB" refl refl,
        cut_suffix-append s "KB" "MB" refl refl,
        cut_suffix-append s "KB" "KB" refl refl,
      )
      refl,
)

longer-ne : (s t : String) → len t < len s → str_eq s t ≡ false
longer-ne s t l = elim (Bool-cases (str_eq s t)) [
  | inl e ↦ absurd (omega (arith, ap len ((str_eq_iff s t).0 e), l))
  | inr e ↦ e
]

append_some : (s u : String) → len u ≡ 2 → str_eq (s ++ u) "" ≡ false
append_some s u e = longer-ne (s ++ u) "" (omega (arith, len-append s u, e))

unit_some :
    (s : String)
    → (str_eq (s ++ "TB") "" ≡ false)
      × (str_eq (s ++ "GB") "" ≡ false)
      × (str_eq (s ++ "MB") "" ≡ false)
      × (str_eq (s ++ "KB") "" ≡ false)
unit_some s = (
  append_some s "TB" refl,
  append_some s "GB" refl,
  append_some s "MB" refl,
  append_some s "KB" refl,
)

-- The places behind the point, and the unit, with which a size is written.
abbrev pub places : ℤ → ℕ
places b = if leb_ℤ (pos gb) b then 1 else 0

abbrev pub unit_of : ℤ → ℕ
unit_of b =
    if leb_ℤ (pos tb) b
    then tb
    else if leb_ℤ (pos gb) b
    then gb
    else if leb_ℤ (pos mb) b
    then mb
    else kb

module _ (g : Texts) (go : IsGo g) where
  -- What is read back: the ratio to the unit, as its decimal denotes it, times the unit.
  abbrev pub rounded : ℤ → ℤ
  rounded b = g.to_bytes (go.reread (places b) (g.ratio b (pos (unit_of b)))) (pos (unit_of b))

  parse_byte_size-append :
      (n : ℕ) (b : ℤ) (unit : ℕ) (u : String)
      → is_scale unit ≡ true
      → is_unit u ≡ true
      → len u ≡ 2
      → split_unit (g.fixed n (g.ratio b (pos unit)) ++ u)
        ≡ (g.fixed n (g.ratio b (pos unit)), unit)
      → parse_byte_size g (g.fixed n (g.ratio b (pos unit)) ++ u)
        ≡ some (g.to_bytes (go.reread n (g.ratio b (pos unit))) (pos unit))
  unfolding parse_byte_size
  parse_byte_size-append n b unit u c h e s =
      let decimal = g.fixed n (g.ratio b (pos unit)) in
      let text = decimal ++ u in
      let long : 2 ≤ len text = omega (arith, len-append decimal u, e) in
      let filled : str_eq text "" ≡ false = longer-ne text "" (omega (arith, long)) in
      let other : str_eq text "0" ≡ false = longer-ne text "0" (omega (arith, long)) in
      rw
        (
          go.trim_unit n b unit u c h,
          go.upper_unit n b unit u c h,
          s,
          filled,
          other,
          go.trim_decimal n b unit c,
          go.parse_fixed n b unit c,
        )
        refl

  -- The decimal of the ratio, with the unit's letters behind it.
  abbrev written : ℕ → ℤ → ℕ → String → String
  written n b unit u = g.fixed n (g.ratio b (pos unit)) ++ u

  abbrev back : ℕ → ℤ → ℕ → Option ℤ
  back n b unit = some (g.to_bytes (go.reread n (g.ratio b (pos unit))) (pos unit))

  parse_unit :
      (b : ℤ)
      → (parse_byte_size g (written 1 b tb "TB") ≡ back 1 b tb)
        × (parse_byte_size g (written 1 b gb "GB") ≡ back 1 b gb)
        × (parse_byte_size g (written 0 b mb "MB") ≡ back 0 b mb)
        × (parse_byte_size g (written 0 b kb "KB") ≡ back 0 b kb)
  parse_unit b = (
    parse_byte_size-append 1 b tb "TB" refl refl refl
        (split_unit-append (g.fixed 1 (g.ratio b (pos tb)))).0,
    parse_byte_size-append 1 b gb "GB" refl refl refl
        (split_unit-append (g.fixed 1 (g.ratio b (pos gb)))).1,
    parse_byte_size-append 0 b mb "MB" refl refl refl
        (split_unit-append (g.fixed 0 (g.ratio b (pos mb)))).2,
    parse_byte_size-append 0 b kb "KB" refl refl refl
        (split_unit-append (g.fixed 0 (g.ratio b (pos kb)))).3,
  )

  pub parse_byte_size-format_byte_size :
      (b : ℤ) → pos kb ≤ℤ b → parse_byte_size g (format_byte_size g b) ≡ some (rounded b)
  unfolding format_byte_size
  parse_byte_size-format_byte_size b l = ground (arith, l, parse_unit b)

  pub format_byte_size-some : (b : ℤ) → pos kb ≤ℤ b → str_eq (format_byte_size g b) "" ≡ false
  unfolding format_byte_size
  format_byte_size-some b l = ground (
    arith,
    l,
    unit_some (g.fixed 1 (g.ratio b (pos tb))),
    unit_some (g.fixed 1 (g.ratio b (pos gb))),
    unit_some (g.fixed 0 (g.ratio b (pos mb))),
    unit_some (g.fixed 0 (g.ratio b (pos kb))),
  )

  -- Nothing is lost of a size that is a whole number of its unit.
  pub rounded_whole :
      (k : ℕ)
      → 0 < k
      → k < 1024
      → (rounded (pos (k * kb)) ≡ pos (k * kb))
        × (rounded (pos (k * mb)) ≡ pos (k * mb))
        × (rounded (pos (k * gb)) ≡ pos (k * gb))
  rounded_whole k p l =
      ground (arith, p, l, go.whole 0 k kb refl l, go.whole 0 k mb refl l, go.whole 1 k gb refl l)
