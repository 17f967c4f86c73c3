-- ===== src/Print.antt =====
-- kernel/print.c: conversion of numbers, `vsnprintf` and the functions that print a line. A string is the
-- list of its bytes before the terminator, and a number that a conversion takes is a word of 64 bits.
-- The width of a conversion does not pass the range of `int`. A conversion that overruns a buffer on
-- the stack has no result.
pub mod Numbers
pub mod Bounds
mod Tests
use base_kernel.Base.{
  ℕ, zero, suc, ◌+◌, ◌-◌, ◌*◌, ◌/◌, ◌%◌, ◌^◌, Bool, true, false, not, ◌&&◌, ◌||◌, List, [], ◌∷◌,
  ◌++◌, Option, none, some, ltb, leb, ◌==◌, if◌then◌else◌, length, replicate,
}

abbrev pub digit_char : ℕ → ℕ
digit_char digit = if ltb digit 10 then digit + 48 else digit - 10 + 97

-- The conversion loop of `itoa`: the digits with the lowest first, for that many rounds at most.
pub digits : ℕ → ℕ → ℕ → List ℕ
digits zero base uvalue = []
digits (suc rounds) base uvalue =
    let rest = digits rounds base (uvalue / base) in
    digit_char (uvalue % base) ∷ (if uvalue / base == 0 then [] else rest)

-- The reversal, with what is reversed already.
pub reverse_onto : List ℕ → List ℕ → List ℕ
reverse_onto [] done = done
reverse_onto (c ∷ cs) done = reverse_onto cs (c ∷ done)

abbrev pub is_negative : ℕ → ℕ → Bool
is_negative value base = base == 10 && leb (2 ^ 63) value

abbrev pub magnitude : ℕ → ℕ → ℕ
magnitude value base = if is_negative value base then (2 ^ 64 - value) % 2 ^ 64 else value

-- What stands in the buffer before the reversal.
abbrev pub reversed_text : ℕ → ℕ → ℕ → Bool → List ℕ
reversed_text value base width pad_zero =
    let ds = digits 64 base (magnitude value base) in
    ds
    ++ replicate (width - length ds) (if pad_zero then 48 else 32)
    ++ (if is_negative value base then 45 ∷ [] else [])

-- The text; `itoa` returns its length. `none` where it does not fit into `buffer`, of 64 characters,
-- whose end nothing checks.
pub itoa : ℕ → ℕ → ℕ → Bool → Option (List ℕ)
itoa value base width pad_zero =
    let reversed = reversed_text value base width pad_zero in
    if ltb 64 (length reversed) then none else some (reverse_onto reversed [])

-- The text in `buf` of a conversion, of 32 characters with the terminator; `none` where it does not fit.
pub number_text : ℕ → ℕ → ℕ → Bool → Option (List ℕ)
number_text value base width pad_zero = elim (itoa value base width pad_zero) [
  | none ↦ none
  | some text ↦ if ltb (length text) 32 then some text else none
]

-- An argument of `va_list`: a number, a string, or a null pointer to a string.
pub data Arg : Type 0 where
  word : ℕ → Arg
  string : List ℕ → Arg
  null : Arg

-- How far the format is read: text, or behind `%`, with the width and whether to pad with zeros.
pub data Mode : Type 0 where
  plain flag : Mode
  width : ℕ → Bool → Mode
  long long_long : ℕ → Bool → Mode

-- `size - 1`
abbrev pub limit : ℕ → ℕ
limit size = (size + 2 ^ 64 - 1) % 2 ^ 64

-- A loop that copies characters while there is room.
pub put_limited : ℕ → List ℕ → List ℕ → List ℕ
put_limited lim out [] = out
put_limited lim out (c ∷ cs) =
    let rest = put_limited lim (out ++ c ∷ []) cs in if ltb (length out) lim then rest else out

abbrev pub put_text : ℕ → List ℕ → Option (List ℕ) → Option (List ℕ)
put_text lim out none = none
put_text lim out (some text) = some (put_limited lim out text)

abbrev pub sign_extend : ℕ → ℕ
sign_extend v = if ltb (v % 2 ^ 32) (2 ^ 31) then v % 2 ^ 32 else v % 2 ^ 32 + (2 ^ 64 - 2 ^ 32)

-- A conversion that takes a number; `none` where its text does not fit into its buffers.
pub convert_word : ℕ → Bool → ℕ → Bool → ℕ → ℕ → List ℕ → Option (List ℕ)
convert_word lim is_long w pad c v out =
    if c == 100 || c == 105
    then put_text lim out (number_text (if is_long then v else sign_extend v) 10 w pad)
    else if c == 117
    then put_text lim out (number_text (if is_long then v else v % 2 ^ 32) 10 w pad)
    else if c == 112
    then put_text lim (out ++ 48 ∷ 120 ∷ []) (number_text v 16 0 pad)
    else if c == 99
    then some (out ++ v % 2 ^ 8 ∷ [])
    else put_text lim out (number_text (if is_long then v else v % 2 ^ 32) 16 w pad)

-- `d`, `i`, `u`, `x`, `X`, `p` and `c`.
abbrev pub takes_word : ℕ → Bool
takes_word c =
    (c == 100 || c == 105) || ((c == 117 || c == 120) || (c == 88 || (c == 112 || c == 99)))

abbrev pub with_rest : List Arg → Option (List ℕ) → Option (List ℕ × List Arg)
with_rest args none = none
with_rest args (some text) = some (text, args)

-- The conversion of the character `c`; `none` where the argument is missing or of another kind, too.
pub convert : ℕ → Bool → ℕ → Bool → ℕ → List Arg → List ℕ → Option (List ℕ × List Arg)
convert lim is_long w pad c args out =
    if c == 115
    then elim args [
      | [] ↦ none
      | a ∷ rest ↦ elim a [
        | string s ↦ some (put_limited lim out s, rest)
        | null ↦ some (put_limited lim out (40 ∷ 110 ∷ 117 ∷ 108 ∷ 108 ∷ 41 ∷ []), rest)
        | word v ↦ none
      ]
    ]
    else if takes_word c
    then elim args [
      | [] ↦ none
      | a ∷ rest ↦ elim a [
        | string s ↦ none
        | null ↦ none
        | word v ↦ with_rest rest (convert_word lim is_long w pad c v out)
      ]
    ]
    else if c == 37
    then some (out ++ 37 ∷ [], args)
    else some (out, args)

-- What a character behind `%` does: it changes the mode, or it is converted.
abbrev pub is_digit : ℕ → Bool
is_digit c = leb 48 c && leb c 57

pub next_mode : Mode → ℕ → Option Mode
next_mode plain c = none
next_mode flag c =
    if c == 48
    then some (width 0 true)
    else if is_digit c
    then some (width (c - 48) false)
    else if c == 108
    then some (long 0 false)
    else none
next_mode (width w pad) c =
    if is_digit c
    then some (width (w * 10 + (c - 48)) pad)
    else if c == 108
    then some (long w pad)
    else none
next_mode (long w pad) c = if c == 108 then some (long_long w pad) else none
next_mode (long_long w pad) c = none

abbrev pub convert_in : Mode → ℕ → ℕ → List Arg → List ℕ → Option (List ℕ × List Arg)
convert_in plain lim c args out = none
convert_in flag lim c args out = convert lim false 0 false c args out
convert_in (width w pad) lim c args out = convert lim false w pad c args out
convert_in (long w pad) lim c args out = convert lim true w pad c args out
convert_in (long_long w pad) lim c args out = convert lim true w pad c args out

abbrev pub is_plain : Mode → Bool
is_plain plain = true
is_plain _ = false

-- The loop of `vsnprintf`; `none` where it reads behind the end of the format, too.
pub format_from : ℕ → Mode → List ℕ → List Arg → List ℕ → Option (List ℕ)
format_from lim mode [] args out = if is_plain mode then some out else none
format_from lim mode (c ∷ cs) args out = elim (is_plain mode) [
  | true ↦ elim (ltb (length out) lim) [
    | false ↦ some out
    | true ↦ elim (c == 37) [
      | true ↦ format_from lim flag cs args out
      | false ↦ format_from lim plain cs args (out ++ c ∷ [])
    ]
  ]
  | false ↦ elim (next_mode mode c) [
    | some m ↦ format_from lim m cs args out
    | none ↦ elim (convert_in mode lim c args out) [
      | none ↦ none
      | some r ↦ format_from lim plain cs r.1 r.0
    ]
  ]
]

-- What is written before the terminator; `vsnprintf` returns its length.
pub vsnprintf : ℕ → List ℕ → List Arg → Option (List ℕ)
vsnprintf size format args = format_from (limit size) plain format args []

pub sprintf : List ℕ → List Arg → Option (List ℕ)
sprintf format args = vsnprintf 65536 format args

-- What goes to the serial line.
pub kprintf : List ℕ → List Arg → Option (List ℕ)
kprintf format args = vsnprintf 1024 format args

-- A line with a tag of eight characters in front.
abbrev pub tagged : List ℕ → List ℕ → List Arg → Option (List ℕ)
tagged tag format args = elim (vsnprintf 1024 format args) [
  | none ↦ none
  | some text ↦ some (tag ++ text ++ 10 ∷ [])
]

-- `[DEBUG] `
pub kernel_debug : List ℕ → List Arg → Option (List ℕ)
kernel_debug = tagged (91 ∷ 68 ∷ 69 ∷ 66 ∷ 85 ∷ 71 ∷ 93 ∷ 32 ∷ [])

-- `[INFO]  `
pub kernel_info : List ℕ → List Arg → Option (List ℕ)
kernel_info = tagged (91 ∷ 73 ∷ 78 ∷ 70 ∷ 79 ∷ 93 ∷ 32 ∷ 32 ∷ [])

-- `[WARN]  `
pub kernel_warn : List ℕ → List Arg → Option (List ℕ)
kernel_warn = tagged (91 ∷ 87 ∷ 65 ∷ 82 ∷ 78 ∷ 93 ∷ 32 ∷ 32 ∷ [])

-- `[ERROR] `
pub kernel_error : List ℕ → List Arg → Option (List ℕ)
kernel_error = tagged (91 ∷ 69 ∷ 82 ∷ 82 ∷ 79 ∷ 82 ∷ 93 ∷ 32 ∷ [])
