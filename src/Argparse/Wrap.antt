-- ===== src/Argparse/Wrap.antt =====
-- src/argparse.c, print_text_wrapped: text in lines of bounded length. What is printed is the list of
-- the lines, each of which a linefeed follows in the output.
pub mod Lines
use mmlib.Base.{
  ℕ, zero, suc, ◌+◌, ◌-◌, Option, none, some, List, [], ◌∷◌, ◌++◌, leb, ◌==◌, if◌then◌else◌, length,
  take, drop, replicate,
}
use mmlib.Base.CString.{Bytes, char_at, first}
use mmlib.Argparse.Opt.{get_first_token_length}

-- `while (text[len] != ' ') { if (--len == 0) { len = textline_maxlen; break; } }`
pub find_break : Bytes → (textline_maxlen : ℕ) → ℕ → ℕ
find_break text textline_maxlen zero = textline_maxlen
find_break text textline_maxlen (suc l) =
    let rest = find_break text textline_maxlen l in
    if char_at text (suc l) == b' ' then suc l else if l == 0 then textline_maxlen else rest

-- The length of the next part to print.
pub part_length : Bytes → (textline_maxlen : ℕ) → ℕ
part_length text textline_maxlen =
    let len = get_first_token_length text 0x0a in
    if leb textline_maxlen len then find_break text textline_maxlen textline_maxlen else len

-- `while (text[len] == ' ') len++`
pub skip_spaces : Bytes → Bytes
skip_spaces [] = []
skip_spaces (c ∷ s) = let rest = skip_spaces s in if c == b' ' then rest else c ∷ s

-- `if (text[len] == '\n') len++`
pub skip_linefeed : Bytes → Bytes
skip_linefeed [] = []
skip_linefeed (c ∷ s) = if c == 0x0a then s else c ∷ s

-- "%-*s" and "%.*s" of printf
pub pad_right : (width : ℕ) → Bytes → Bytes
pad_right width s = s ++ replicate (width - length s) b' '

-- The `do ... while` loop on fuel; `none` means that the fuel ran out.
pub wrap_loop : ℕ → (textline_maxlen align_len : ℕ) → (header text : Bytes) → Option (List Bytes)
wrap_loop zero textline_maxlen align_len header text = none
wrap_loop (suc fuel) textline_maxlen align_len header text =
    let len = part_length text textline_maxlen in
    let line = pad_right align_len header ++ take len text in
    let rest = skip_spaces (skip_linefeed (drop len text)) in
    elim rest [
      | [] ↦ some (line ∷ [])
      | c ∷ s ↦ elim (wrap_loop fuel textline_maxlen align_len [] (c ∷ s)) [
        | none ↦ none
        | some lines ↦ some (line ∷ lines)
      ]
    ]

-- A `header` of NULL is "". Each round but the last takes at least a byte of the text.
pub print_text_wrapped :
    (line_maxlen : ℕ) → (text : Bytes) → (align_len : ℕ) → Option Bytes → Option (List Bytes)
print_text_wrapped line_maxlen text align_len header =
    wrap_loop (length text + 1) (line_maxlen - align_len) align_len
      (elim header [ none ↦ [] | some h ↦ h ]) text
