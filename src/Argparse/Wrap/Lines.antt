-- ===== src/Argparse/Wrap/Lines.antt =====
-- The lines of a wrapped text.

use mmlib.Base.{
  List-cases, subst, ℕ, zero, suc, ◌+◌, ◌-◌, ◌≤◌, ◌<◌, ◌≡◌, refl, sym, ap, ◌∙◌, ◌≢◌, inl, inr,
  false, some, List, [], ◌∷◌, ◌++◌, arith, ◌==◌, Bool-cases, if◌then◌else◌, length, length-append,
  take, length-take, drop, length-drop, take-append-drop, replicate, length-replicate, All,
  append_assoc, append-nil,
}
use mmlib.Base.CString.{Bytes}
use mmlib.Argparse.Opt.{get_first_token_length}
use mmlib.Argparse.Opt.Names.{get_first_token_length_lem}
use mmlib.Argparse.Wrap.{
  find_break, part_length, skip_spaces, skip_linefeed, pad_right, wrap_loop, print_text_wrapped,
}

find_break_bounds :
    (text : Bytes) (m l : ℕ) → 0 < m → l ≤ m → (0 < find_break text m l) × (find_break text m l ≤ m)
unfolding find_break
find_break_bounds text m zero pos le = ground arith
find_break_bounds text m (suc l) pos le = ground (arith, find_break_bounds text m l pos)

part_length-le : (text : Bytes) (m : ℕ) → 0 < m → part_length text m ≤ m
unfolding part_length
part_length-le text m pos = ground (arith, find_break_bounds text m m pos)

length-skip_spaces : (s : Bytes) → length (skip_spaces s) ≤ length s
unfolding skip_spaces
length-skip_spaces [] = omega arith
length-skip_spaces (c ∷ s) = ground (arith, length-skip_spaces s)

length-skip_linefeed : (s : Bytes) → length (skip_linefeed s) ≤ length s
unfolding skip_linefeed
length-skip_linefeed [] = omega arith
length-skip_linefeed (c ∷ s) = ground arith

-- What is left after a line.
abbrev left : Bytes → ℕ → Bytes
left text m = skip_spaces (skip_linefeed (drop (part_length text m) text))

part_length_zero : (c : ℕ) (s : Bytes) (m : ℕ) → 0 < m → part_length (c ∷ s) m ≡ 0 → c ≡ 0x0a
unfolding part_length
part_length_zero c s m pos e =
    let token = get_first_token_length_lem (c ∷ s) 0x0a in
    let n = get_first_token_length (c ∷ s) 0x0a in
    elim (Bool-cases (n == 0)) [
      | inl none' ↦
          let none'' : n ≡ 0 = ground arith in
          elim (token.stop) [ inl all ↦ absurd (omega arith) | inr (lt, at) ↦ rw none'' at at ]
      | inr some' ↦ absurd (ground (arith, find_break_bounds (c ∷ s) m m pos))
    ]

left-shorter : (c : ℕ) (s : Bytes) (m : ℕ) → 0 < m → length (left (c ∷ s) m) ≤ length s
unfolding skip_linefeed
left-shorter c s m pos =
    let n = part_length (c ∷ s) m in
    elim (Bool-cases (n == 0)) [
      | inl none' ↦
          let none'' : n ≡ 0 = ground arith in
          rw (none'', part_length_zero c s m pos none'') (length-skip_spaces s)
      | inr some' ↦ omega (
        arith,
        length-skip_spaces (skip_linefeed (drop n (c ∷ s))),
        length-skip_linefeed (drop n (c ∷ s)),
        length-drop n (c ∷ s),
        positive n some',
      )
    ]
  where
    positive : (n : ℕ) → (n == 0) ≡ false → 0 < n
    positive n e = ground arith

-- The bytes of a text that are no spaces and no linefeeds.
pub solid : Bytes → Bytes
solid [] = []
solid (c ∷ s) =
    let rest = solid s in if c == b' ' then rest else if c == 0x0a then rest else c ∷ rest

pub solid_lines : List Bytes → Bytes
solid_lines [] = []
solid_lines (l ∷ ls) = solid l ++ solid_lines ls

solid-append : (s t : Bytes) → solid (s ++ t) ≡ solid s ++ solid t
unfolding solid
solid-append [] t = refl
solid-append (c ∷ s) t = ground (arith, solid-append s t)

solid-spaces : (n : ℕ) → solid (replicate n b' ') ≡ []
unfolding solid
solid-spaces zero = refl
solid-spaces (suc n) = solid-spaces n

solid-skip_spaces : (s : Bytes) → solid (skip_spaces s) ≡ solid s
unfolding solid skip_spaces
solid-skip_spaces [] = refl
solid-skip_spaces (c ∷ s) = ground (arith, solid-skip_spaces s)

solid-skip_linefeed : (s : Bytes) → solid (skip_linefeed s) ≡ solid s
unfolding solid skip_linefeed
solid-skip_linefeed [] = refl
solid-skip_linefeed (c ∷ s) = ground arith

-- A line and what is left hold the text.
solid-left :
    (text : Bytes) (m : ℕ)
    → solid (take (part_length text m) text) ++ solid (left text m) ≡ solid text
solid-left text m = rw (solid-skip_spaces, solid-skip_linefeed, ← solid-append, take-append-drop)

solid-pad_right :
    (n : ℕ) (header part : Bytes) → solid (pad_right n header ++ part) ≡ solid header ++ solid part
unfolding pad_right
solid-pad_right n header part = simp (solid-append, solid-spaces, append-nil)

length-pad_right : (n : ℕ) (h : Bytes) → length h ≤ n → length (pad_right n h) ≡ n
unfolding pad_right
length-pad_right n h le = omega (
  arith,
  length-append {0} h (replicate (n - length h) b' '),
  length-replicate {0} {A = ℕ} (n - length h) b' ',
)

-- What a run of the loop prints.
pub record Wrapped (width : ℕ) (header text : Bytes) (lines : List Bytes) : Type 0 where
  pub short : All (λ l. length l ≤ width) lines
  pub some_line : lines ≢ []
  pub same : solid_lines lines ≡ solid header ++ solid text

line_short :
    (m align : ℕ) (header text : Bytes)
    → 0 < m
    → length header ≤ align
    → length (pad_right align header ++ take (part_length text m) text) ≤ align + m
line_short m align header text pos le = omega (
  arith,
  length-append {0} (pad_right align header) (take (part_length text m) text),
  length-pad_right align header le,
  length-take {0} (part_length text m) text,
  part_length-le text m pos,
)

left-lt :
    (text : Bytes) (c : ℕ) (s : Bytes) (m : ℕ)
    → 0 < m
    → left text m ≡ c ∷ s
    → length (c ∷ s) < length text
left-lt [] c s m pos e = absurd (nothing (part_length [] m) e)
  where
    nothing : (n : ℕ) → skip_spaces (skip_linefeed (drop n [])) ≡ c ∷ s → ⊥
    nothing zero h = unfold skip_spaces skip_linefeed in cc h
    nothing (suc n) h = unfold skip_spaces skip_linefeed in cc h
left-lt (d ∷ text) c s m pos e = omega (arith, ap length (sym e), left-shorter d text m pos)

Wrapped-wrap_loop :
    (fuel m align : ℕ) (header text : Bytes)
    → 0 < m
    → length header ≤ align
    → length text < fuel
    → (lines : List Bytes) × (wrap_loop fuel m align header text ≡ some lines)
      × Wrapped (align + m) header text lines
unfolding solid wrap_loop pad_right solid_lines
Wrapped-wrap_loop zero m align header text pos le lt = absurd (omega arith)
Wrapped-wrap_loop (suc fuel) m align header text pos le lt = elim (List-cases (left text m)) [
  | inl e ↦ (
    line ∷ [],
    rw (e, wrap_loop),
    record {
      short = (line_short m align header text pos le, tt);
      some_line = cc;
      same =
          rw append-nil
            (solid-pad_right align header part ∙ ap (λ t. solid header ++ t) (last_part e));
    },
  )
  | inr (c, s, e) ↦
      let (lines, runs, w) =
        Wrapped-wrap_loop fuel m align [] (c ∷ s) pos (omega arith) (shorter c s e) in
      (
        line ∷ lines,
        rw (e, wrap_loop) (rw runs),
        record {
          short = (line_short m align header text pos le, w.short);
          some_line = cc;
          same =
              rw (solid-pad_right align header part, w.same)
                (append_assoc (solid header) (solid part) (solid (c ∷ s))
                  ∙ ap (λ t. solid header ++ t) (next_part c s e));
        },
      )
]
  where
    part : Bytes
    part = take (part_length text m) text

    line : Bytes
    line = pad_right align header ++ part

    last_part : left text m ≡ [] → solid part ≡ solid text
    last_part e = sym (append-nil (solid part)) ∙ (rw e at (solid-left text m))

    next_part : (c : ℕ) (s : Bytes) → left text m ≡ c ∷ s → solid part ++ solid (c ∷ s) ≡ solid text
    next_part c s e = rw e at (solid-left text m)

    shorter : (c : ℕ) (s : Bytes) → left text m ≡ c ∷ s → length (c ∷ s) < fuel
    shorter c s e = omega (arith, left-lt text c s m pos e)

-- With room for the text behind the alignment, and a header within it, the loop ends, no line is
-- longer than `line_maxlen`, and the lines hold the bytes of the header and the text in order, but
-- for spaces and linefeeds.
pub print_text_wrapped_lem :
    (line_maxlen align_len : ℕ) (header text : Bytes)
    → align_len < line_maxlen
    → length header ≤ align_len
    → (lines : List Bytes) × (print_text_wrapped line_maxlen text align_len (some header)
        ≡ some lines)
      × Wrapped line_maxlen header text lines
unfolding print_text_wrapped
print_text_wrapped_lem line_maxlen align_len header text room le =
    let (lines, runs, w) =
      Wrapped-wrap_loop (length text + 1) (line_maxlen - align_len) align_len header text
        (omega arith) le (omega arith) in
    (lines, runs, subst (λ n. Wrapped n header text lines) (omega arith) w)
