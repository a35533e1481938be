-- ===== src/Argparse/Help/Usage.antt =====
-- That the usage lines come to an end.
use mmlib.Base.{
  ℕ, zero, suc, ◌+◌, ◌≤◌, ◌<◌, ◌≡◌, refl, Option, some, [], ◌∷◌, ◌++◌, arith, length, length-drop,
  drop, take, ℕ_discrete,
}
use mmlib.Base.CString.{Bytes, codes}
use mmlib.Argparse.Opt.{get_first_token_length}
use mmlib.Argparse.Opt.Names.{get_first_token_length-pos, get_first_token_length-zero}
use mmlib.Argparse.Help.{linefeed, or_default, skip_linefeeds, synopsis_loop, print_synopsis}

length-skip_linefeeds : (s : Bytes) → length (skip_linefeeds s) ≤ length s
unfolding skip_linefeeds
length-skip_linefeeds [] = omega arith
length-skip_linefeeds (c ∷ s) = ground (arith, length-skip_linefeeds s)

-- A round takes a byte at least: a line, or a linefeed.
length-round :
    (c : ℕ) (s : Bytes)
    → length (skip_linefeeds (drop (get_first_token_length (c ∷ s) 0x0a) (c ∷ s))) ≤ length s
unfolding skip_linefeeds
length-round c s = elim (ℕ_discrete c 0x0a) [
  | yes e ↦ rw (e, get_first_token_length-zero s 0x0a) (length-skip_linefeeds s)
  | no h ↦
      let line = get_first_token_length (c ∷ s) 0x0a in
      omega (
        arith,
        get_first_token_length-pos c s 0x0a h,
        length-skip_linefeeds (drop line (c ∷ s)),
        length-drop line (c ∷ s),
      )
]

synopsis_loop_ends :
    (fuel : ℕ) (execname s : Bytes)
    → length s < fuel
    → (out : Bytes) × (synopsis_loop fuel execname s ≡ some out)
unfolding synopsis_loop
synopsis_loop_ends zero execname s h = absurd (omega arith)
synopsis_loop_ends (suc fuel) execname [] h = ([], refl)
synopsis_loop_ends (suc fuel) execname (c ∷ s) h =
    let len = get_first_token_length (c ∷ s) 0x0a in
    let (out, e) =
      synopsis_loop_ends fuel execname (skip_linefeeds (drop len (c ∷ s)))
        (omega (arith, length-round c s)) in
    ((codes "  " ++ (execname ++ (codes " " ++ (take len (c ∷ s) ++ linefeed)))) ++ out, rw e refl)

-- The loop of print_synopsis comes to an end, whatever the names and texts.
print_synopsis_ends :
    (execname args_doc : Option Bytes)
    → (out : Bytes) × (print_synopsis execname args_doc ≡ some out)
unfolding print_synopsis
print_synopsis_ends execname args_doc =
    synopsis_loop_ends (length (or_default args_doc (codes "[options] args...")) + 1)
      (or_default execname (codes "PROGRAM")) (or_default args_doc (codes "[options] args..."))
      (omega arith)
