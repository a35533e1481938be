-- ===== src/Referee/Array/Compact.antt =====
-- What lock_array_drop_unused leaves.
use mmlib.Base.{
  ℕ, suc, ◌+◌, ◌-◌, ◌≤◌, ◌<◌, ◌≡◌, refl, List-cases, ap, sym, ◌∙◌, inl, inr, Bool, true, false, not,
  Bool-cases, List, [], ◌∷◌, ◌++◌, append_assoc, arith, length, get_or, get_or-at,
  get_or-append_right, set, set-at, filter, length-filter, take, drop, length-append, length-take,
  length-drop, take-append-drop, take-length-append,
}
use mmlib.Base.Int.{pos}
use mmlib.Referee.Types.{Lock, lock_init, lock_is_unused}
use mmlib.Referee.Array.{LockArray, drop_loop, lock_array_drop_unused}
use mmlib.Referee.Array.Insert.{used, IsWellFormed}
use mmlib.Referee.Array.Sorted.{Increasing-filter}

abbrev pub is_used : Lock → Bool
is_used lock = not (lock_is_unused lock)

module _ (n : ℕ) (cells : List Lock) (src dst : ℕ) (x : Lock)
    (here : get_or cells src (lock_init (pos 0)) ≡ x) where
  drop_loop-skipped :
      lock_is_unused x ≡ true → drop_loop (suc n) cells src dst ≡ drop_loop n cells (src + 1) dst
  unfolding drop_loop
  drop_loop-skipped e = rw (here, e) refl

  drop_loop-kept :
      lock_is_unused x ≡ false
      → src ≡ dst
      → drop_loop (suc n) cells src dst ≡ drop_loop n cells (src + 1) (dst + 1)
  unfolding drop_loop
  drop_loop-kept e same = rw (here, e) (ground arith)

  drop_loop-moved :
      lock_is_unused x ≡ false
      → dst < src
      → drop_loop (suc n) cells src dst ≡ drop_loop n (set cells dst x) (src + 1) (dst + 1)
  unfolding drop_loop
  drop_loop-moved e less = rw (here, e) (ground arith)

module _ (pre : List Lock) (x : Lock) where
  joined :
      (dst : ℕ) (f rest : List Lock)
      → ◌≡◌ {A = List Lock × ℕ}
          ((pre ++ (x ∷ [])) ++ (f ++ rest), dst + 1 + length f)
          (pre ++ ((x ∷ f) ++ rest), dst + suc (length f))
  joined dst f rest =
      ap (λ c. (c, dst + 1 + length f)) (append_assoc pre (x ∷ []) (f ++ rest))
      ∙ ap (λ d. (pre ++ (x ∷ (f ++ rest)), d)) (omega arith)

  set-gap :
      (y : Lock) (ys more : List Lock) (dst : ℕ)
      → dst ≡ length pre
      → set (pre ++ (y ∷ (ys ++ (x ∷ more)))) dst x
        ≡ (pre ++ (x ∷ [])) ++ ((ys ++ (x ∷ [])) ++ more)
  set-gap y ys more dst hd =
      ap (λ d. set (pre ++ (y ∷ (ys ++ (x ∷ more)))) d x) hd
      ∙ set-at pre y (ys ++ (x ∷ more)) x
      ∙ ap (λ zs. pre ++ (x ∷ zs)) (sym (append_assoc ys (x ∷ []) more))
      ∙ sym (append_assoc pre (x ∷ []) ((ys ++ (x ∷ [])) ++ more))

-- What the loop ends with, from the cells that it has compacted on.
abbrev Ends : List Lock → List Lock → (size : ℕ) → List Lock → (src dst : ℕ) → Type 0
Ends pre todo size cells src dst =
    (rest : List Lock) × (drop_loop (length todo) cells src dst
      ≡ (pre ++ (filter is_used todo ++ rest), dst + length (filter is_used todo)))
    × (length (filter is_used todo) + length rest ≡ size)

-- The loop with `pre` compacted, `mid` already looked at, and `todo` to look at.
drop_loop-Ends :
    (pre mid todo tail cells : List Lock) (src dst : ℕ)
    → cells ≡ pre ++ (mid ++ (todo ++ tail))
    → dst ≡ length pre
    → src ≡ length pre + length mid
    → Ends pre todo (length mid + length todo + length tail) cells src dst
unfolding drop_loop
drop_loop-Ends pre mid [] tail cells src dst hc hd hs = (
  mid ++ tail,
  rw hc (ap (λ d. (pre ++ (mid ++ tail), d)) (omega arith)),
  omega (arith, length-append mid tail),
)
drop_loop-Ends pre mid (x ∷ todo) tail cells src dst hc hd hs =
    elim (Bool-cases (lock_is_unused x)) [
      | inl e ↦
          let (rest, ends, size) =
            drop_loop-Ends pre (mid ++ (x ∷ [])) todo tail cells (src + 1) dst
              (hc ∙ ap (λ ys. pre ++ ys) (sym (append_assoc mid (x ∷ []) (todo ++ tail)))) hd
              (omega (arith, length-append mid (x ∷ []))) in
          (
            rest,
            drop_loop-skipped (length todo) cells src dst x here e ∙ rw e ends,
            rw e (omega (arith, length-append mid (x ∷ []))),
          )
      | inr e ↦ elim (List-cases mid) [
        | inl em ↦
            let (rest, ends, size) =
              drop_loop-Ends (pre ++ (x ∷ [])) [] todo tail cells (src + 1) (dst + 1)
                (hc
                  ∙ ap (λ m. pre ++ (m ++ (x ∷ (todo ++ tail)))) em
                  ∙ sym (append_assoc pre (x ∷ []) (todo ++ tail)))
                (omega (arith, length-append pre (x ∷ [])))
                (omega (arith, ap length em, length-append pre (x ∷ []))) in
            (
              rest,
              drop_loop-kept (length todo) cells src dst x here e (omega (arith, ap length em))
                  ∙ rw e (ends ∙ joined pre x dst (filter is_used todo) rest),
              rw e (omega (arith, ap length em)),
            )
        | inr w ↦
            let ys = w.1 in
            let (rest, ends, size) =
              drop_loop-Ends (pre ++ (x ∷ [])) (ys ++ (x ∷ [])) todo tail (set cells dst x)
                (src + 1) (dst + 1)
                (ap (λ c. set c dst x) (hc ∙ ap (λ m. pre ++ (m ++ (x ∷ (todo ++ tail)))) w.2)
                  ∙ set-gap pre x w.0 ys (todo ++ tail) dst hd)
                (omega (arith, length-append pre (x ∷ [])))
                (omega
                  (arith, ap length w.2, length-append pre (x ∷ []), length-append ys (x ∷ []))) in
            (
              rest,
              drop_loop-moved (length todo) cells src dst x here e (omega (arith, ap length w.2))
                  ∙ rw e (ends ∙ joined pre x dst (filter is_used todo) rest),
              rw e (omega (arith, ap length w.2, length-append ys (x ∷ []))),
            )
      ]
    ]
  where
    here : get_or cells src (lock_init (pos 0)) ≡ x
    here =
        ap (λ c. get_or c src (lock_init (pos 0))) hc
        ∙ get_or-append_right pre (mid ++ (x ∷ (todo ++ tail))) (length mid) src (lock_init (pos 0))
            hs
        ∙ get_or-at mid x (todo ++ tail) (lock_init (pos 0))

-- The loop on the whole array.
drop_loop_all :
    (n : ℕ) (cells : List Lock)
    → n ≤ length cells
    → (rest : List Lock) × (drop_loop n cells 0 0
        ≡ (filter is_used (take n cells) ++ rest, length (filter is_used (take n cells))))
      × (length (filter is_used (take n cells)) + length rest ≡ length cells)
drop_loop_all n cells le =
    let (rest, ends, size) =
      drop_loop-Ends [] [] (take n cells) (drop n cells) cells 0 0 (sym (take-append-drop n cells))
        refl refl in
    let e : length (take n cells) ≡ n = omega (arith, length-take n cells) in
    (
      rest,
      ap (λ k. drop_loop k cells 0 0) (sym e)
          ∙ ends
          ∙ ap (λ d. (filter is_used (take n cells) ++ rest, d)) (omega arith),
      omega (arith, e, size, length-drop n cells),
    )

-- lock_array_drop_unused keeps the locks in use, in their order, and no other, and the array stays
-- well-formed.
pub lock_array_drop_unused_lem :
    (lk_arr : LockArray)
    → IsWellFormed lk_arr
    → (used (lock_array_drop_unused lk_arr) ≡ filter is_used (used lk_arr))
      × IsWellFormed (lock_array_drop_unused lk_arr)
unfolding lock_array_drop_unused
lock_array_drop_unused_lem lk_arr wf =
    let n = lk_arr.num_used in
    let kept = filter is_used (used lk_arr) in
    let (rest, ends, size) =
      drop_loop_all n lk_arr.sorted_array (omega (arith, wf.memory, wf.room)) in
    let same : take (n + length kept - n) (kept ++ rest) ≡ kept =
      ap (λ k. take k (kept ++ rest)) (omega arith) ∙ take-length-append kept rest in
    rw ends (
      same,
      record {
        memory = omega (arith, length-append kept rest, size, wf.memory);
        room = omega (
          arith,
          length-filter is_used (used lk_arr),
          length-take n lk_arr.sorted_array,
          wf.room,
        );
        sorted = rw same (Increasing-filter Lock.key is_used (used lk_arr) wf.sorted);
      },
    )
