-- ===== src/Argparse/Find/Match.antt =====
-- Which option the search finds.
use mmlib.Base.{
  ℕ, zero, suc, ◌≤◌, ◌≡◌, ap, ◌≢◌, ◌↔◌, inl, inr, true, false, Bool-cases, some, List, [], ◌∷◌,
  ◌++◌, arith, ◌==◌, ◌&&◌, length, take, All,
}
use mmlib.Base.CString.{Bytes, nul, char_at}
use mmlib.Argparse.Opt.{Opt, mm_arg_opt_get_name}
use mmlib.Argparse.Run.{user}
use mmlib.Argparse.Find.{strn_eq, match_opt_key_or_name, find_opt}

abbrev NoNul : Bytes → Type 0
NoNul = All (λ c. c ≢ nul)

-- A string equals the `n` first bytes of another one exactly if the comparison of `n` bytes finds no
-- difference and the string ends there.
strn_eq_iff :
    (n : ℕ) (s t : Bytes)
    → n ≤ length t
    → NoNul s
    → NoNul t
    → ((strn_eq n s t && char_at s n == nul) ≡ true) ↔ (s ≡ take n t)
unfolding strn_eq
strn_eq_iff zero [] t le hs ht = ground arith
strn_eq_iff zero (c ∷ s) t le (hc, hs) ht = ground arith
strn_eq_iff (suc n) [] [] le hs ht = absurd (omega arith)
strn_eq_iff (suc n) [] (d ∷ t) le hs ht = ground arith
strn_eq_iff (suc n) (c ∷ s) [] le hs ht = absurd (omega arith)
strn_eq_iff (suc n) (c ∷ s) (d ∷ t) le (hc, hs) (hd, ht) =
    ground (arith, strn_eq_iff n s t (omega arith) hs ht)

-- A long name matches an option exactly if it is the long name of the option.
match-name_iff :
    (opt : Opt) (opt_name name : Bytes) (namelen : ℕ)
    → mm_arg_opt_get_name opt ≡ some opt_name
    → namelen ≤ length name
    → All (λ c. c ≢ nul) opt_name
    → All (λ c. c ≢ nul) name
    → (match_opt_key_or_name opt 0 name namelen ≡ true) ↔ (opt_name ≡ take namelen name)
unfolding match_opt_key_or_name
match-name_iff opt opt_name name namelen named le ho hn =
    rw named (strn_eq_iff namelen opt_name name le ho hn)

-- An option of the configuration that is found matches, and none before it does.
find_opt-first :
    (optv : List Opt) (key : ℕ) (name : Bytes) (namelen : ℕ) (opt : Opt)
    → find_opt optv key name namelen ≡ some (user opt)
    → (before after : List Opt) × (optv ≡ before ++ opt ∷ after)
      × All (λ o. match_opt_key_or_name o key name namelen ≡ false) before
      × (match_opt_key_or_name opt key name namelen ≡ true)
unfolding find_opt
find_opt-first [] key name namelen opt found = absurd (ground arith)
find_opt-first (o ∷ optv) key name namelen opt found =
    elim (Bool-cases (match_opt_key_or_name o key name namelen)) [
      | inl hit ↦ ([], optv, ground arith, tt, ground arith)
      | inr miss ↦
          let (before, after, e, none', hit) =
            find_opt-first optv key name namelen opt (ground arith) in
          (o ∷ before, after, ap (λ l. o ∷ l) e, (miss, none'), hit)
    ]
