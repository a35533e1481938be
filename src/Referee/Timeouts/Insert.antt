-- ===== src/Referee/Timeouts/Insert.antt =====
-- That timeout_list_add_waiter puts a node into its list in order.
use mmlib.Base.{
  ℕ, zero, suc, ◌<◌, ◌≡◌, ◌≢◌, refl, ap, subst, sym, ◌∙◌, inl, inr, true, false, Bool-cases, some,
  List, [], ◌∷◌, ◌++◌, arith, length, All,
}
use mmlib.Base.Int.{pos, ltb_ℤ}
use mmlib.Time.{Timespec, mm_timediff_ns}
use mmlib.Referee.Timeouts.{Heap, insert_list_node_after, find_place, timeout_list_add_waiter}
use mmlib.Referee.Timeouts.Detach.{Chain, Distinct, some_inj}
use mmlib.Referee.Timeouts.Link.{Inserted, insert_list_node_after-Inserted}

-- The last of some nodes behind another one.
abbrev last : ℕ → List ℕ → ℕ
last a [] = a
last a (x ∷ xs) = last x xs

-- A chain depends on its nodes alone.
Chain-frame :
    (heap after : Heap) (a : ℕ) (ys : List ℕ)
    → Chain heap a ys
    → All (λ m. (after m).next ≡ (heap m).next) (a ∷ ys)
    → All (λ m. (after m).prev ≡ (heap m).prev) ys
    → Chain after a ys
Chain-frame heap after a [] end (h, _) _ = h ∙ end
Chain-frame heap after a (y ∷ ys) (next, prev, rest) (h, hs) (k, ks) =
    (h ∙ next, k ∙ prev, Chain-frame heap after y ys rest hs ks)

All-both :
    (P Q R : ℕ → Type 0) (xs : List ℕ)
    → ((m : ℕ) → P m → Q m → R m)
    → All P xs
    → All Q xs
    → All R xs
All-both P Q R [] f _ _ = tt
All-both P Q R (x ∷ xs) f (p, ps) (q, qs) = (f x p q, All-both P Q R xs f ps qs)

All-left : (P : ℕ → Type 0) (xs ys : List ℕ) → All P (xs ++ ys) → All P xs
All-left P [] ys _ = tt
All-left P (x ∷ xs) ys (p, h) = (p, All-left P xs ys h)

All-last : (P : ℕ → Type 0) (x : ℕ) (xs : List ℕ) → All P (x ∷ xs) → P (last x xs)
All-last P x [] (p, _) = p
All-last P x (y ∷ xs) (p, h) = All-last P y xs h

-- The node behind the last one is none of those that all behind are apart from.
next-apart :
    (heap : Heap) (w x : ℕ) (xs ys : List ℕ)
    → Chain heap x (xs ++ ys)
    → All (λ m. w ≢ m) (xs ++ ys)
    → (heap (last x xs)).next ≢ some w
next-apart heap w x [] [] end _ q = ground (arith, end, q)
next-apart heap w x [] (y ∷ ys) (next, prev, rest) (h, _) q = h (some_inj (sym q ∙ next))
next-apart heap w x (z ∷ xs) ys (next, prev, rest) (_, h) q = next-apart heap w z xs ys rest h q

module _ (heap after : Heap) (n a : ℕ) (ends : Inserted heap n a after) where
  -- Behind the new node.
  tail-Chain :
      (ys : List ℕ)
      → Chain heap a ys
      → All (λ m. m ≢ n) ys
      → All (λ m. m ≢ a) ys
      → Distinct ys
      → Chain after n ys
  tail-Chain [] end _ _ _ = ends.2 ∙ end
  tail-Chain (y ∷ ys) (next, prev, rest) (h, hs) (k, ks) (d, ds) = (
    ends.2 ∙ next,
    ends.5 y next,
    Chain-frame heap after y ys rest
        (
          ends.3 y h k,
          All-both (λ m. m ≢ n) (λ m. m ≢ a) (λ m. (after m).next ≡ (heap m).next) ys ends.3 hs ks,
        )
        (All-both (λ m. m ≢ n) (λ m. y ≢ m) (λ m. (after m).prev ≡ (heap m).prev) ys
          (λ m hm dm. ends.4 m hm (λ q. dm (some_inj (sym next ∙ q)))) hs d),
  )

  insert-Chain :
      (head : ℕ) (xs ys : List ℕ)
      → last head xs ≡ a
      → Chain heap head (xs ++ ys)
      → All (λ m. m ≢ n) (head ∷ (xs ++ ys))
      → Distinct (head ∷ (xs ++ ys))
      → Chain after head (xs ++ (n ∷ ys))
  insert-Chain head [] ys e chain (h, hs) (d, ds) = (
    subst (λ q. (after q).next ≡ some n) (sym e) ends.0,
    ends.1 ∙ ap some (sym e),
    tail-Chain ys (subst (λ q. Chain heap q ys) e chain) hs
        (All-both (λ m. head ≢ m) (λ m. m ≢ n) (λ m. m ≢ a) ys (λ m p _ q. p (e ∙ sym q)) d hs) ds,
  )
  insert-Chain head (x ∷ xs) ys e (next, prev, rest) (h, hs) (d, ds) = (
    ends.3 head h
          (λ q. All-last (λ m. head ≢ m) x xs (All-left (λ m. head ≢ m) (x ∷ xs) ys d) (q ∙ sym e))
        ∙ next,
    ends.4 x hs.0 (subst (λ q. (heap q).next ≢ some x) e (next-apart heap x x xs ys rest ds.0))
        ∙ prev,
    insert-Chain x xs ys e rest hs ds,
  )

module _ (heap : Heap) (wait_timeout : ℕ → Timespec) (timeout : Timespec) where
  -- The timeout is before that of a node's thread.
  abbrev pub IsBefore : ℕ → Type 0
  IsBefore m = ltb_ℤ (mm_timediff_ns timeout (wait_timeout m)) (pos 0) ≡ true

  abbrev pub IsNotBefore : ℕ → Type 0
  IsNotBefore m = ltb_ℤ (mm_timediff_ns timeout (wait_timeout m)) (pos 0) ≡ false

  abbrev pub FirstIsBefore : List ℕ → Type 0
  FirstIsBefore [] = Unit
  FirstIsBefore (y ∷ ys) = IsBefore y

  find_place_lem :
      (fuel node : ℕ) (ns : List ℕ)
      → Chain heap node ns
      → length ns < fuel
      → (xs ys : List ℕ) × (ns ≡ xs ++ ys)
        × (find_place fuel heap wait_timeout timeout node ≡ some (last node xs))
        × All IsNotBefore xs
        × FirstIsBefore ys
  unfolding find_place
  find_place_lem zero node ns chain h = absurd (omega arith)
  find_place_lem (suc fuel) node [] end h = ([], [], refl, rw (end, find_place) refl, tt, tt)
  find_place_lem (suc fuel) node (n ∷ ns) (next, prev, rest) h =
      elim (Bool-cases (ltb_ℤ (mm_timediff_ns timeout (wait_timeout n)) (pos 0))) [
        | inl e ↦ ([], n ∷ ns, refl, rw (next, find_place, e) refl, tt, e)
        | inr e ↦
            let (xs, ys, parts, found, passed, first) =
              find_place_lem fuel n ns rest (omega arith) in
            (
              n ∷ xs,
              ys,
              ap (λ zs. n ∷ zs) parts,
              rw (next, find_place, e) found,
              (e, passed),
              first,
            )
      ]

-- With fuel above the length of the list, timeout_list_add_waiter ends, and puts a thread that is not in
-- the list between nodes of which the former have no later timeout and the next one, if there is one, has
-- a later one; the links forth and back lead along all of them.
pub timeout_list_add_waiter-Chain :
    (fuel : ℕ) (heap : Heap) (wait_timeout : ℕ → Timespec) (tc : ℕ) (ns : List ℕ)
    → Chain heap 0 ns
    → Distinct (0 ∷ ns)
    → All (λ m. m ≢ tc) (0 ∷ ns)
    → length ns < fuel
    → (xs ys : List ℕ) × (after : Heap) × (ns ≡ xs ++ ys)
      × (timeout_list_add_waiter fuel heap wait_timeout tc ≡ some after)
      × Chain after 0 (xs ++ (tc ∷ ys))
      × All (IsNotBefore heap wait_timeout (wait_timeout tc)) xs
      × FirstIsBefore heap wait_timeout (wait_timeout tc) ys
unfolding timeout_list_add_waiter
timeout_list_add_waiter-Chain fuel heap wait_timeout tc ns chain d apart h =
    let (xs, ys, parts, found, passed, first) =
      find_place_lem heap wait_timeout (wait_timeout tc) fuel 0 ns chain h in
    let a = last 0 xs in
    let split : Chain heap 0 (xs ++ ys) = subst (λ zs. Chain heap 0 zs) parts chain in
    let aparts : All (λ m. m ≢ tc) (0 ∷ (xs ++ ys)) =
      subst (λ zs. All (λ m. m ≢ tc) (0 ∷ zs)) parts apart in
    let other : a ≢ tc = All-last (λ m. m ≢ tc) 0 xs (All-left (λ m. m ≢ tc) (0 ∷ xs) ys aparts) in
    let next : (heap a).next ≢ some tc = next-apart heap tc 0 xs ys split (
      All-both (λ m. m ≢ tc) (λ m. m ≢ tc) (λ m. tc ≢ m) (xs ++ ys) (λ m p _ q. p (sym q)) aparts.1
        aparts.1) in
    let after = insert_list_node_after heap tc a in
    (
      xs,
      ys,
      after,
      parts,
      rw (found, timeout_list_add_waiter) refl,
      insert-Chain heap after tc a (insert_list_node_after-Inserted heap tc a other next) 0 xs ys
          refl split aparts (subst (λ zs. Distinct (0 ∷ zs)) parts d),
      passed,
      first,
    )
