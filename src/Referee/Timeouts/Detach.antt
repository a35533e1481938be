-- ===== src/Referee/Timeouts/Detach.antt =====
-- What detach_list_node does to the list that the node is in.
use mmlib.Base.{
  ℕ, ◌≡◌, ◌≢◌, refl, ap, subst, sym, ◌∙◌, Option, none, some, List, [], ◌∷◌, ◌++◌, arith, All,
}
use mmlib.Referee.Timeouts.{Heap, set_prev, set_next, detach_next, detach_prev, detach_list_node}

-- The links from a node on lead along these nodes, forth and back, to NULL.
abbrev pub Chain : Heap → ℕ → List ℕ → Type 0
Chain heap node [] = (heap node).next ≡ none
Chain heap node (n ∷ nodes) =
    ((heap node).next ≡ some n) × ((heap n).prev ≡ some node) × Chain heap n nodes

module _ (heap : Heap) (a : ℕ) (v : Option ℕ) (m : ℕ) where
  pub set_prev-next : (set_prev heap a v m).next ≡ (heap m).next
  unfolding set_prev
  set_prev-next = ground arith

  pub set_prev-other : m ≢ a → (set_prev heap a v m).prev ≡ (heap m).prev
  unfolding set_prev
  set_prev-other h = ground arith

  pub set_next-prev : (set_next heap a v m).prev ≡ (heap m).prev
  unfolding set_next
  set_next-prev = ground arith

  pub set_next-other : m ≢ a → (set_next heap a v m).next ≡ (heap m).next
  unfolding set_next
  set_next-other h = ground arith

pub set_next-same : (heap : Heap) (a : ℕ) (v : Option ℕ) → (set_next heap a v a).next ≡ v
unfolding set_next
set_next-same heap a v = ground arith

module _ (heap : Heap) (n : ℕ) where
  detach_next-none : (heap n).next ≡ none → detach_next heap n ≡ heap
  unfolding detach_next
  detach_next-none e = rw (e, detach_next) refl

  detach_next-some :
      (y : ℕ)
      → (heap n).next ≡ some y
      → detach_next heap n ≡ set_next (set_prev heap y (heap n).prev) n none
  unfolding detach_next
  detach_next-some y e = rw (e, detach_next) refl

  detach_prev-some :
      (p : ℕ)
      → (heap n).prev ≡ some p
      → detach_prev heap n ≡ set_prev (set_next heap p (heap n).next) n none
  unfolding detach_prev
  detach_prev-some p e = rw (e, detach_prev) refl

-- What the first `if` changes: the node loses its next node, which gets another previous one.
abbrev FirstEnds : Heap → ℕ → Heap → Type 0
FirstEnds heap n after =
    ((after n).next ≡ none)
    × ((after n).prev ≡ (heap n).prev)
    × ((m : ℕ) → m ≢ n → (after m).next ≡ (heap m).next)
    × ((m : ℕ) → m ≢ n → (heap n).next ≢ some m → (after m).prev ≡ (heap m).prev)

detach_next-FirstEnds :
    (heap : Heap) (n : ℕ) (next : Option ℕ)
    → (heap n).next ≡ next
    → next ≢ some n
    → FirstEnds heap n (detach_next heap n)
detach_next-FirstEnds heap n none e self =
    rw (detach_next-none heap n e) (e, refl, λ m h. refl, λ m h k. refl)
detach_next-FirstEnds heap n (some y) e self =
    let heap_y = set_prev heap y (heap n).prev in
    rw (detach_next-some heap n y e) (
      set_next-same heap_y n none,
      set_next-prev heap_y n none n
          ∙ set_prev-other heap y (heap n).prev n (λ q. self (ap some (sym q))),
      λ m h. set_next-other heap_y n none m h ∙ set_prev-next heap y (heap n).prev m,
      λ m h k.
          set_next-prev heap_y n none m
          ∙ set_prev-other heap y (heap n).prev m (λ q. k (e ∙ ap some (sym q))),
    )

-- What detach_list_node changes: the node before the detached one loses its next node.
abbrev Ends : Heap → (n p : ℕ) → Heap → Type 0
Ends heap n p after =
    ((after p).next ≡ none)
    × ((m : ℕ) → m ≢ n → m ≢ p → (after m).next ≡ (heap m).next)
    × ((m : ℕ) → m ≢ n → (heap n).next ≢ some m → (after m).prev ≡ (heap m).prev)

detach_list_node-Ends :
    (heap : Heap) (n p : ℕ)
    → (heap n).prev ≡ some p
    → (heap n).next ≢ some n
    → p ≢ n
    → Ends heap n p (detach_list_node heap n)
unfolding detach_list_node
detach_list_node-Ends heap n p e self other =
    let (end, same, nexts, prevs) = detach_next-FirstEnds heap n (heap n).next refl self in
    let first = detach_next heap n in
    let second = set_next first p (first n).next in
    rw (detach_prev-some first n p (same ∙ e)) (
      set_prev-next second n none p ∙ set_next-same first p (first n).next ∙ end,
      λ m h k.
          set_prev-next second n none m ∙ set_next-other first p (first n).next m k ∙ nexts m h,
      λ m h k.
          set_prev-other second n none m h ∙ set_next-prev first p (first n).next m ∙ prevs m h k,
    )

pub some_inj : {a b : ℕ} → ◌≡◌ {A = Option ℕ} (some a) (some b) → a ≡ b
some_inj {a} {b} e = ap (λ o. elim o [ none ↦ a | some c ↦ c ]) e

module _ (heap : Heap) (n : ℕ) (ys : List ℕ) where
  -- The node before `n`, in a list that holds `n`.
  before :
      (a : ℕ) (xs : List ℕ)
      → Chain heap a (xs ++ (n ∷ ys))
      → All (λ m. m ≢ n) (a ∷ xs)
      → (p : ℕ) × ((heap n).prev ≡ some p) × ((heap p).next ≡ some n) × (p ≢ n)
  before a [] (next, prev, rest) (h, _) = (a, prev, next, h)
  before a (x ∷ xs) (next, prev, rest) (h, hs) = before x xs rest hs

  next-Chain : (a : ℕ) (xs : List ℕ) → Chain heap a (xs ++ (n ∷ ys)) → Chain heap n ys
  next-Chain a [] (next, prev, rest) = rest
  next-Chain a (x ∷ xs) (next, prev, rest) = next-Chain x xs rest

  cut-Chain :
      (after : Heap) (p : ℕ)
      → Ends heap n p after
      → (heap n).prev ≡ some p
      → (heap p).next ≡ some n
      → (a : ℕ) (xs : List ℕ) → Chain heap a (xs ++ (n ∷ ys))
      → All (λ m. m ≢ n) (a ∷ xs)
      → All (λ m. (heap n).next ≢ some m) xs
      → Chain after a xs
  cut-Chain after p ends ep ep' a [] (next, prev, rest) (h, _) _ =
      subst (λ q. (after q).next ≡ none) (some_inj (sym ep ∙ prev)) ends.0
  cut-Chain after p ends ep ep' a (x ∷ xs) (next, prev, rest) (h, hs) (k, ks) = (
    ends.1 a h (λ q. hs.0 (some_inj (sym next ∙ ap (λ c. (heap c).next) q ∙ ep'))) ∙ next,
    ends.2 x hs.0 k ∙ prev,
    cut-Chain after p ends ep ep' x xs rest hs ks,
  )

-- No node stands twice.
abbrev pub Distinct : List ℕ → Type 0
Distinct [] = Unit
Distinct (x ∷ xs) = All (λ m. x ≢ m) xs × Distinct xs

module _ (P : ℕ → Type 0) where
  All-suffix : (xs ys : List ℕ) → All P (xs ++ ys) → All P ys
  All-suffix [] ys h = h
  All-suffix (x ∷ xs) ys (px, h) = All-suffix xs ys h

  All-imp : (Q : ℕ → Type 0) (xs : List ℕ) → ((m : ℕ) → P m → Q m) → All P xs → All Q xs
  All-imp Q [] f _ = tt
  All-imp Q (x ∷ xs) f (px, h) = (f x px, All-imp Q xs f h)

apart : (zs ws : List ℕ) → Distinct (zs ++ ws) → All (λ m. All (λ w. m ≢ w) ws) zs
apart [] ws _ = tt
apart (z ∷ zs) ws (h, d) = (All-suffix (λ w. z ≢ w) zs ws h, apart zs ws d)

Distinct-suffix : (zs ws : List ℕ) → Distinct (zs ++ ws) → Distinct ws
Distinct-suffix [] ws d = d
Distinct-suffix (z ∷ zs) ws (h, d) = Distinct-suffix zs ws d

module _ (heap : Heap) (head : ℕ) (xs : List ℕ) (n : ℕ) (ys : List ℕ) where
  cuts-apart :
      Chain heap head (xs ++ (n ∷ ys))
      → (heap n).next ≢ some n
      → All (λ m. m ≢ n) (head ∷ xs)
      → All (λ m. (heap n).next ≢ some m) xs
      → Chain (detach_list_node heap n) head xs
  cuts-apart chain self aparts nexts =
      let (p, ep, ep', other) = before heap n ys head xs chain aparts in
      cut-Chain heap n ys (detach_list_node heap n) p (detach_list_node-Ends heap n p ep self other)
        ep ep' head xs chain aparts nexts

-- detach_list_node of a node that others follow cuts these off: the list ends before the node.
pub detach_list_node-cuts :
    (heap : Heap) (head : ℕ) (xs : List ℕ) (n : ℕ) (ys : List ℕ)
    → Chain heap head (xs ++ (n ∷ ys))
    → Distinct ((head ∷ xs) ++ (n ∷ ys))
    → Chain (detach_list_node heap n) head xs
detach_list_node-cuts heap head xs n [] chain d =
    let last = next-Chain heap n [] head xs chain in
    let aparts = apart (head ∷ xs) (n ∷ []) d in
    cuts-apart heap head xs n [] chain (λ q. ground (arith, last, q))
      (All-imp (λ m. All (λ w. m ≢ w) (n ∷ [])) (λ m. m ≢ n) (head ∷ xs) (λ m h. h.0) aparts)
      (All-imp (λ m. All (λ w. m ≢ w) (n ∷ [])) (λ m. (heap n).next ≢ some m) xs
        (λ m h q. ground (arith, last, q)) aparts.1)
detach_list_node-cuts heap head xs n (y ∷ ys) chain d =
    let (next, prev, rest) = next-Chain heap n (y ∷ ys) head xs chain in
    let aparts = apart (head ∷ xs) (n ∷ (y ∷ ys)) d in
    let (first, others) = Distinct-suffix (head ∷ xs) (n ∷ (y ∷ ys)) d in
    cuts-apart heap head xs n (y ∷ ys) chain (λ q. first.0 (some_inj (sym q ∙ next)))
      (All-imp (λ m. All (λ w. m ≢ w) (n ∷ (y ∷ ys))) (λ m. m ≢ n) (head ∷ xs) (λ m h. h.0) aparts)
      (All-imp (λ m. All (λ w. m ≢ w) (n ∷ (y ∷ ys))) (λ m. (heap n).next ≢ some m) xs
        (λ m h q. h.1.0 (some_inj (sym q ∙ next))) aparts.1)
