-- ===== src/Referee/Timeouts/Link.antt =====
-- The links that insert_list_node_after changes.
use mmlib.Base.{ℕ, ◌≡◌, ◌≢◌, refl, ap, subst, sym, ◌∙◌, Option, none, some, arith}
use mmlib.Referee.Timeouts.{Heap, set_prev, set_next, link_back, insert_list_node_after}
use mmlib.Referee.Timeouts.Detach.{
  set_prev-next, set_prev-other, set_next-prev, set_next-other, set_next-same, some_inj,
}

set_prev-same : (heap : Heap) (a : ℕ) (v : Option ℕ) → (set_prev heap a v a).prev ≡ v
unfolding set_prev
set_prev-same heap a v = ground arith

-- What insert_list_node_after changes.
abbrev pub Inserted : Heap → (n a : ℕ) → Heap → Type 0
Inserted heap n a after =
    ((after a).next ≡ some n)
    × ((after n).prev ≡ some a)
    × ((after n).next ≡ (heap a).next)
    × ((m : ℕ) → m ≢ n → m ≢ a → (after m).next ≡ (heap m).next)
    × ((m : ℕ) → m ≢ n → (heap a).next ≢ some m → (after m).prev ≡ (heap m).prev)
    × ((y : ℕ) → (heap a).next ≡ some y → (after y).prev ≡ some n)

module _ (heap : Heap) (n a : ℕ) (other : a ≢ n) where
  -- The new node, linked on its side.
  abbrev linked : Heap
  linked = set_next (set_prev heap n (some a)) n (heap a).next

  linked-next : (m : ℕ) → m ≢ n → (linked m).next ≡ (heap m).next
  linked-next m h =
      set_next-other (set_prev heap n (some a)) n (heap a).next m h
      ∙ set_prev-next heap n (some a) m

  linked-prev : (m : ℕ) → m ≢ n → (linked m).prev ≡ (heap m).prev
  linked-prev m h =
      set_next-prev (set_prev heap n (some a)) n (heap a).next m
      ∙ set_prev-other heap n (some a) m h

  linked_prev-same : (linked n).prev ≡ some a
  linked_prev-same =
      set_next-prev (set_prev heap n (some a)) n (heap a).next n ∙ set_prev-same heap n (some a)

  linked_next-same : (linked n).next ≡ (heap a).next
  linked_next-same = set_next-same (set_prev heap n (some a)) n (heap a).next

  link_back-Inserted :
      (next : Option ℕ)
      → (heap a).next ≡ next
      → next ≢ some n
      → Inserted heap n a (set_next (link_back linked next n) a (some n))
  link_back-Inserted none e apart = (
    set_next-same linked a (some n),
    set_next-prev linked a (some n) n ∙ linked_prev-same,
    set_next-other linked a (some n) n (λ q. other (sym q)) ∙ linked_next-same,
    λ m h k. set_next-other linked a (some n) m k ∙ linked-next m h,
    λ m h k. set_next-prev linked a (some n) m ∙ linked-prev m h,
    λ y q. ground (arith, e, q),
  )
  link_back-Inserted (some y) e apart =
      let back = set_prev linked y (some n) in
      (
        set_next-same back a (some n),
        set_next-prev back a (some n) n
            ∙ set_prev-other linked y (some n) n (λ q. apart (ap some (sym q)))
            ∙ linked_prev-same,
        set_next-other back a (some n) n (λ q. other (sym q))
            ∙ set_prev-next linked y (some n) n
            ∙ linked_next-same,
        λ m h k.
            set_next-other back a (some n) m k
            ∙ set_prev-next linked y (some n) m
            ∙ linked-next m h,
        λ m h k.
            set_next-prev back a (some n) m
            ∙ set_prev-other linked y (some n) m (λ q. k (e ∙ ap some (sym q)))
            ∙ linked-prev m h,
        λ z q.
            set_next-prev back a (some n) z
            ∙ subst (λ w. (set_prev linked y (some n) w).prev ≡ some n) (some_inj (sym e ∙ q))
                (set_prev-same linked y (some n)),
      )

  pub insert_list_node_after-Inserted :
      (heap a).next ≢ some n → Inserted heap n a (insert_list_node_after heap n a)
  unfolding insert_list_node_after
  insert_list_node_after-Inserted apart =
      rw (linked-next a other) (link_back-Inserted (heap a).next refl apart)
