-- ===== src/CursorList/Links.antt =====
-- The links of the list of cursors, and what `ins` and `del` do to the cursors that `iter` goes over.
use naive_fs.Base.{
  ℕ, zero, suc, ◌≤◌, ◌<◌, ◌≡◌, ◌≢◌, ◌⊎◌, inl, inr, refl, sym, ap, ◌∙◌, true, false, ◌==◌, arith,
  Option, none, some, List, [], ◌∷◌, ◌++◌, map,
}
use naive_fs.CursorList.{
  ListNode, Heap, CursorList, set_node, set_prev, back_link, sized, cut_node, cut, del_node, del,
  iter_from, iter,
}

-- From a link on stand these nodes, with these values, each older than top and the one before it.
abbrev pub Chain : Heap → ℕ → ℕ → Option ℕ → List (ℕ × ℕ) → Type 0
Chain heap top p o [] = o ≡ none
Chain heap top p o ((a, v) ∷ xs) =
    (o ≡ some a)
    × (0 < a)
    × (a < top)
    × ((n : ListNode) × ((heap a ≡ some n)
          × ((n.value ≡ v) × ((n.prev ≡ some p) × Chain heap a a n.next xs))))

-- The list has these nodes and values.
abbrev pub Holds : List (ℕ × ℕ) → CursorList → Type 0
Holds xs l =
    (0 < l.size) × ((h : ListNode) × ((l.heap 0 ≡ some h) × Chain l.heap l.size 0 h.next xs))

pub Chain-frame :
    (heap heap' : Heap) (top p : ℕ) (o : Option ℕ) (xs : List (ℕ × ℕ))
    → ((b : ℕ) → 0 < b → b < top → heap' b ≡ heap b)
    → Chain heap top p o xs
    → Chain heap' top p o xs
Chain-frame heap heap' top p o [] same c = c
Chain-frame heap heap' top p o ((a, v) ∷ xs) same (e, z, t, (n, (r, (q, (s, c))))) = (
  e,
  z,
  t,
  (
    n,
    (
      same a z t ∙ r,
      (q, (s, Chain-frame heap heap' a a n.next xs (λ b y l. same b y (omega arith)) c)),
    ),
  ),
)

pub Chain-cons :
    (heap : Heap) (top p : ℕ) (o : Option ℕ) (a v : ℕ) (xs : List (ℕ × ℕ)) (n : ListNode)
    → (o ≡ some a) × (0 < a) × (a < top)
    → heap a ≡ some n
    → (n.value ≡ v) × (n.prev ≡ some p)
    → Chain heap a a n.next xs
    → Chain heap top p o ((a, v) ∷ xs)
Chain-cons heap top p o a v xs n (e, z, t) r (g, s) c = (e, z, t, (n, (r, (g, (s, c)))))

pub set_node-ne :
    (heap : Heap) (a : ℕ) (n : Option ListNode) (b : ℕ) → a ≢ b → set_node heap a n b ≡ heap b
set_node-ne heap a n b ne = let t : (a == b) ≡ false = ground arith in rw t refl

pub set_node_self : (heap : Heap) (a : ℕ) (n : Option ListNode) → set_node heap a n a ≡ n
set_node_self heap a n = let t : (a == a) ≡ true = ground arith in rw t refl

-- What `del` makes of the links from q on.
abbrev Deleted : Heap → ℕ → ℕ → ListNode → List (ℕ × ℕ) → Option Heap → Type 0
Deleted heap top q m xs none = ⊥
Deleted heap top q m xs (some heap') =
    ((m' : ListNode) × ((heap' q ≡ some m')
        × ((m'.value ≡ m.value) × ((m'.prev ≡ m.prev) × Chain heap' top q m'.next xs))))
    × ((b : ℕ) → b ≢ q → ¬ ((0 < b) × (b < top)) → heap' b ≡ heap b)

-- The first node is deleted.
del_first :
    (heap : Heap) (top q : ℕ) (m : ListNode) (a v : ℕ) (zs : List (ℕ × ℕ))
    → heap q ≡ some m
    → (q ≡ 0) ⊎ (top ≤ q)
    → Chain heap top q m.next ((a, v) ∷ zs)
    → Deleted heap top q m zs (del_node heap a (heap a))
del_first heap top q m a v [] at out (e, z, t, (n, (r, (_, (s, c))))) =
    let ne : a ≢ q =
      λ w. elim out [ inl u ↦ omega (arith, u, w, z) | inr u ↦ omega (arith, u, w, t) ] in
    let m' : ListNode = record m { next = none } in
    rw (r, c, s, at)
      (
        (
          m',
          (
            set_node-ne (set_node heap q (some m')) a none q ne ∙ set_node_self heap q (some m'),
            (refl, (refl, refl)),
          ),
        ),
        λ b nq no.
            set_node-ne (set_node heap q (some m')) a none b
              (λ w. no (omega (arith, w, z), omega (arith, w, t)))
            ∙ set_node-ne heap q (some m') b (λ w. nq (sym w)),
      )
del_first heap top q m a v ((c, u) ∷ zs) at out
      (e, z, t, (n, (r, (_, (s, (d, y, k, (n', (r', (g, (s', rest)))))))))) =
    let qa : a ≢ q =
      λ w. elim out [ inl o ↦ omega (arith, o, w, z) | inr o ↦ omega (arith, o, w, t) ] in
    let qc : c ≢ q =
      λ w. elim out [ inl o ↦ omega (arith, o, w, y) | inr o ↦ omega (arith, o, w, t, k) ] in
    let ac : a ≢ c = λ w. omega (arith, w, k) in
    let m' : ListNode = record m { next = n.next } in
    let c' : ListNode = record n' { prev = some q } in
    let heap1 = set_node heap c (some c') in
    let heap2 = set_node heap1 q (some m') in
    let at1 : heap1 q ≡ some m = set_node-ne heap c (some c') q qc ∙ at in
    let kept : (b : ℕ) → b ≢ q → b ≢ a → b ≢ c → set_node heap2 a none b ≡ heap b = λ b nq na nc.
      set_node-ne heap2 a none b (λ w. na (sym w))
      ∙ set_node-ne heap1 q (some m') b (λ w. nq (sym w))
      ∙ set_node-ne heap c (some c') b (λ w. nc (sym w)) in
    let outside : (b : ℕ) → 0 < b → b < top → b ≢ q =
      λ b l h w. elim out [ inl o ↦ omega (arith, o, w, l) | inr o ↦ omega (arith, o, w, h) ] in
    let step : del_node heap a (heap a) ≡ some (set_node heap2 a none) =
      ap (del_node heap a) r
      ∙ ap (λ x. cut a n.prev n.next (back_link heap x n.prev)) d
      ∙ ap (λ x. cut a n.prev n.next (set_prev heap c n.prev x)) r'
      ∙ ap (λ x. cut a x n.next (set_prev heap c x (some n'))) s
      ∙ ap (cut_node a q n.next heap1) at1 in
    rw step (
      (
        m',
        (
          set_node-ne heap2 a none q qa ∙ set_node_self heap1 q (some m'),
          (
            refl,
            (
              refl,
              Chain-cons (set_node heap2 a none) top q n.next c u zs c' (d, y, omega (arith, k, t))
                  (set_node-ne heap2 a none c ac
                    ∙ set_node-ne heap1 q (some m') c (λ w. qc (sym w))
                    ∙ set_node_self heap c (some c'))
                  (g, refl)
                  (Chain-frame heap (set_node heap2 a none) c c n'.next zs
                    (λ b l h.
                      kept b (outside b l (omega (arith, h, k, t))) (λ w. omega (arith, w, h, k))
                        (λ w. omega (arith, w, h)))
                    rest),
            ),
          ),
        ),
      ),
      λ b nq no.
          kept b nq (λ w. no (omega (arith, w, z), omega (arith, w, t)))
            (λ w. no (omega (arith, w, y), omega (arith, w, k, t))),
    )

Deleted-cons :
    (heap : Heap) (top q : ℕ) (m : ListNode) (b u : ℕ) (n : ListNode) (xs : List (ℕ × ℕ))
    (o : Option Heap)
    → heap q ≡ some m
    → (q ≡ 0) ⊎ (top ≤ q)
    → (m.next ≡ some b) × (0 < b) × (b < top)
    → (n.value ≡ u) × (n.prev ≡ some q)
    → Deleted heap b b n xs o
    → Deleted heap top q m ((b, u) ∷ xs) o
Deleted-cons heap top q m b u n xs none at out (e, z, t) (g, s) d = d
Deleted-cons heap top q m b u n xs (some heap') at out (e, z, t) (g, s)
      ((n', (r, (v, (p, c)))), same) =
    let nb : q ≢ b =
      λ w. elim out [ inl o ↦ omega (arith, o, w, z) | inr o ↦ omega (arith, o, w, t) ] in
    let nq : ¬ ((0 < q) × (q < b)) =
      λ w. elim out [ inl o ↦ omega (arith, o, w.0) | inr o ↦ omega (arith, o, w.1, t) ] in
    (
      (m, (same q nb nq ∙ at, (refl, (refl, (e, z, t, (n', (r, (v ∙ g, (p ∙ s, c))))))))),
      λ x nx no.
          same x (λ w. no (omega (arith, w, z), omega (arith, w, t)))
            (λ w. no (w.0, omega (arith, w.1, t))),
    )

del_node-Deleted :
    (heap : Heap) (top q : ℕ) (m : ListNode) (ys : List (ℕ × ℕ)) (a v : ℕ) (zs : List (ℕ × ℕ))
    → heap q ≡ some m
    → (q ≡ 0) ⊎ (top ≤ q)
    → Chain heap top q m.next (ys ++ ((a, v) ∷ zs))
    → Deleted heap top q m (ys ++ zs) (del_node heap a (heap a))
del_node-Deleted heap top q m [] a v zs at out c = del_first heap top q m a v zs at out c
del_node-Deleted heap top q m ((b, u) ∷ ys) a v zs at out (e, z, t, (n, (r, (g, (s, c))))) =
    Deleted-cons heap top q m b u n (ys ++ zs) (del_node heap a (heap a)) at out (e, z, t) (g, s)
      (del_node-Deleted heap b b n ys a v zs r (inr (omega arith)) c)

iter_from-Chain :
    (fuel : ℕ) (heap : Heap) (top p : ℕ) (o : Option ℕ) (xs : List (ℕ × ℕ))
    → top ≤ fuel
    → Chain heap top p o xs
    → iter_from fuel heap o ≡ map (λ x. x.1) xs
unfolding iter_from
iter_from-Chain zero heap top p o [] h c = refl
iter_from-Chain (suc fuel) heap top p o [] h c = rw c refl
iter_from-Chain zero heap top p o ((a, v) ∷ xs) h (_, _, t, _) = absurd (omega (arith, h, t))
iter_from-Chain (suc fuel) heap top p o ((a, v) ∷ xs) h (e, z, t, (n, (r, (g, (_, c))))) =
    rw (e, r, g) (ap (λ l. v ∷ l) (iter_from-Chain fuel heap a a n.next xs (omega (arith, h, t)) c))

-- The list with these nodes, over whose values `iter` goes in order.
abbrev pub Lists : List (ℕ × ℕ) → Option CursorList → Type 0
Lists xs none = ⊥
Lists xs (some l) = Holds xs l × (iter l ≡ map (λ x. x.1) xs)

pub Holds-iter : (xs : List (ℕ × ℕ)) (l : CursorList) → Holds xs l → iter l ≡ map (λ x. x.1) xs
unfolding iter
Holds-iter xs l (_, (h, (r, c))) =
    rw r (iter_from-Chain l.size l.heap l.size 0 h.next xs (omega arith) c)

sized-Lists :
    (size : ℕ) (heap : Heap) (h : ListNode) (xs : List (ℕ × ℕ)) (o : Option Heap)
    → 0 < size
    → Deleted heap size 0 h xs o
    → Lists xs (sized size o)
sized-Lists size heap h xs none p d = d
sized-Lists size heap h xs (some heap') p ((m, (r, (_, (_, c)))), _) =
    let held : Holds xs (record { size = size; heap = heap' }) = (p, (m, (r, c))) in
    (held, Holds-iter xs (record { size = size; heap = heap' }) held)

pub del-Lists :
    (l : CursorList) (ys : List (ℕ × ℕ)) (a v : ℕ) (zs : List (ℕ × ℕ))
    → Holds (ys ++ ((a, v) ∷ zs)) l
    → Lists (ys ++ zs) (del l a)
unfolding del
del-Lists l ys a v zs (p, (h, (r, c))) =
    sized-Lists l.size l.heap h (ys ++ zs) (del_node l.heap a (l.heap a)) p
      (del_node-Deleted l.heap l.size 0 h ys a v zs r (inl refl) c)
