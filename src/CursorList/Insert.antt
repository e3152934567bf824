-- ===== src/CursorList/Insert.antt =====
-- `ins` and `del` of the list of cursors.
use naive_fs.Base.{ℕ, ◌+◌, ◌<◌, ◌≡◌, ◌≢◌, refl, ap, ◌∙◌, arith, none, some, List, [], ◌∷◌, ◌++◌}
use naive_fs.CursorList.{
  ListNode, Heap, CursorList, new_list, set_node, set_prev, back_link, sized, insert_after, ins,
  del,
}
use naive_fs.CursorList.Links.{
  Chain, Holds, Lists, Chain-frame, Chain-cons, Holds-iter, set_node-ne, set_node_self, del-Lists,
}

pub new_list-Holds : Holds [] new_list
new_list-Holds = (omega arith, (record { value = 0; prev = none; next = none }, (refl, refl)))

-- The heap in which the new node stands between the head and the rest.
abbrev linked : CursorList → ℕ → ListNode → Heap
linked l w h =
    set_node (set_node l.heap l.size (some (record { value = w; prev = some 0; next = h.next }))) 0
      (some (record h { next = some l.size }))

linked_lem :
    (l : CursorList) (w : ℕ) (h : ListNode)
    → 0 < l.size
    → (linked l w h 0 ≡ some (record h { next = some l.size }))
      × (linked l w h l.size ≡ some (record { value = w; prev = some 0; next = h.next }))
      × ((b : ℕ) → 0 < b → b < l.size → linked l w h b ≡ l.heap b)
linked_lem l w h p =
    let made : ListNode = record { value = w; prev = some 0; next = h.next } in
    let heap1 = set_node l.heap l.size (some made) in
    let head = some (record h { next = some l.size }) in
    (
      set_node_self heap1 0 head,
      set_node-ne heap1 0 head l.size (λ e. omega (arith, e, p))
          ∙ set_node_self l.heap l.size (some made),
      λ b z t.
          set_node-ne heap1 0 head b (λ e. omega (arith, e, z))
          ∙ set_node-ne l.heap l.size (some made) b (λ e. omega (arith, e, t)),
    )

-- What the last store of `ins` makes of it.
back_link-Lists :
    (l : CursorList) (w : ℕ) (h : ListNode) (xs : List (ℕ × ℕ))
    → 0 < l.size
    → Chain l.heap l.size 0 h.next xs
    → Lists ((l.size, w) ∷ xs) (sized (l.size + 1) (back_link (linked l w h) h.next (some l.size)))
back_link-Lists l w h [] p c =
    let (head, made, _) = linked_lem l w h p in
    let l' : CursorList = record { size = l.size + 1; heap = linked l w h } in
    let first =
      Chain-cons (linked l w h) (l.size + 1) 0 (some l.size) l.size w []
        (record { value = w; prev = some 0; next = h.next }) (refl, p, omega arith) made
        (refl, refl) c in
    let held : Holds ((l.size, w) ∷ []) l' =
      (omega arith, (record h { next = some l.size }, (head, first))) in
    rw (ap (λ o. back_link (linked l w h) o (some l.size)) c)
      (held, Holds-iter ((l.size, w) ∷ []) l' held)
back_link-Lists l w h ((a, v) ∷ xs) p (e, z, t, (n, (r, (g, (s, c))))) =
    let (head, made, same) = linked_lem l w h p in
    let n' : ListNode = record n { prev = some l.size } in
    let heap' = set_node (linked l w h) a (some n') in
    let l' : CursorList = record { size = l.size + 1; heap = heap' } in
    let kept : (b : ℕ) → a ≢ b → heap' b ≡ linked l w h b =
      set_node-ne (linked l w h) a (some n') in
    let made' : ListNode = record { value = w; prev = some 0; next = h.next } in
    let after =
      Chain-frame l.heap heap' a a n.next xs
        (λ b y u. kept b (λ q. omega (arith, q, u)) ∙ same b y (omega (arith, u, t))) c in
    let second =
      Chain-cons heap' l.size l.size h.next a v xs n' (e, z, t)
        (set_node_self (linked l w h) a (some n')) (g, refl) after in
    let first =
      Chain-cons heap' (l.size + 1) 0 (some l.size) l.size w ((a, v) ∷ xs) made'
        (refl, p, omega arith) (kept l.size (λ q. omega (arith, q, t)) ∙ made) (refl, refl)
        second in
    let held : Holds ((l.size, w) ∷ ((a, v) ∷ xs)) l' = (
      omega arith,
      (record h { next = some l.size }, (kept 0 (λ q. omega (arith, q, z)) ∙ head, first)),
    ) in
    let step : back_link (linked l w h) h.next (some l.size) ≡ some heap' =
      ap (λ o. back_link (linked l w h) o (some l.size)) e
      ∙ ap (set_prev (linked l w h) a (some l.size)) (same a z t ∙ r) in
    rw step (held, Holds-iter ((l.size, w) ∷ ((a, v) ∷ xs)) l' held)

ins-Lists :
    (l : CursorList) (xs : List (ℕ × ℕ)) (w : ℕ) → Holds xs l → Lists ((l.size, w) ∷ xs) (ins l w)
unfolding ins
ins-Lists l xs w (p, (h, (r, c))) = rw (ap (insert_after l w) r) (back_link-Lists l w h xs p c)

-- On a well-linked list, `ins` and `del` of a node of the list follow no null or freed pointer and
-- leave a well-linked list: `ins` puts the value first, `del` takes the node out, and `iter` goes over
-- the values of the list that results in order.
pub ins-and-del-Lists :
    (l : CursorList) (ys : List (ℕ × ℕ)) (a v : ℕ) (zs : List (ℕ × ℕ)) (w : ℕ)
    → Holds (ys ++ ((a, v) ∷ zs)) l
    → Lists ((l.size, w) ∷ (ys ++ ((a, v) ∷ zs))) (ins l w) × Lists (ys ++ zs) (del l a)
ins-and-del-Lists l ys a v zs w h = (ins-Lists l (ys ++ ((a, v) ∷ zs)) w h, del-Lists l ys a v zs h)
