-- ===== src/CursorList.antt =====
-- `FSList` of include/operation.h: the doubly linked list of the cursors of an open inode, on a heap of
-- nodes. A node that is deleted is none; following such a pointer, or a null one, gives none.
pub mod Links
pub mod Insert
use naive_fs.Base.{ℕ, zero, suc, ◌+◌, ◌==◌, if◌then◌else◌, Option, none, some, List, [], ◌∷◌}

-- `FSListPtr`
pub record ListNode : Type 0 where
  pub value : ℕ
  pub prev : Option ℕ
  pub next : Option ℕ

abbrev pub Heap : Type 0
Heap = ℕ → Option ListNode

-- `FSList`: the head is node 0, and nodes are made in order.
pub record CursorList : Type 0 where
  pub size : ℕ
  pub heap : Heap

abbrev pub set_node : Heap → ℕ → Option ListNode → Heap
set_node heap a n b = if a == b then n else heap b

-- The constructor.
abbrev pub new_list : CursorList
new_list = record {
  size = 1;
  heap = set_node (λ b. none) 0 (some (record { value = 0; prev = none; next = none }));
}

-- `if (next) next->prev_ = prev;`
abbrev pub set_prev : Heap → ℕ → Option ℕ → Option ListNode → Option Heap
set_prev heap x prev none = none
set_prev heap x prev (some n) = some (set_node heap x (some (record n { prev = prev })))

abbrev pub back_link : Heap → Option ℕ → Option ℕ → Option Heap
back_link heap none prev = some heap
back_link heap (some x) prev = set_prev heap x prev (heap x)

abbrev pub sized : ℕ → Option Heap → Option CursorList
sized size none = none
sized size (some heap) = some (record { size = size; heap = heap })

abbrev pub insert_after : CursorList → ℕ → Option ListNode → Option CursorList
insert_after l value none = none
insert_after l value (some h) =
    let made =
      set_node l.heap l.size (some (record { value = value; prev = some 0; next = h.next })) in
    let linked = set_node made 0 (some (record h { next = some l.size })) in
    sized (l.size + 1) (back_link linked h.next (some l.size))

-- `ins`; the new node is number `size`
unfoldable pub ins : CursorList → ℕ → Option CursorList
ins l value = insert_after l value (l.heap 0)

-- `ptr->prev_->next_ = ptr->next_; delete ptr;`
abbrev pub cut_node : ℕ → ℕ → Option ℕ → Heap → Option ListNode → Option Heap
cut_node ptr q next heap none = none
cut_node ptr q next heap (some m) =
    some (set_node (set_node heap q (some (record m { next = next }))) ptr none)

abbrev pub cut : ℕ → Option ℕ → Option ℕ → Option Heap → Option Heap
cut ptr prev next none = none
cut ptr none next (some heap) = none
cut ptr (some q) next (some heap) = cut_node ptr q next heap (heap q)

abbrev pub del_node : Heap → ℕ → Option ListNode → Option Heap
del_node heap ptr none = none
del_node heap ptr (some p) = cut ptr p.prev p.next (back_link heap p.next p.prev)

-- `del`
unfoldable pub del : CursorList → ℕ → Option CursorList
del l ptr = sized l.size (del_node l.heap ptr (l.heap ptr))

-- The values that the rest of `iter` goes over, on fuel.
abbrev pub iter_node : Option ListNode → (Option ℕ → List ℕ) → List ℕ
iter_node none rest = []
iter_node (some n) rest = n.value ∷ rest n.next

unfoldable pub iter_from : ℕ → Heap → Option ℕ → List ℕ
iter_from zero heap o = []
iter_from (suc fuel) heap none = []
iter_from (suc fuel) heap (some a) = iter_node (heap a) (iter_from fuel heap)

abbrev pub iter_head : ℕ → Heap → Option ListNode → List ℕ
iter_head fuel heap none = []
iter_head fuel heap (some h) = iter_from fuel heap h.next

-- `iter`
unfoldable pub iter : CursorList → List ℕ
unfolding iter_from
iter l = iter_head l.size l.heap (l.heap 0)
