-- ===== src/DentryCache.antt =====
-- `DentryCache` of include/cache.h and src/cache.cpp: the names that were looked up, as a tree whose
-- nodes have their children in a ring. A node is known by the order of its `calloc`.
pub mod Ring
pub mod Coherent
use naive_fs.Base.{
  ℕ, ◌+◌, Bool, true, false, ◌&&◌, not, ◌==◌, if◌then◌else◌, Option, none, some, List, [], ◌∷◌,
  ◌++◌, length,
}
use naive_fs.DentryBlock.{same_bytes}

-- ROOT_INODE
abbrev pub root_inode : ℕ
root_inode = 0

-- `DentryCache::Node`; `childs` is the ring from `childs_` on, by `next_`.
pub record DentryNode : Type 0 where
  pub inode : ℕ
  pub name : List ℕ
  pub childs : List ℕ

-- The nodes by their number; `size` is the number of the next one. The root has number 0, as which a
-- null `parent` counts.
pub record DentryCache : Type 0 where
  pub size : ℕ
  pub node : ℕ → DentryNode

-- `DentryCache(size)`
abbrev pub new_cache : DentryCache
new_cache = record {
  size = 1;
  node = λ k. record { inode = root_inode; name = b'/' ∷ []; childs = [] };
}

abbrev pub put_node : DentryCache → ℕ → DentryNode → DentryCache
put_node c k n = record c { node = λ j. if k == j then n else c.node j }

-- `parent->childs_ = …`
abbrev pub set_childs : DentryCache → ℕ → List ℕ → DentryCache
set_childs c k l = put_node c k (record (c.node k) { childs = l })

-- The ring with the new node after the one that `childs_` is, from the new node on.
abbrev pub ring_insert : ℕ → List ℕ → List ℕ
ring_insert k [] = k ∷ []
ring_insert k (first ∷ rest) = k ∷ (rest ++ (first ∷ []))

-- `insert`: the new node and the cache
unfoldable pub insert_dentry : DentryCache → ℕ → List ℕ → ℕ → ℕ × DentryCache
insert_dentry c parent name inode =
    let k = c.size in
    let c1 = put_node c k (record { inode = inode; name = name; childs = [] }) in
    let c2 : DentryCache = record c1 { size = k + 1 } in
    (k, set_childs c2 parent (ring_insert k (c.node parent).childs))

-- `ptr->name_len_ == name_len && strncmp(ptr->name_, name, name_len) == 0`
abbrev pub has_name : DentryCache → List ℕ → ℕ → Bool
has_name c name k = (length (c.node k).name == length name) && same_bytes (c.node k).name name

-- One more node before what is found.
abbrev pub after_node : ℕ → Option (List ℕ × (ℕ × List ℕ)) → Option (List ℕ × (ℕ × List ℕ))
after_node k none = none
after_node k (some (before, r)) = some (k ∷ before, r)

-- The loop over a ring: what is before the first node of that name, the node, and what is after it.
unfoldable pub find_child : DentryCache → List ℕ → List ℕ → Option (List ℕ × (ℕ × List ℕ))
find_child c name [] = none
find_child c name (k ∷ l) =
    let later = find_child c name l in
    if has_name c name k then some ([], (k, l)) else after_node k later

-- `parent->childs_ = ptr; return ptr;` or the null pointer
abbrev pub rotate : DentryCache → ℕ → Option (List ℕ × (ℕ × List ℕ)) → Option ℕ × DentryCache
rotate c parent none = (none, c)
rotate c parent (some (before, (k, after))) = (some k, set_childs c parent (k ∷ (after ++ before)))

-- `lookup`: a node that is found becomes the one that `childs_` is
unfoldable pub lookup_dentry : DentryCache → ℕ → List ℕ → Option ℕ × DentryCache
lookup_dentry c parent name =
    if length name == 0
    then (none, c)
    else rotate c parent (find_child c name (c.node parent).childs)

-- The ring in the order in which `remove` looks at it: from `childs_->next_` on.
abbrev pub from_next : List ℕ → List ℕ
from_next [] = []
from_next (first ∷ rest) = rest ++ (first ∷ [])

-- What `remove` leaves of the ring: `childs_` becomes the node after the one that goes. If the node
-- is the first that is looked at and not alone, then `prev` is the node itself, and the ring goes on
-- to lead to the freed memory, which is `none` here.
abbrev pub ring_remove : List ℕ → List ℕ → Option (List ℕ)
ring_remove [] [] = some []
ring_remove [] (a ∷ after) = none
ring_remove (b ∷ before) after = some (after ++ (b ∷ before))

abbrev pub unlink_child : DentryCache → ℕ → Option (List ℕ × (ℕ × List ℕ)) → Option DentryCache
unlink_child c parent none = some c
unlink_child c parent (some (before, (k, after))) = elim (ring_remove before after) [
  | none ↦ none
  | some l ↦ some (set_childs c parent l)
]

-- `remove`
unfoldable pub remove_dentry : DentryCache → ℕ → List ℕ → Option DentryCache
remove_dentry c parent name =
    unlink_child c parent (find_child c name (from_next (c.node parent).childs))
