-- ===== src/BlockCache.antt =====
-- `BlockCache` of include/cache.h and src/cache.cpp: the write-back LRU cache of data blocks.
-- The doubly linked list between `head_` and `tail_` is a list, the most recent entry first; `map_`
-- holds the nodes of that list, so a lookup in it is a search of the list. `free_entries_` is
-- counted: which free node is taken is not visible. A `Block` is a value of any type, and the disk a
-- function of the block number, since `flush` writes a block where it was read or allocated.
pub mod Capacity
pub mod Coherence
pub mod Operations
pub mod Flush
pub mod Loss
use naive_fs.Base.{
  ℕ, zero, suc, ◌+◌, ◌-◌, Bool, true, false, ◌||◌, ◌==◌, if◌then◌else◌, Option, none, some, List,
  [], ◌∷◌, ◌++◌,
}

-- `BlockCache::Node`
pub record Node {ℓ} (B : Type ℓ) : Type ℓ where
  pub dirty : Bool
  pub index : ℕ
  pub block : B

pub record BlockCache {ℓ} (B : Type ℓ) : Type ℓ where
  pub nodes : List (Node B)
  pub free_entries : ℕ

module _ {ℓ} {B : Type ℓ} where
  -- `block_->flush()`
  unfoldable pub write_back : Node B → (ℕ → B) → ℕ → B
  write_back n disk j = if n.index == j then n.block else disk j

  -- `map_.find`
  unfoldable pub find : ℕ → List (Node B) → Option (Node B)
  find i [] = none
  find i (n ∷ l) = if n.index == i then some n else find i l

  -- `detach` of the node of a block
  unfoldable pub detach : ℕ → List (Node B) → List (Node B)
  detach i [] = []
  detach i (n ∷ l) = if n.index == i then l else n ∷ detach i l

  -- `tail_->prev_` and the list without it
  unfoldable pub split_last : Node B → List (Node B) → List (Node B) × Node B
  split_last n [] = ([], n)
  split_last n (m ∷ l) = let (rest, last) = split_last m l in (n ∷ rest, last)

  -- `release`: a dirty block is written back, and the entry is free
  unfoldable pub release : Node B → (ℕ → B) → ℕ → B
  unfolding write_back
  release n disk = if n.dirty then write_back n disk else disk

  -- the constructor
  unfoldable pub init : ℕ → BlockCache B
  init size = record { nodes = []; free_entries = size }

  -- The eviction in `insert`. On an empty list `tail_->prev_` is `head_`; a cache of size 0 does that,
  -- and the theorems exclude it.
  unfoldable pub evict : List (Node B) → (ℕ → B) → List (Node B) × (ℕ → B)
  unfolding split_last release
  evict [] disk = ([], disk)
  evict (n ∷ l) disk = let (rest, last) = split_last n l in (rest, release last disk)

  -- `insert`
  unfoldable pub insert : BlockCache B → (ℕ → B) → ℕ → B → Bool → BlockCache B × (ℕ → B)
  unfolding find detach evict
  insert c disk i block dirty = elim (find i c.nodes) [
    | none ↦
        let node : Node B = record { dirty = dirty; index = i; block = block } in
        if c.free_entries == 0
        then (record c { nodes = node ∷ (evict c.nodes disk).0 }, (evict c.nodes disk).1)
        else (record c { nodes = node ∷ c.nodes; free_entries = c.free_entries - 1 }, disk)
    | some n ↦ (record c { nodes = record n { dirty = n.dirty || dirty } ∷ detach i c.nodes }, disk)
  ]

  -- `get`: the block becomes the most recent one
  unfoldable pub get : BlockCache B → ℕ → Bool → Option B × BlockCache B
  unfolding find detach
  get c i dirty = elim (find i c.nodes) [
    | none ↦ (none, c)
    | some n ↦ (
      some n.block,
      record c { nodes = record n { dirty = n.dirty || dirty } ∷ detach i c.nodes },
    )
  ]

  -- `remove`
  unfoldable pub remove : BlockCache B → (ℕ → B) → ℕ → BlockCache B × (ℕ → B)
  unfolding find detach release
  remove c disk i = elim (find i c.nodes) [
    | none ↦ (c, disk)
    | some n ↦
        (record c { nodes = detach i c.nodes; free_entries = c.free_entries + 1 }, release n disk)
  ]

  -- the entry of a block, replaced where it stands
  unfoldable pub change : ℕ → (Node B → Node B) → List (Node B) → List (Node B)
  change i f [] = []
  change i f (n ∷ l) = if n.index == i then f n ∷ l else n ∷ change i f l

  -- `modify`
  unfoldable pub modify : BlockCache B → ℕ → BlockCache B
  unfolding change
  modify c i = record c { nodes = change i (λ n. record n { dirty = true }) c.nodes }

  -- a store through the `Block*` of a cached block
  unfoldable pub store : BlockCache B → ℕ → B → BlockCache B
  unfolding change
  store c i block = record c { nodes = change i (λ n. record n { block = block }) c.nodes }

  -- `flush()`: the order of the writes is that of the hash table, and no two are to one block
  unfoldable pub flush_nodes : List (Node B) → (ℕ → B) → List (Node B) × (ℕ → B)
  unfolding release
  flush_nodes [] disk = ([], disk)
  flush_nodes (n ∷ l) disk =
      let (l', disk') = flush_nodes l (release n disk) in (record n { dirty = false } ∷ l', disk')

  unfoldable pub flush : BlockCache B → (ℕ → B) → BlockCache B × (ℕ → B)
  unfolding flush_nodes
  flush c disk = let (l, disk') = flush_nodes c.nodes disk in (record c { nodes = l }, disk')

  -- `flush(inode_index)`, which compares its argument with the block number of each entry
  unfoldable pub flush_one : BlockCache B → (ℕ → B) → ℕ → BlockCache B × (ℕ → B)
  unfolding find change release
  flush_one c disk i = elim (find i c.nodes) [
    | none ↦ (c, disk)
    | some n ↦
        (record c { nodes = change i (λ n. record n { dirty = false }) c.nodes }, release n disk)
  ]
