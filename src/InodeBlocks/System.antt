-- ===== src/InodeBlocks/System.antt =====
-- `alloc_block(block, index, inode)` on the file system itself, where the cache has entries that are
-- free, so that no block leaves it: a new block of zeros is not marked as modified, and an eviction
-- loses it.
use naive_fs.Base.{
  ℕ, zero, suc, ◌+◌, ◌/◌, ◌^◌, ◌<◌, ◌≡◌, ◌≢◌, refl, sym, ap, subst, ◌∙◌, true, false, ◌==◌,
  if◌then◌else◌, arith, Option, none, some, none_ne_some, Option-cases, inl, inr, length,
  ℕ_discrete, ◌∷◌,
}
use naive_fs.Config.{max_dir_blocks, max_ind_blocks}
use naive_fs.Inode.{Inode}
use naive_fs.Group.{Group}
use naive_fs.Group
use naive_fs.Super.{num_block_groups}
use naive_fs.BlockTree.{locate}
use naive_fs.BlockCache.{BlockCache, Node, find, insert, get}
use naive_fs.BlockCache.Coherence.{view}
use naive_fs.BlockCache.Operations.{touched-view, insert_free}
use naive_fs.BlockCache.Flush.{view-modify}
use naive_fs.FileSystem.{
  GroupMap, get_block, alloc_block_group, alloc_finished, alloc_block_in, alloc_block_with,
  alloc_block, alloc_in_groups,
}
use naive_fs.FileSystem.State.{block_allocated, max_groups, IsFileSystem}
use naive_fs.FileSystem.Alloc.{count_block, AllocatesNewBlock, alloc_block-AllocatesNewBlock}
use naive_fs.FileSystem.Reads.{SameGroups-block_allocated, Shows, Gets, get_block-Gets}
use naive_fs.BlockStore.{Allocated, IsStore}
use naive_fs.NameStore.System.{Disk, words, got, put_word, put_words, block_store}
use naive_fs.Names.System.{words-some, Puts, stored-Puts, Puts-words_self, Puts-words_ne}
use naive_fs.InodeBlocks
use naive_fs.InodeBlocks.Append.{Appends, alloc_block-Appends}

abbrev pub zeros : ℕ → ℕ
zeros k = 0

-- A free entry, and entries for allocated blocks alone.
pub record IsCalm (fs : Disk) : Type 0 where
  pub system : IsFileSystem fs
  pub free_entry : 0 < fs.block_cache.free_entries
  pub cached :
      (b : ℕ) (n : Node (ℕ → ℕ))
      → find b fs.block_cache.nodes ≡ some n
      → block_allocated fs b ≡ true

-- So many times, a block can be allocated: the cache has an entry for it, the counters give as many
-- groups as there are, and the descriptor of one more fits.
abbrev pub Ready : ℕ → Disk → Type 0
Ready zero fs = Unit {0}
Ready (suc r) fs =
    IsCalm fs
    × (num_block_groups (count_block fs.super) ≡ length fs.desc_table)
    × (length fs.desc_table < max_groups)
    × Ready r (alloc_block zeros fs).1

abbrev pub Held : ℕ → Disk → Type 0
Held b fs = (n : Node (ℕ → ℕ)) × (find b fs.block_cache.nodes ≡ some n)

-- The block that is allocated enters the cache as zeros.
abbrev Enters : Disk → Option ℕ × Disk → Type 0
Enters fs (none, fs') = Unit {0}
Enters fs (some b, fs') = (fs'.block_cache, fs'.disk) ≡ insert fs.block_cache fs.disk b zeros false

finished-Enters : (fs : Disk) (k i : ℕ) → Enters fs (alloc_finished zeros fs k i)
unfolding alloc_finished
finished-Enters fs k i = refl

in_Enters :
    (fs : Disk) (k : ℕ) (r : Option (ℕ × ℕ) × Group) → Enters fs (alloc_block_in zeros fs k r)
unfolding alloc_block_in alloc_finished
in_Enters fs k (none, g) = tt
in_Enters fs k (some (i, offset), g) = refl

with_Enters :
    (fs : Disk) (r : Option (ℕ × (ℕ × ℕ)) × GroupMap) → Enters fs (alloc_block_with zeros fs r)
unfolding alloc_block_with alloc_block_group alloc_finished
with_Enters fs (some (k, (i, offset)), groups) = refl
with_Enters fs (none, groups) =
    let (index, g, fs') = alloc_block_group (record fs { block_groups = groups }) in
    in_Enters fs' index (Group.alloc_block g)

alloc_block-Enters : (fs : Disk) → Enters fs (alloc_block zeros fs)
unfolding alloc_block
alloc_block-Enters fs =
    with_Enters (record fs { super = count_block fs.super })
      (alloc_in_groups (λ g. g.bg_free_blocks_count) Group.alloc_block fs.block_groups)

uncached :
    (fs : Disk) (b : ℕ)
    → IsCalm fs
    → block_allocated fs b ≡ false
    → find b fs.block_cache.nodes ≡ none
uncached fs b calm free = elim (Option-cases (find b fs.block_cache.nodes)) [
  | inl e ↦ e
  | inr (n, e) ↦ absurd (let no : true ≡ false = sym (calm.cached b n e) ∙ free in cc)
]

-- A new entry shows its block, and the others as before.
insert-shown :
    (c : BlockCache (ℕ → ℕ)) (disk : ℕ → ℕ → ℕ) (b : ℕ) (block : ℕ → ℕ)
    → 0 < c.free_entries
    → find b c.nodes ≡ none
    → let (cache, disk') = insert c disk b block false in
      ((j : ℕ) → view cache.nodes disk' j ≡ (if b == j then block else view c.nodes disk j))
      × ((n : Node (ℕ → ℕ)) × (find b cache.nodes ≡ some n))
unfolding find
insert-shown c disk b block room miss =
    let n : Node (ℕ → ℕ) = record { dirty = false; index = b; block = block } in
    let t : (b == b) ≡ true = ground arith in
    rw (insert_free c disk b block false room miss)
      ((λ j. elim (ℕ_discrete b j) [ yes p ↦ ground arith | no ne ↦ ground arith ]), (n, rw t refl))

AllocatesNewBlock-Allocated :
    (fs : Disk) (r : ℕ) (x : Option ℕ × Disk)
    → IsCalm fs
    → AllocatesNewBlock fs x
    → Enters fs x
    → Ready r x.1
    → Allocated block_store Ready Held r fs x
AllocatesNewBlock-Allocated fs r (none, fs') calm a e ready = absurd a
AllocatesNewBlock-Allocated fs r (some b, fs') calm (free, blocks, _, _) e ready =
    let miss = uncached fs b calm free in
    let (shown, held) = insert-shown fs.block_cache fs.disk b zeros calm.free_entry miss in
    let seen : (j : ℕ)
        → view fs'.block_cache.nodes fs'.disk j
          ≡ (if b == j then zeros else view fs.block_cache.nodes fs.disk j) =
      λ j. ap (λ x. view x.0.nodes x.1 j) e ∙ shown j in
    let t : (b == b) ≡ true = ground arith in
    let at : block_allocated fs' b ≡ true =
      blocks b ∙ ap (λ x. if x then true else block_allocated fs b) t in
    (
      ap (λ x. if x then some (view fs.block_cache.nodes fs.disk b) else none) free,
      ap (λ x. if x then some (view fs'.block_cache.nodes fs'.disk b) else none) at
          ∙ ap some (seen b ∙ ap (λ x. if x then zeros else view fs.block_cache.nodes fs.disk b) t),
      (λ c ne.
          let u : (b == c) ≡ false = ground (arith, ne) in
          ap (λ x. if x then some (view fs'.block_cache.nodes fs'.disk c) else none)
            (blocks c ∙ ap (λ x. if x then true else block_allocated fs c) u)
          ∙ ap (λ x. if block_allocated fs c then some x else none)
              (seen c ∙ ap (λ x. if x then zeros else view fs.block_cache.nodes fs.disk c) u)),
      ready,
      subst (λ x. (n : Node (ℕ → ℕ)) × (find b x.0.nodes ≡ some n)) (sym e) held,
    )

allocated-IsCalm :
    (fs : Disk) (x : Option ℕ × Disk)
    → IsCalm fs
    → 1 < fs.block_cache.free_entries
    → AllocatesNewBlock fs x
    → Enters fs x
    → IsCalm x.1
unfolding find
allocated-IsCalm fs (none, fs') calm more a e = absurd a
allocated-IsCalm fs (some b, fs') calm more (free, blocks, _, sys) e =
    let miss = uncached fs b calm free in
    let node : Node (ℕ → ℕ) = record { dirty = false; index = b; block = zeros } in
    let f = e ∙ insert_free fs.block_cache fs.disk b zeros false calm.free_entry miss in
    record {
      system = sys;
      free_entry = omega (arith, ap (λ x. x.0.free_entries) f, more);
      cached = λ j n hit.
          let there : find j (node ∷ fs.block_cache.nodes) ≡ some n =
            sym (ap (λ x. find j x.0.nodes) f) ∙ hit in
          elim (ℕ_discrete b j) [
            | yes p ↦ blocks j ∙ ground (arith, p)
            | no ne ↦ blocks j ∙ ground (arith, calm.cached j n (ground (arith, there)))
          ];
    }

-- The state stays calm where a second entry is free.
pub alloc_block-IsCalm :
    (fs : Disk)
    → IsCalm fs
    → 1 < fs.block_cache.free_entries
    → num_block_groups (count_block fs.super) ≡ length fs.desc_table
    → length fs.desc_table < max_groups
    → IsCalm (alloc_block zeros fs).1
alloc_block-IsCalm fs calm more new few =
    allocated-IsCalm fs (alloc_block zeros fs) calm more
      (alloc_block-AllocatesNewBlock zeros fs calm.system new few) (alloc_block-Enters fs)

-- An entry of the cache that is found again shows the same.
get-shown :
    (c : BlockCache (ℕ → ℕ)) (disk : ℕ → ℕ → ℕ) (b : ℕ) (n : Node (ℕ → ℕ))
    → find b c.nodes ≡ some n
    → ((get c b false).0 ≡ some (view c.nodes disk b))
      × ((j : ℕ) → view (get c b false).1.nodes disk j ≡ view c.nodes disk j)
unfolding get
get-shown c disk b n hit =
    let seen : some n.block ≡ some (view c.nodes disk b) = ground (arith, hit) in
    rw (hit, get) (seen, touched-view 0 c disk n b false hit)

IsCalm-Shows : (fs : Disk) (b : ℕ) → IsCalm fs → Shows fs b
IsCalm-Shows fs b calm = record {
  hit = λ n e. get-shown fs.block_cache fs.disk b n e;
  miss = λ e. (
    calm.system.block_geometry,
    (insert-shown fs.block_cache fs.disk b (fs.disk b) calm.free_entry e).0,
  );
}

Held-Shows : (fs : Disk) (b : ℕ) → Held b fs → Shows fs b
Held-Shows fs b (n, hit) = record {
  hit = λ m e. get-shown fs.block_cache fs.disk b m e;
  miss = λ e. absurd (none_ne_some (sym e ∙ hit));
}

got_lem :
    (fs : Disk) (b : ℕ) (r : Option (Option (ℕ → ℕ) × Disk))
    → Gets fs b r
    → ((got fs r).0 ≡ true) × ((c : ℕ) → words (got fs r).1 c ≡ words fs c) × Held b (got fs r).1
got_lem fs b none g = absurd g
got_lem fs b (some (none, fs')) g = absurd g
got_lem fs b (some (some block, fs')) (_, held, views, same) = (
  refl,
  (λ c.
      ap (λ x. if x then some (view fs'.block_cache.nodes fs'.disk c) else none)
        (SameGroups-block_allocated fs fs' same c)
      ∙ ap (λ x. if block_allocated fs c then some x else none) (views c)),
  held,
)

Held-Puts :
    (fs : Disk) (b : ℕ) (w v : ℕ → ℕ)
    → Held b fs
    → words fs b ≡ some v
    → Puts fs b w (put_words fs b w)
Held-Puts fs b w v held e =
    stored-Puts fs b w (get_block fs b false (λ x. x))
      (get_block-Gets fs b (Held-Shows fs b held) (words-some fs b v e))

put_word_self :
    (fs : Disk) (b off v : ℕ) (w : ℕ → ℕ)
    → Held b fs
    → words fs b ≡ some w
    → words (block_store.store_word fs b off v) b ≡ some (λ k. if off == k then v else w k)
put_word_self fs b off v w held e =
    ap (λ o. words (put_word fs b off v o) b) e
    ∙ (let new : ℕ → ℕ = λ k. if off == k then v else w k in
        Puts-words_self fs (put_words fs b new) b new (Held-Puts fs b new w held e)
          (words-some fs b w e))

put_word_ne :
    (fs : Disk) (b off v c : ℕ) (o : Option (ℕ → ℕ))
    → words fs b ≡ o
    → Held b fs
    → c ≢ b
    → words (put_word fs b off v o) c ≡ words fs c
put_word_ne fs b off v c none e held ne = refl
put_word_ne fs b off v c (some w) e held ne =
    let new : ℕ → ℕ = λ k. if off == k then v else w k in
    Puts-words_ne fs (put_words fs b new) b new c (Held-Puts fs b new w held e) ne

block_store-IsStore : IsStore block_store Ready Held
unfolding block_allocated
block_store-IsStore = record {
  alloc_lem = λ r fs ready.
      let (calm, new, few, rest) = ready in
      AllocatesNewBlock-Allocated fs r (alloc_block zeros fs) calm
        (alloc_block-AllocatesNewBlock zeros fs calm.system new few) (alloc_block-Enters fs) rest;
  get_block_lem = λ fs b w ready e.
      let (calm, _, _, _) = ready in
      got_lem fs b (get_block fs b false (λ x. x))
        (get_block-Gets fs b (IsCalm-Shows fs b calm) (words-some fs b w e));
  store_self = put_word_self;
  store_ne = λ fs b off v c held ne. put_word_ne fs b off v c (words fs b) refl held ne;
  modify_lem = λ fs b c.
      ap (λ x. if block_allocated fs c then some x else none)
        (view-modify fs.block_cache fs.disk b c);
}

-- `alloc_block(block, index, inode)` on the file system at the direct and the single indirect
-- level, where two blocks can be allocated, the cache having free entries for them, every block of
-- the file is found, i_block has 15 entries and i_blocks + 8 is below 2^32: it returns a block that
-- was not allocated, which is the file's next block afterwards; the blocks before it are where they
-- were, also when it allocates the single indirect block, and i_blocks counts one more.
pub alloc_block-Appends_system :
    (inode : Inode) (fs : Disk)
    → length inode.i_block ≡ 15
    → inode.i_blocks + 8 < 2 ^ 32
    → inode.i_blocks / 8 < max_dir_blocks + max_ind_blocks
    → Ready 2 fs
    → ((m : ℕ) → m < inode.i_blocks / 8 → locate (words fs) inode.i_block m ≢ none)
    → Appends block_store inode fs (InodeBlocks.alloc_block block_store inode fs)
alloc_block-Appends_system inode fs whole small q ready has =
    alloc_block-Appends block_store block_store-IsStore inode fs whole small q ready has
