-- ===== src/FileSystem.antt =====
-- `FileSystem` of include/filesystem.h and src/filesystem.cpp: block groups, lazily loaded, the
-- allocation and the release of inodes and blocks over all groups, and access to them by their
-- number. As in a release build, `ASSERT` checks nothing. The mutexes make each call one step.
pub mod Groups
pub mod State
pub mod Alloc
pub mod Overwrite
pub mod Inodes
pub mod AllocInode
pub mod Release
pub mod Reads
use naive_fs.Base.{
  ℕ, zero, suc, ◌+◌, ◌-◌, ◌*◌, ◌/◌, ◌%◌, ◌^◌, Bool, true, false, ltb, ◌==◌, if◌then◌else◌, Option,
  none, some, List, [], ◌∷◌, ◌++◌, get_elem?,
}
use naive_fs.Inode.{Inode, inode_init}
use naive_fs.Group.{Group, put_inode, table_get}
use naive_fs.Group
use naive_fs.Super.{Super, inc32, dec32, num_block_groups, new_group}
use naive_fs.BlockCache.{BlockCache, get, insert, store}
use naive_fs.BlockCache

-- `block_groups_`, in the order of its keys
abbrev pub GroupMap : Type 0
GroupMap = List (ℕ × Group)

-- `block_groups_.find`
unfoldable pub find_group : ℕ → GroupMap → Option Group
find_group k [] = none
find_group k ((j, g) ∷ l) = if j == k then some g else find_group k l

-- `block_groups_[k] = g`
unfoldable pub put_group : ℕ → Group → GroupMap → GroupMap
put_group k g [] = (k, g) ∷ []
put_group k g ((j, h) ∷ l) =
    let rest = put_group k g l in
    if j == k then (k, g) ∷ l else if ltb k j then (k, g) ∷ (j, h) ∷ l else (j, h) ∷ rest

-- The loops over the groups in `alloc_inode` and `alloc_block`, with the counter that they look at
-- and the call that they make; the result has the group's number.
module _ {A : Type 0} (free_count : Group → ℕ) (alloc : Group → Option A × Group) where
  unfoldable pub take_from :
      ℕ → Option A × Group → Option (ℕ × A) × GroupMap → GroupMap → Option (ℕ × A) × GroupMap
  take_from k (none, g) rest l = (rest.0, (k, g) ∷ rest.1)
  take_from k (some a, g) rest l = (some (k, a), (k, g) ∷ l)

  unfoldable pub alloc_in_groups : GroupMap → Option (ℕ × A) × GroupMap
  alloc_in_groups [] = (none, [])
  alloc_in_groups ((k, g) ∷ l) =
      let rest = alloc_in_groups l in
      if free_count g == 0 then (rest.0, (k, g) ∷ rest.1) else take_from k (alloc g) rest l

-- In `alloc_inode` the inode that `BlockGroup::alloc_inode` gives is initialized.
unfoldable pub init_inode : ℕ → Option ℕ × Group → Option ℕ × Group
init_inode now (none, g) = (none, g)
init_inode now (some i, g) = (some i, put_inode g i (inode_init now (table_get g.inode_table i)))

-- `desc_table` has the group whose descriptor stands at each place of `desc_table_`; `group_on_disk`
-- is what `BlockGroup(desc)` reads of a group. B is what a `Block` holds.
pub record FileSystem (B : Type 0) : Type 0 where
  pub super : Super
  pub desc_table : List ℕ
  pub block_groups : GroupMap
  pub group_on_disk : ℕ → Group
  pub block_cache : BlockCache B
  pub disk : ℕ → B

module _ {B : Type 0} where
  -- `block_groups_.find`, and the lazy read where that fails; `none` is the null pointer of
  -- `get_group_desc`, which `BlockGroup` dereferences.
  unfoldable pub load_group : FileSystem B → ℕ → Option (Group × FileSystem B)
  load_group fs k = elim (find_group k fs.block_groups) [
    | some g ↦ some (g, fs)
    | none ↦ elim (get_elem? fs.desc_table k) [
      | none ↦ none
      | some d ↦ some (
        fs.group_on_disk d,
        record fs { block_groups = put_group k (fs.group_on_disk d) fs.block_groups },
      )
    ]
  ]

  -- `get_inode`; 0xffffffff is the root
  unfoldable pub get_inode : FileSystem B → ℕ → Option (Option Inode × FileSystem B)
  get_inode fs index =
      if index == 2 ^ 32 - 1
      then elim (load_group fs 0) [
        | none ↦ none
        | some (g, fs') ↦ some (some (table_get g.inode_table 0), fs)
      ]
      else elim (load_group fs (index / fs.super.s_inodes_per_group)) [
        | none ↦ none
        | some (g, fs') ↦ some (Group.get_inode g (index % fs.super.s_inodes_per_group), fs')
      ]

  -- The `memcpy` of `get_block` between the caller's buffer and the block.
  unfoldable pub copy_block : ℕ → Bool → (B → B) → B → FileSystem B → Option B × FileSystem B
  copy_block index dirty write block fs =
      if dirty
      then (
        some (write block),
        record fs { block_cache = store fs.block_cache index (write block) },
      )
      else (some block, fs)

  -- The lazy read of `get_block`, once the group is there.
  unfoldable pub read_block : FileSystem B → Group → ℕ → Bool → (B → B) → Option B × FileSystem B
  unfolding copy_block
  read_block fs g index dirty write =
      elim (Group.get_block g (index % fs.super.s_blocks_per_group)) [
        | none ↦ (none, fs)
        | some offset ↦
            let (cache, disk) = insert fs.block_cache fs.disk index (fs.disk index) dirty in
            copy_block index dirty write (fs.disk index)
              (record fs { block_cache = cache; disk = disk })
      ]

  unfoldable pub get_block_with :
      FileSystem B → ℕ → Bool → (B → B) → Option B × BlockCache B → Option (Option B × FileSystem B)
  unfolding copy_block
  get_block_with fs index dirty write (some block, cache) =
      some (copy_block index dirty write block (record fs { block_cache = cache }))
  get_block_with fs index dirty write (none, cache) =
      elim (load_group fs (index / fs.super.s_blocks_per_group)) [
        | none ↦ none
        | some (g, fs') ↦ some (read_block fs' g index dirty write)
      ]

  -- `get_block`: the block is read by the caller, or, if `dirty`, changed by `write`. The block that
  -- the caller then has is the result, `none` a failure.
  unfoldable pub get_block : FileSystem B → ℕ → Bool → (B → B) → Option (Option B × FileSystem B)
  get_block fs index dirty write =
      get_block_with fs index dirty write (get fs.block_cache index dirty)

  -- `alloc_block_group`: the new group's number, and `block_groups_` and `desc_table_` with it
  unfoldable pub alloc_block_group : FileSystem B → ℕ × Group × FileSystem B
  alloc_block_group fs =
      let index = num_block_groups fs.super in
      let g = new_group index (fs.group_on_disk index).inode_table in
      (
        index,
        g,
        record fs {
          desc_table = fs.desc_table ++ (index ∷ []);
          block_groups = put_group index g fs.block_groups;
        },
      )

  unfoldable pub alloc_inode_in : FileSystem B → ℕ → Option ℕ × Group → Option ℕ × FileSystem B
  alloc_inode_in fs index (none, g) =
      (none, record fs { block_groups = put_group index g fs.block_groups })
  alloc_inode_in fs index (some i, g) = (
    some ((index * fs.super.s_inodes_per_group + i) % 2 ^ 32),
    record fs { block_groups = put_group index g fs.block_groups },
  )

  -- `alloc_inode` after its loop. The inode is initialized in a group that there was, not in a new one.
  unfoldable pub alloc_inode_with :
      FileSystem B → ℕ → Option (ℕ × ℕ) × GroupMap → Option ℕ × FileSystem B
  unfolding alloc_inode_in alloc_block_group
  alloc_inode_with fs mode (some (k, i), groups) =
      (some ((k * fs.super.s_inodes_per_group + i) % 2 ^ 32), record fs { block_groups = groups })
  alloc_inode_with fs mode (none, groups) =
      let (index, g, fs') = alloc_block_group (record fs { block_groups = groups }) in
      alloc_inode_in fs' index (Group.alloc_inode g mode)

  -- `alloc_inode`: the number of the inode; `now` is the time
  unfoldable pub alloc_inode : FileSystem B → ℕ → ℕ → Option ℕ × FileSystem B
  alloc_inode fs now mode =
      alloc_inode_with
        (record fs {
          super = record fs.super {
            s_free_inodes_count = dec32 fs.super.s_free_inodes_count;
            s_inodes_count = inc32 fs.super.s_inodes_count;
          };
        })
        mode
        (alloc_in_groups (λ g. g.bg_free_inodes_count)
          (λ g. init_inode now (Group.alloc_inode g mode)) fs.block_groups)

  module _ (zero_block : B) where
    -- the end of `alloc_block`: the zeroed block enters the cache, not marked dirty
    unfoldable pub alloc_finished : FileSystem B → ℕ → ℕ → Option ℕ × FileSystem B
    alloc_finished fs k i =
        let index = (k * fs.super.s_blocks_per_group + i) % 2 ^ 32 in
        let (cache, disk) = insert fs.block_cache fs.disk index zero_block false in
        (some index, record fs { block_cache = cache; disk = disk })

    unfoldable pub alloc_block_in :
        FileSystem B → ℕ → Option (ℕ × ℕ) × Group → Option ℕ × FileSystem B
    unfolding alloc_finished
    alloc_block_in fs index (none, g) =
        (none, record fs { block_groups = put_group index g fs.block_groups })
    alloc_block_in fs index (some (i, offset), g) =
        alloc_finished (record fs { block_groups = put_group index g fs.block_groups }) index i

    -- `alloc_block` after its loop
    unfoldable pub alloc_block_with :
        FileSystem B → Option (ℕ × (ℕ × ℕ)) × GroupMap → Option ℕ × FileSystem B
    unfolding alloc_finished alloc_block_in alloc_block_group
    alloc_block_with fs (some (k, (i, offset)), groups) =
        alloc_finished (record fs { block_groups = groups }) k i
    alloc_block_with fs (none, groups) =
        let (index, g, fs') = alloc_block_group (record fs { block_groups = groups }) in
        alloc_block_in fs' index (Group.alloc_block g)

    -- `alloc_block(block, index)`
    unfoldable pub alloc_block : FileSystem B → Option ℕ × FileSystem B
    alloc_block fs =
        alloc_block_with
          (record fs {
            super = record fs.super {
              s_free_blocks_count = dec32 fs.super.s_free_blocks_count;
              s_blocks_count = inc32 fs.super.s_blocks_count;
            };
          })
          (alloc_in_groups (λ g. g.bg_free_blocks_count) Group.alloc_block fs.block_groups)

  -- `free_inode`
  unfoldable pub free_inode : FileSystem B → ℕ → Option (Bool × FileSystem B)
  free_inode fs0 index =
      let fs = record fs0 {
        super = record fs0.super {
          s_free_inodes_count = inc32 fs0.super.s_free_inodes_count;
          s_inodes_count = dec32 fs0.super.s_inodes_count;
        };
      } in
      let k = index / fs.super.s_inodes_per_group in
      elim (load_group fs k) [
        | none ↦ none
        | some (g, fs') ↦
            let (done, g') = Group.free_inode g (index % fs.super.s_inodes_per_group) in
            some (done, record fs' { block_groups = put_group k g' fs'.block_groups })
      ]

  -- `free_block` once the group has freed the block: that block leaves the cache too
  unfoldable pub finish_free : FileSystem B → ℕ → ℕ → Bool × Group → Bool × FileSystem B
  finish_free fs k index (false, g) =
      (false, record fs { block_groups = put_group k g fs.block_groups })
  finish_free fs k index (true, g) =
      let (cache, disk) = BlockCache.remove fs.block_cache fs.disk index in
      (
        true,
        record fs {
          block_groups = put_group k g fs.block_groups;
          block_cache = cache;
          disk = disk;
        },
      )

  unfoldable pub free_block_in :
      ℕ → ℕ → Option (Group × FileSystem B) → Option (Bool × FileSystem B)
  free_block_in k index none = none
  free_block_in k index (some (g, fs)) =
      some (finish_free fs k index (Group.free_block g (index % fs.super.s_blocks_per_group)))

  -- `free_block`
  unfoldable pub free_block : FileSystem B → ℕ → Option (Bool × FileSystem B)
  free_block fs index =
      let k = index / fs.super.s_blocks_per_group in
      free_block_in k index (
        load_group
          (record fs {
            super = record fs.super {
              s_free_blocks_count = inc32 fs.super.s_free_blocks_count;
              s_blocks_count = dec32 fs.super.s_blocks_count;
            };
          })
          k)
