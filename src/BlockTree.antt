-- ===== src/BlockTree.antt =====
-- The block tree of an inode (include/ext2/inode.h, include/common.h, include/operation.h): direct
-- blocks, then one, two and three levels of indirect blocks. `locate` is the plain description that
-- the cursor of a file handle, the allocation and the visits of blocks are compared with.
use naive_fs.Base.{
  ℕ, zero, suc, ◌+◌, ◌-◌, ◌*◌, ◌/◌, ◌%◌, ◌^◌, leb, if◌then◌else◌, Option, none, some, List, get_or,
}
use naive_fs.Config.{block_size, num_indirect_blocks}
use naive_fs.Inode.{ind_block, dind_block, tind_block}

-- What `fs->get_block(index, &block)` gives to a caller that reads the block as `uint32_t`s, and
-- `none` if it fails. The places in the cache that it changes are left out.
abbrev pub Fetch : Type 0
Fetch = ℕ → Option (ℕ → ℕ)

-- IBLOCK_11 to IBLOCK_14: the last file block of each level
abbrev pub iblock_11 : ℕ
iblock_11 = 11

abbrev pub iblock_12 : ℕ
iblock_12 = block_size / 4 + 11

abbrev pub iblock_13 : ℕ
iblock_13 = block_size / 4 * (block_size / 4) + iblock_12

abbrev pub iblock_14 : ℕ
iblock_14 = block_size / 4 * (block_size / 4) * (block_size / 4) + iblock_13

-- `inode->i_block[k]`
abbrev pub root : List ℕ → ℕ → ℕ
root i_block k = get_or i_block k 0

-- The block that stands at an offset below a block, `depth` levels down.
unfoldable pub walk : Fetch → ℕ → ℕ → ℕ → Option ℕ
walk fetch zero block offset = some block
walk fetch (suc depth) block offset = elim (fetch block) [
  | none ↦ none
  | some words ↦
      walk fetch depth (words (offset / num_indirect_blocks ^ depth))
        (offset % num_indirect_blocks ^ depth)
]

-- The number of file block n on the disk.
unfoldable pub locate : Fetch → List ℕ → ℕ → Option ℕ
locate fetch i_block n =
    if leb n iblock_11
    then some (root i_block n)
    else if leb n iblock_12
    then walk fetch 1 (root i_block ind_block) (n - iblock_11 - 1)
    else if leb n iblock_13
    then walk fetch 2 (root i_block dind_block) (n - iblock_12 - 1)
    else if leb n iblock_14
    then walk fetch 3 (root i_block tind_block) (n - iblock_13 - 1)
    else none
