-- ===== src/Lib.antt =====
-- A verification library of NaiveFS, an ext2-like file system that runs under FUSE.
--
-- The program stores a disk image in block groups. A path name is cut into components
-- (include/utils/path.h), which are looked up from the root inode through directory blocks; an inode
-- names the blocks of its file by a tree of direct and indirect blocks (include/ext2/inode.h); inodes
-- and blocks come from the bitmaps of block groups (src/block.cpp, src/utils/bitmap.cpp), over which
-- the file system allocates (src/filesystem.cpp); every block passes through a write-back LRU cache
-- (src/cache.cpp). The handle of an open file (include/operation.h, src/operation/operation.cpp) has a
-- cursor that walks the block tree. FUSE calls the handlers of src/operation/, which look up and change
-- names through the file system and inodes through the copies that `opm` keeps of those in use.
--
-- Which file models what:
--   Base         numbers, tests, lists and bit operations that the other files share
--   Config       include/common.h: constants, RetCode and Code2Errno
--   Bitmap       Bitmap of src/utils/bitmap.cpp and BitmapBlock::alloc_new: 32-bit words
--   Inode        ext2_inode, the file types, and inode_init of src/filesystem.cpp
--   Group        BlockGroup of src/block.cpp with its descriptor: get_inode, get_block, alloc_inode,
--                alloc_block, free_inode, free_block and the offsets on the disk. Group/Counts has the
--                counters, Group/Bitmaps the calls whatever the counters are, Group/Offsets the places.
--   Super        SuperBlock: the counters, num_block_groups, init_super_block, and the descriptors of
--                the first group and of those that alloc_block_group makes
--   FileSystem   get_inode, get_block, alloc_inode, alloc_block, alloc_block_group, free_inode and
--                free_block of src/filesystem.cpp over the map of loaded groups, the lazy load of the
--                others, and the cache. FileSystem/State is the abstract view: which blocks and inodes
--                of the whole file system are allocated.
--   BlockCache   BlockCache of src/cache.cpp. BlockCache/Coherence is the abstract view, what a reader
--                sees through the cache, and the invariant that the disk holds every clean block;
--                BlockCache/Loss is about a clean block that the disk does not hold
--   FilePath     Path of include/utils/path.h; FilePath/Parse compares it with joined names
--   BlockTree    the block tree of an inode as a plain description, `locate`
--   FileStatus   the cursor: next_block, seek, bf_seek and _upd_cache, compared with `locate`
--   BlockStore   the interface through which the tree is changed, as operations and their laws
--   InodeBlocks  alloc_block(block, index, inode) of src/filesystem.cpp over that interface;
--                InodeBlocks/System is the same on the file system itself
--   InodeVisit   visit_inode_blocks and visit_indirect_blocks of src/filesystem.cpp
--   DentryBlock  DentryBlock of include/block.h: the entries of a directory block, byte by byte;
--                DentryBlock/Words reads and writes them as words
--   DentryCache  DentryCache of src/cache.cpp: the nodes by number, each with the ring of its children.
--                DentryCache/Ring is about the ring, DentryCache/Coherent about what nodes stand for.
--   NameStore    the interface of inodes and blocks that the operations on names and write use;
--                NameStore/System is the file system as such a store
--   Names        inode_lookup(path) of src/filesystem.cpp, and Names/Walk the walk that it is compared
--                with; Names/Create has inode_lookup(parent), dentry_create, inode_create and inode_link,
--                Names/Unlink has inode_unlink and inode_delete. Names/Search looks for a name in a
--                directory of direct blocks, Names/Blocks in the bytes of its blocks; Names/Entry and
--                Names/NewFile are about entries that are made, Names/LastBlock about their place;
--                Names/System and Names/Created are the same on the file system itself
--   FileContents copy_to_buf of src/operation/operation.cpp, and FileContents/Write has write and
--                upd_all; FileContents/Bytes has the bytes of a file as a plain description
--   FileApi      the interface of the file system and of opm that the FUSE operations use
--   Handlers     src/operation/: Handlers/Attr has attr.cpp and access, utimens, chown and statfs of
--                meta.cpp; Handlers/Paths has dir.cpp and rename, link and unlink of meta.cpp;
--                Handlers/Files has the rest of meta.cpp and symlink.cpp; Handlers/Data has data.cpp.
--   OpManager    InodeCache and OpManager of include/operation.h: the copies of open inodes
--   CursorList   FSList of include/operation.h, the list of the cursors of an open inode, as linked nodes
--                on a heap; CursorList/Links says which nodes stand in it
--   Permission   _check_permission and _check_user
--   Tests        runs at concrete inputs, and the theorems at inputs that meet their hypotheses
--
-- How the code is represented. Integers of the code are native numbers with the wrap-around of their
-- width written out where it can happen (16 bits for the counters of a descriptor, 32 bits for those of
-- the super block and for block numbers). A pointer to an inode or block is the value it points at,
-- and a store through it is an update of the owner (`put_inode`, `store`, `store_word`). A call that
-- fails returns none or an error value, with the state as the code leaves it. ASSERT checks nothing,
-- as in a release build; a null descriptor, which the code dereferences, ends the run (`load_group`).
-- The mutexes of a call make it one step; interleavings are not modelled.
--
-- Bounds and fuel. The loop of Path runs on fuel, one round for each byte of the name, and each round
-- takes at least one byte. The loop of Bitmap::find runs once for each word and its inner loop at most
-- 32 times. The loop of DentryBlock runs on fuel, one round for each byte of a block, and a round takes
-- the length of an entry, which is not 0. copy_to_buf and write run their loops on fuel, a round for each
-- byte that is left, and the loop of write that closes a gap has a round for each block up to the offset
-- and two more; that this is enough is proved. inode_delete runs on fuel for the depth of directories,
-- which its caller gives. All other loops are recursions on lists.
--
-- Not modelled: reading and writing of the image itself (src/utils/disk.cpp), logging, options and
-- main; the constructor, the destructor and the flush of FileSystem, which are disk traffic, with
-- fuse_init and fuse_destroy; the calls that put a cursor into the list of an inode and take it
-- out, so that write only tells that upd_all was called. The super block, bitmaps and inode tables
-- are values in memory, and their flush to the disk is not modelled. The big lock makes each FUSE
-- operation one step.
mod Base
pub mod Config
pub mod Bitmap
pub mod Inode
pub mod Group
pub mod BlockCache
pub mod FilePath
pub mod Super
pub mod FileSystem
pub mod BlockTree
pub mod FileStatus
pub mod Permission
pub mod OpManager
pub mod CursorList
pub mod InodeVisit
pub mod DentryBlock
pub mod BlockStore
pub mod InodeBlocks
mod Tests
pub mod DentryCache
pub mod NameStore
pub mod Names
pub mod FileContents
pub mod FileApi
pub mod Handlers
