-- ===== src/Tests/Names.antt =====
-- Paths, directories and the dentry cache: src/filesystem.cpp and src/cache.cpp.
use naive_fs.Base.{
  ℕ, zero, suc, ◌+◌, ◌≡◌, refl, sym, ap, subst, true, false, ◌==◌, if◌then◌else◌, arith, Option,
  none, some, none_ne_some, [], ◌∷◌, replicate,
}
use naive_fs.Inode.{Inode, zero_inode, is_dir, s_ifdir, s_ifreg}
use naive_fs.BlockTree.{Fetch}
use naive_fs.InodeVisit.{visit_inode_blocks}
use naive_fs.FilePath.{FilePath}
use naive_fs.DentryBlock.Encoding.{block_of}
use naive_fs.DentryBlock.Append.{new_dentry}
use naive_fs.DentryCache.{
  DentryCache, new_cache, root_inode, lookup_dentry, find_child, remove_dentry,
}
use naive_fs.DentryCache.Ring.{Distinct, Removed, remove_dentry-lookup_dentry}
use naive_fs.DentryCache.Coherent.{Coherent}
use naive_fs.NameStore.{NameStore}
use naive_fs.Names.{inode_lookup, search}
use naive_fs.Names.Walk.{resolve, inode_of, Leads, OnlyDirs}
use naive_fs.Names.Cached.{inode_lookup-resolve}
use naive_fs.Names.Create.{Tree, words_of, inode_create, inode_link}
use naive_fs.Names.Refusals.{Kept, code_of, inode_create-and-inode_link-Kept}

-- The root has the children a, as node 1, and bc, as node 2.
abbrev two_children : DentryCache
two_children = record {
  size = 3;
  node = λ k.
      if k == 0
      then record { inode = 0; name = b'/' ∷ []; childs = 2 ∷ 1 ∷ [] }
      else if k == 1
      then record { inode = 5; name = b'a' ∷ []; childs = [] }
      else record { inode = 6; name = b'b' ∷ b'c' ∷ []; childs = [] };
}

two_children-Distinct : Distinct two_children 0
two_children-Distinct name = ground arith

two_children_found : (lookup_dentry two_children 0 (b'a' ∷ [])).0 ≡ some 1
unfolding lookup_dentry find_child
two_children_found = refl

remove_dentry-lookup_dentry_example :
    Removed two_children 0 (b'a' ∷ []) 1 (lookup_dentry two_children 0 (b'a' ∷ [])).1
remove_dentry-lookup_dentry_example =
    remove_dentry-lookup_dentry two_children 0 (b'a' ∷ []) 1 two_children-Distinct
      two_children_found

-- Removing the child that is looked at first, with no lookup before it, leaves a ring that leads to
-- freed memory.
remove_first : remove_dentry two_children 0 (b'a' ∷ []) ≡ none
unfolding remove_dentry find_child
remove_first = refl

-- A directory, inode 0, with block 7, which has the file f, inode 1.
abbrev pub directory : Inode
directory = record zero_inode { i_mode = s_ifdir; i_blocks = 8; i_block = 7 ∷ replicate 14 0 }

abbrev pub file : Inode
file = record zero_inode { i_mode = s_ifreg }

abbrev inodes : ℕ → Option Inode
inodes zero = some directory
inodes (suc zero) = some file
inodes (suc (suc i)) = none

abbrev blocks : Fetch
blocks b =
    if b == 7 then some (words_of (block_of (new_dentry (b'f' ∷ []) 1 s_ifreg ∷ []))) else none

only_dirs : OnlyDirs blocks inodes
unfolding search visit_inode_blocks is_dir
only_dirs zero n name e h =
    let same : directory ≡ n = ap (λ o. elim o [ none ↦ directory | some x ↦ x ]) e in
    let no : true ≡ false = subst (λ m. is_dir m.i_mode ≡ false) (sym same) h in cc
only_dirs (suc zero) n name e h =
    let same : file ≡ n = ap (λ o. elim o [ none ↦ file | some x ↦ x ]) e in
    subst (λ m. search blocks inodes m name ≡ none) same refl
only_dirs (suc (suc i)) n name e h = absurd (none_ne_some e)

new_cache-Coherent : Coherent (Leads blocks inodes) new_cache
new_cache-Coherent p h = tt

abbrev path_f : FilePath
path_f = record { valid = true; name_list = (b'f' ∷ []) ∷ [] }

inode_lookup-resolve_example :
    let (answer, c) = inode_lookup blocks inodes directory path_f new_cache in
    (inode_of answer ≡ resolve blocks inodes ((b'f' ∷ []) ∷ []) root_inode directory)
    × Coherent (Leads blocks inodes) c
inode_lookup-resolve_example =
    inode_lookup-resolve blocks inodes directory path_f new_cache only_dirs new_cache-Coherent
      (omega arith) refl refl refl

-- The same directory as a store, in which inodes from 2 and blocks from 8 on are free.
pub record Small : Type 0 where
  pub next_inode : ℕ
  pub next_block : ℕ
  pub inode : ℕ → Option Inode
  pub words : ℕ → Option (ℕ → ℕ)

abbrev put_words : Small → ℕ → Option (ℕ → ℕ) → Small
put_words s b w = record s { words = λ c. if b == c then w else s.words c }

abbrev put_inode : Small → ℕ → Option Inode → Small
put_inode s i n = record s { inode = λ j. if i == j then n else s.inode j }

abbrev pub small : NameStore Small
small = record {
  blocks = record {
    alloc = λ s. (
      some s.next_block,
      record (put_words s s.next_block (some (λ k. 0))) { next_block = s.next_block + 1 },
    );
    get_block = λ s b. (elim (s.words b) [ none ↦ false | some w ↦ true ], s);
    words = λ s. s.words;
    store_word = λ s b off v.
        put_words s b
          (elim (s.words b) [ none ↦ none | some w ↦ some (λ k. if off == k then v else w k) ]);
    modify = λ s b. s;
  };
  get_inode = λ s. s.inode;
  put_inode = λ s i n. put_inode s i (some n);
  put_words = λ s b w. put_words s b (some w);
  alloc_inode = λ s mode. (
    some s.next_inode,
    record (put_inode s s.next_inode
        (some (record zero_inode { i_mode = mode; i_links_count = 1 }))) {
          next_inode = s.next_inode + 1;
        },
  );
  free_inode = λ s i. put_inode s i none;
  free_block = λ s b. s;
}

abbrev pub tree : Tree Small
tree = record {
  store = record { next_inode = 2; next_block = 8; inode = inodes; words = blocks };
  dentry_cache = new_cache;
}

-- f is there: it cannot be created again, and it cannot be linked to itself.
inode_create-and-inode_link-Kept_example :
    (let (r, t) = inode_create small path_f s_ifreg tree in Kept tree.store (code_of r) t)
    × (let (code, t) = inode_link small path_f path_f tree in Kept tree.store code t)
inode_create-and-inode_link-Kept_example =
    inode_create-and-inode_link-Kept small path_f path_f path_f s_ifreg tree
