-- ===== src/Names/Unlink.antt =====
-- `inode_unlink` and `inode_delete` of src/filesystem.cpp: an entry of a directory goes, and with its
-- last link the inode.
use naive_fs.Base.{
  ℕ, zero, suc, ◌+◌, ◌-◌, ◌%◌, ◌^◌, Bool, true, false, ◌&&◌, ◌||◌, not, ◌==◌, if◌then◌else◌, Option,
  none, some, List, [], ◌∷◌, length,
}
use naive_fs.Config.{RetCode, fs_success, fs_not_found, fs_invalid}
use naive_fs.Inode.{Inode, is_dir, is_reg}
use naive_fs.InodeVisit.{Visitor, visit_inode_blocks}
use naive_fs.DentryBlock.{Dentry, dentry_bytes, dentry_block, name_of, same_bytes}
use naive_fs.FilePath.{FilePath, prefix, empty, back}
use naive_fs.DentryCache.{DentryCache, root_inode, lookup_dentry, remove_dentry}
use naive_fs.NameStore.{NameStore}
use naive_fs.Names.{bytes_of}
use naive_fs.Names.Create.{Tree, words_of, block_at, try_parent}

-- The place of the first entry of that name in a block, and its inode.
unfoldable pub find_entry : List Dentry → List ℕ → ℕ → Option (ℕ × ℕ)
find_entry [] name offset = none
find_entry (d ∷ l) name offset =
    let later = find_entry l name (offset + dentry_bytes + length d.body) in
    if (d.name_len == length name) && same_bytes (name_of d) name
    then some (offset, d.inode)
    else later

-- `dentry->name_len = 0`
unfoldable pub clear_name : (ℕ → ℕ) → ℕ → ℕ → ℕ
clear_name bytes offset j = if offset + 6 == j then 0 else bytes j

-- The block, the place and the inode of the entry.
abbrev pub Match : Type 0
Match = ℕ × (ℕ × ℕ)

abbrev pub matched_in : ℕ → List Match → Option (ℕ × ℕ) → Bool × List Match
matched_in b v none = (false, v)
matched_in b v (some m) = (true, (b, m) ∷ v)

-- The visitor of `inode_unlink`: the matches, the last one first, of which there are several where the
-- visit goes on behind an indirect block. What it stores comes after the visit.
unfoldable pub unlink_visitor : List ℕ → Visitor (List Match)
unlink_visitor name b words v = matched_in b v (find_entry (dentry_block (bytes_of words)).0 name 0)

module _ {S : Type 0} (st : NameStore S) where
  -- The visits of `inode_delete`: of a file, and of a directory, whose entries are deleted by a call
  -- that is given. In the state, none is a call that does not end.
  unfoldable pub free_visitor : Visitor S
  free_visitor b words s = (false, st.free_block s b)

  unfoldable pub delete_entries : (ℕ → S → Option (RetCode × S)) → List Dentry → S → Option S
  delete_entries delete [] s = some s
  delete_entries delete (d ∷ l) s =
      if d.name_len == 0
      then delete_entries delete l s
      else elim (delete d.inode s) [ none ↦ none | some (code, s') ↦ delete_entries delete l s' ]

  unfoldable pub delete_visitor : (ℕ → S → Option (RetCode × S)) → Visitor (Option S)
  unfolding delete_entries
  delete_visitor delete b words none = (false, none)
  delete_visitor delete b words (some s) =
      (false, delete_entries delete (dentry_block (bytes_of words)).0 s)

  -- `free_inode(index); return FS_SUCCESS;`
  abbrev pub deleted : ℕ → Option S → Option (RetCode × S)
  deleted i none = none
  deleted i (some s) = some (fs_success, st.free_inode s i)

  -- `inode_delete` by the file type
  abbrev pub delete_inode :
      (ℕ → S → Option (RetCode × S)) → ℕ → S → Option Inode → Option (RetCode × S)
  delete_inode delete i s none = some (fs_not_found, s)
  delete_inode delete i s (some n) =
      if not (is_reg n.i_mode) && not (is_dir n.i_mode)
      then some (fs_not_found, s)
      else if is_dir n.i_mode
      then deleted i (visit_inode_blocks (st.blocks.words s) (delete_visitor delete) n (some s))
      else deleted i (some (visit_inode_blocks (st.blocks.words s) free_visitor n s))

  -- `inode_delete`, on fuel for the depth of directories; `none` where it runs out
  unfoldable pub inode_delete : ℕ → ℕ → S → Option (RetCode × S)
  inode_delete zero i s = none
  inode_delete (suc fuel) i s =
      let next = inode_delete fuel in
      if i == root_inode then some (fs_invalid, s) else delete_inode next i s (st.get_inode s i)

  -- What `inode_unlink` leaves: a code and the file system, or `none` where the dentry cache leads to
  -- freed memory or the deletion does not end.
  abbrev pub Unlinked : Type 0
  Unlinked = Option (RetCode × Tree S)

  abbrev pub finish_unlink : Tree S → Option (RetCode × S) → Unlinked
  finish_unlink t none = none
  finish_unlink t (some (code, s)) = some (code, record t { store = s })

  -- From `get_inode(matched_index, &inode)` on.
  unfoldable pub drop_link : ℕ → ℕ → Tree S → Option Inode → Unlinked
  drop_link fuel i t none = some (fs_not_found, t)
  drop_link fuel i t (some n) =
      let links = (n.i_links_count + 2 ^ 16 - 1) % 2 ^ 16 in
      let s = st.put_inode t.store i (record n { i_links_count = links }) in
      if links == 0
      then finish_unlink t (inode_delete fuel i s)
      else some (fs_success, record t { store = s })

  -- The release of the node in the dentry cache, and the rest.
  abbrev pub release_with : ℕ → ℕ → Tree S → Option DentryCache → Unlinked
  release_with fuel i t none = none
  release_with fuel i t (some c) =
      drop_link fuel i (record t { dentry_cache = c }) (st.get_inode t.store i)

  -- A null node counts as the root.
  abbrev pub node_or_root : Option ℕ → ℕ
  node_or_root none = 0
  node_or_root (some k) = k

  -- The stores of the visitor.
  unfoldable pub clear_all : List Match → S → S
  clear_all [] s = s
  clear_all ((b, (offset, i)) ∷ l) s =
      let s' = clear_all l s in
      st.put_words s' b (words_of (clear_name (bytes_of (block_at st s' b)) offset))

  abbrev pub unlink_entry : ℕ → Tree S → List ℕ → List ℕ → ℕ → List Match → Unlinked
  unlink_entry fuel t dir_name name parent_dentry [] = some (fs_not_found, t)
  unlink_entry fuel t dir_name name parent_dentry ((b, (offset, i)) ∷ l) =
      let s = st.blocks.modify (clear_all ((b, (offset, i)) ∷ l) t.store) b in
      let (node, c) = lookup_dentry t.dentry_cache parent_dentry dir_name in
      release_with fuel i (record t { store = s }) (remove_dentry c (node_or_root node) name)

  -- `inode_unlink`
  unfoldable pub inode_unlink : ℕ → FilePath → Tree S → Unlinked
  unfolding unlink_visitor
  inode_unlink fuel path t =
      let name = back path.name_list in
      let dir_path = prefix path (length path.name_list - 1) in
      if not path.valid || empty path
      then some (fs_invalid, t)
      else try_parent st (λ code t1. some (code, t1)) t path
          λ i n parent_dentry t1.
            unlink_entry fuel t1 (back dir_path.name_list) name parent_dentry
              (visit_inode_blocks (st.blocks.words t1.store) (unlink_visitor name) n [])
