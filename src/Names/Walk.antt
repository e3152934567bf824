-- ===== src/Names/Walk.antt =====
-- The walk along a path by the entries of directories, with no cache.
use naive_fs.Base.{
  ℕ, ◌≡◌, refl, Bool, true, false, not, ◌&&◌, if◌then◌else◌, Option, none, some, List, [], ◌∷◌,
}
use naive_fs.Config.{fs_not_found, fs_ndir_err}
use naive_fs.Inode.{Inode, is_dir}
use naive_fs.BlockTree.{Fetch}
use naive_fs.InodeVisit.Invariant.{visit_inode_blocks_keeps}
use naive_fs.DentryBlock.{dentry_block, lookup}
use naive_fs.Names.{Outcome, ok, fail, search, search_visitor, with_inode, matched, bytes_of}

pub and-false : (b : Bool) → (b && not true) ≡ false
and-false true = refl
and-false false = refl

-- The rest of the walk after the look for an entry.
abbrev pub step :
    List (List ℕ) → (ℕ → Inode → Outcome (ℕ × Inode)) → Option (ℕ × Inode) → Outcome (ℕ × Inode)
step names rest none = fail fs_not_found
step names rest (some (i, n)) = rest i n

abbrev pub is_last : List (List ℕ) → Bool
is_last [] = true
is_last (name ∷ names) = false

-- The code, or the number and the inode.
abbrev pub inode_of : Outcome ((ℕ × Inode) × ℕ) → Outcome (ℕ × Inode)
inode_of (ok (r, parent)) = ok r
inode_of (fail code) = fail code

module _ (fetch : Fetch) (get_inode : ℕ → Option Inode) where
  -- The walk: the inode that the names lead to from an inode.
  unfoldable pub resolve : List (List ℕ) → ℕ → Inode → Outcome (ℕ × Inode)
  resolve [] i n = ok (i, n)
  resolve (name ∷ names) i n =
      let next = step names (resolve names) (search fetch get_inode n name) in
      if not (is_last names) && not (is_dir n.i_mode) then fail fs_ndir_err else next

  -- The entry of a name in the directory with inode i has inode number j.
  abbrev pub Leads : ℕ → List ℕ → ℕ → Type 0
  Leads i name j =
      (n : Inode) × (m : Inode) × (get_inode i ≡ some n)
      × (search fetch get_inode n name ≡ some (j, m))

  -- Only directories have entries.
  abbrev pub OnlyDirs : Type 0
  OnlyDirs =
      (i : ℕ) (n : Inode) (name : List ℕ)
      → get_inode i ≡ some n
      → is_dir n.i_mode ≡ false
      → search fetch get_inode n name ≡ none

  abbrev pub IsThere : Option (ℕ × Inode) → Type 0
  IsThere none = Unit {0}
  IsThere (some (j, m)) = get_inode j ≡ some m

  with_inode-IsThere : (i : ℕ) (o : Option Inode) → get_inode i ≡ o → IsThere (with_inode i o)
  with_inode-IsThere i none e = tt
  with_inode-IsThere i (some n) e = e

  matched-IsThere :
      (o : Option ℕ) (v : Option (ℕ × Inode)) → IsThere v → IsThere (matched fetch get_inode o v).1
  matched-IsThere none v p = p
  matched-IsThere (some i) v p = with_inode-IsThere i (get_inode i) refl

  -- The inode that a search gives is that of its number.
  pub search-IsThere : (n : Inode) (name : List ℕ) → IsThere (search fetch get_inode n name)
  unfolding search search_visitor
  search-IsThere n name =
      visit_inode_blocks_keeps fetch IsThere (search_visitor fetch get_inode name) n none
        (λ b w v p. matched-IsThere (lookup (dentry_block (bytes_of w)).0 name) v p) tt
