-- ===== src/Names/System.antt =====
-- `inode_create` on the file system itself: the blocks in the cache and the inodes in the groups.
use naive_fs.Base.{
  ℕ, ◌/◌, ◌%◌, ◌≡◌, ◌≢◌, refl, sym, ap, ◌∙◌, inl, inr, true, false, ◌==◌, if◌then◌else◌, arith,
  Option, none, some, none_ne_some, Bool-cases,
}
use naive_fs.Config.{inodes_per_group}
use naive_fs.BlockCache.Coherence.{view}
use naive_fs.BlockCache.Flush.{view-store, view-modify}
use naive_fs.FileSystem.{get_block}
use naive_fs.FileSystem.State.{inodes_of, block_allocated, inode_at}
use naive_fs.FileSystem.Reads.{
  SameGroups, SameGroups-block_allocated, IsSound, IsSound-Shows, Gets, get_block-Gets,
}
use naive_fs.NameStore.System.{Disk, words, stored, put_words, name_store}
use naive_fs.Names.Entry.{IsNameStore}

pub words-some : (fs : Disk) (b : ℕ) (v : ℕ → ℕ) → words fs b ≡ some v → block_allocated fs b ≡ true
words-some fs b v e = elim (Bool-cases (block_allocated fs b)) [
  | inl t ↦ t
  | inr t ↦ let missing : words fs b ≡ none = rw t refl in absurd (none_ne_some (sym missing ∙ e))
]

-- What a store through the pointer of `get_block` does.
abbrev pub Puts : Disk → ℕ → (ℕ → ℕ) → Disk → Type 0
Puts fs b w fs' =
    ((c : ℕ)
      → view fs'.block_cache.nodes fs'.disk c
        ≡ (if b == c then w else view fs.block_cache.nodes fs.disk c))
    × SameGroups fs fs'

pub stored-Puts :
    (fs : Disk) (b : ℕ) (w : ℕ → ℕ) (r : Option (Option (ℕ → ℕ) × Disk))
    → Gets fs b r
    → Puts fs b w (stored fs b w r)
stored-Puts fs b w none e = absurd e
stored-Puts fs b w (some (none, fs')) e = absurd e
stored-Puts fs b w (some (some block, fs')) (_, (n, hit), views, same) = (
  λ c.
      view-store fs'.block_cache fs'.disk b w n hit c ∙ ap (λ x. if b == c then w else x) (views c),
  same,
)

put_words-Puts :
    (fs : Disk) (b : ℕ) (w v : ℕ → ℕ)
    → IsSound fs
    → words fs b ≡ some v
    → Puts fs b w (put_words fs b w)
put_words-Puts fs b w v sound e =
    stored-Puts fs b w (get_block fs b false (λ x. x))
      (get_block-Gets fs b (IsSound-Shows fs b sound) (words-some fs b v e))

pub Puts-words_self :
    (fs fs' : Disk) (b : ℕ) (w : ℕ → ℕ)
    → Puts fs b w fs'
    → block_allocated fs b ≡ true
    → words fs' b ≡ some w
Puts-words_self fs fs' b w (views, same) t =
    let u : (b == b) ≡ true = ground arith in
    ap (λ x. if x then some (view fs'.block_cache.nodes fs'.disk b) else none)
      (SameGroups-block_allocated fs fs' same b ∙ t)
    ∙ ap (λ x. some x) (views b ∙ ap (λ x. if x then w else view fs.block_cache.nodes fs.disk b) u)

pub Puts-words_ne :
    (fs fs' : Disk) (b : ℕ) (w : ℕ → ℕ) (c : ℕ) → Puts fs b w fs' → c ≢ b → words fs' c ≡ words fs c
Puts-words_ne fs fs' b w c (views, same) ne =
    let u : (b == c) ≡ false = ground (arith, ne) in
    ap (λ x. if x then some (view fs'.block_cache.nodes fs'.disk c) else none)
      (SameGroups-block_allocated fs fs' same c)
    ∙ ap (λ x. if block_allocated fs c then some x else none)
        (views c ∙ ap (λ x. if x then w else view fs.block_cache.nodes fs.disk c) u)

SameGroups-inode_at : (fs fs' : Disk) → SameGroups fs fs' → (i : ℕ) → inode_at fs' i ≡ inode_at fs i
unfolding inode_at
SameGroups-inode_at fs fs' h i =
    ap (λ o. inodes_of o (i % inodes_per_group)) (h (i / inodes_per_group))

pub name_store-IsNameStore : (now : ℕ) → IsNameStore (name_store now) IsSound
unfolding block_allocated inode_at
name_store-IsNameStore now = record {
  put_words_self = λ fs b w v sound e.
      Puts-words_self fs (put_words fs b w) b w (put_words-Puts fs b w v sound e)
        (words-some fs b v e);
  put_words_ne = λ fs b w v c sound e ne.
      Puts-words_ne fs (put_words fs b w) b w c (put_words-Puts fs b w v sound e) ne;
  put_words_inode = λ fs b w v i sound e.
      SameGroups-inode_at fs (put_words fs b w) (put_words-Puts fs b w v sound e).1 i;
  modify_words = λ fs b c.
      ap (λ x. if block_allocated fs c then some x else none)
        (view-modify fs.block_cache fs.disk b c);
  modify_inode = λ fs b i. refl;
}
