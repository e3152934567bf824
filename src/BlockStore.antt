-- ===== src/BlockStore.antt =====
-- What `alloc_block(block, index, inode)` of src/filesystem.cpp uses of the file system: allocation
-- of a block, access to a block as an array of `uint32_t`, and marking it as modified.
use naive_fs.Base.{ℕ, suc, ◌≡◌, ◌≢◌, Bool, true, ◌==◌, if◌then◌else◌, Option, none, some}

pub record BlockStore (S : Type 0) : Type 0 where
  pub alloc : S → Option ℕ × S
  pub get_block : S → ℕ → Bool × S
  pub words : S → ℕ → Option (ℕ → ℕ)
  pub store_word : S → ℕ → ℕ → ℕ → S
  pub modify : S → ℕ → S

-- `Ready r` says that r more blocks can be allocated, and `Held b` that the pointer of block b that
-- `alloc` or `get_block` gave can be stored through.
module _ {S : Type 0} (st : BlockStore S) (Ready : ℕ → S → Type 0) (Held : ℕ → S → Type 0) where
  -- A block that was not allocated and is now a block of zeros, with the other blocks as before.
  abbrev pub Allocated : ℕ → S → Option ℕ × S → Type 0
  Allocated r s (none, s') = ⊥
  Allocated r s (some b, s') =
      (st.words s b ≡ none)
      × (st.words s' b ≡ some (λ k. 0))
      × ((c : ℕ) → c ≢ b → st.words s' c ≡ st.words s c)
      × Ready r s'
      × Held b s'

  -- The laws.
  pub record IsStore : Type 0 where
    pub alloc_lem : (r : ℕ) (s : S) → Ready (suc r) s → Allocated r s (st.alloc s)
    pub get_block_lem :
        (s : S) (b : ℕ) (w : ℕ → ℕ)
        → Ready 1 s
        → st.words s b ≡ some w
        → ((st.get_block s b).0 ≡ true)
          × ((c : ℕ) → st.words (st.get_block s b).1 c ≡ st.words s c)
          × Held b (st.get_block s b).1
    pub store_self :
        (s : S) (b off v : ℕ) (w : ℕ → ℕ)
        → Held b s
        → st.words s b ≡ some w
        → st.words (st.store_word s b off v) b ≡ some (λ k. if off == k then v else w k)
    pub store_ne :
        (s : S) (b off v c : ℕ)
        → Held b s
        → c ≢ b
        → st.words (st.store_word s b off v) c ≡ st.words s c
    pub modify_lem : (s : S) (b c : ℕ) → st.words (st.modify s b) c ≡ st.words s c
