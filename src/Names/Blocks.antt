-- ===== src/Names/Blocks.antt =====
-- Directory blocks that are read by words, and searches before and after one of them has a new entry.
use naive_fs.Base.{
  ℕ, zero, suc, ◌+◌, ◌≤◌, ◌≡◌, ◌≢◌, refl, sym, ap, ◌∙◌, arith, Option, none, some, List, [], ◌∷◌,
  ◌++◌, length, length-append, ℕ_discrete,
}
use naive_fs.Config.{block_size}
use naive_fs.Inode.{Inode}
use naive_fs.BlockTree.{Fetch, root}
use naive_fs.DentryBlock.{Dentry, dentry_bytes, dentry_block, encode, lookup}
use naive_fs.DentryBlock.Encoding.{AreDentries, encode_all, block_of, dentry_block-block_of}
use naive_fs.DentryBlock.Append.{new_dentry, encode_all-snoc, AreDentries-snoc, lookup-snoc_ne}
use naive_fs.DentryBlock.Words.{HaveBytes, HaveBytes-snoc, bytes_of-block_of}
use naive_fs.Names.{with_inode, bytes_of}
use naive_fs.Names.Search.{lookup_in, in_entry, in_block, direct_search}
use naive_fs.Names.Create.{words_of}

-- Entries that fit into a block, whose words are then read as they were written.
abbrev pub Fit : List Dentry → Type 0
Fit ds = AreDentries ds × HaveBytes ds × (length (encode_all ds) ≤ block_size)

pub dentry_block-words_of :
    (ds : List Dentry)
    → Fit ds
    → dentry_block (bytes_of (words_of (block_of ds))) ≡ (ds, length (encode_all ds))
dentry_block-words_of ds (v, a, h) =
    ap dentry_block (bytes_of-block_of ds a) ∙ dentry_block-block_of ds v h

pub Fit-snoc :
    (ds : List Dentry) (name : List ℕ) (inode mode : ℕ)
    → Fit ds
    → Fit (new_dentry name inode mode ∷ [])
    → length (encode_all ds) + dentry_bytes + length name ≤ block_size
    → Fit (ds ++ (new_dentry name inode mode ∷ []))
Fit-snoc ds name inode mode (v, a, h) ((w, _), (c, _), _) room =
    let d = new_dentry name inode mode in
    (
      AreDentries-snoc ds d v w,
      HaveBytes-snoc ds d a c,
      omega
          (arith, ap length (encode_all-snoc ds d), length-append (encode_all ds) (encode d), room),
    )

-- The blocks that are read without the name in them.
abbrev pub Lacks : Fetch → List ℕ → ℕ → Type 0
Lacks fetch name b = (w : ℕ → ℕ) × ((fetch b ≡ some w) × (lookup_in w name ≡ none))

module _ (get_inode : ℕ → Option Inode) (i_block : List ℕ) where
  pub direct_search_cong :
      (f g : Fetch) (name : List ℕ)
      → ((c : ℕ) (rest : Option (ℕ × Inode))
          → in_block g get_inode i_block name (g c) rest
            ≡ in_block f get_inode i_block name (f c) rest)
      → (rounds i : ℕ)
      → direct_search g get_inode i_block name rounds i
        ≡ direct_search f get_inode i_block name rounds i
  unfolding direct_search
  direct_search_cong f g name h zero i = refl
  direct_search_cong f g name h (suc rounds) i =
      ap (in_block g get_inode i_block name (g (root i_block i)))
        (direct_search_cong f g name h rounds (i + 1))
      ∙ h (root i_block i) (direct_search f get_inode i_block name rounds (i + 1))

  -- A name that no block had is found once the last one has an entry of it.
  pub direct_search_found :
      (f g : Fetch) (name : List ℕ) (inode b : ℕ) (w : ℕ → ℕ)
      → g b ≡ some w
      → lookup_in w name ≡ some inode
      → ((c : ℕ) → c ≢ b → g c ≡ f c)
      → (rounds i : ℕ) → root i_block (i + rounds) ≡ b
      → ((j : ℕ) → j ≤ i + rounds → Lacks f name (root i_block j))
      → direct_search g get_inode i_block name (suc rounds) i ≡ with_inode inode (get_inode inode)
  unfolding direct_search
  direct_search_found f g name inode b w e found same zero i last lacks =
      let at : g (root i_block i) ≡ some w =
        ap (λ j. g (root i_block j)) (omega arith) ∙ ap g last ∙ e in
      rw (at, found) refl
  direct_search_found f g name inode b w e found same (suc rounds) i last lacks =
      let later =
        direct_search_found f g name inode b w e found same rounds (i + 1)
          (ap (root i_block) (omega arith) ∙ last) (λ j h. lacks j (omega arith)) in
      elim (ℕ_discrete (root i_block i) b) [
        | yes at ↦ rw (ap g at ∙ e, found) refl
        | no ne ↦
            let (v, (r, l)) = lacks i (omega arith) in
            rw (same (root i_block i) ne ∙ r, l, later) refl
      ]

pub lookup_in-words_of :
    (ds : List Dentry) (name : List ℕ)
    → Fit ds
    → lookup_in (words_of (block_of ds)) name ≡ lookup ds name
lookup_in-words_of ds name fit = ap (λ x. lookup x.0 name) (dentry_block-words_of ds fit)

-- In no block does another name lead elsewhere.
pub in_block-Entered :
    (f g : Fetch) (get_inode : ℕ → Option Inode) (i_block : List ℕ) (b : ℕ) (ds : List Dentry)
    (name : List ℕ) (inode mode : ℕ) (other : List ℕ)
    → f b ≡ some (words_of (block_of ds))
    → g b ≡ some (words_of (block_of (ds ++ (new_dentry name inode mode ∷ []))))
    → ((c : ℕ) → c ≢ b → g c ≡ f c)
    → Fit ds
    → Fit (ds ++ (new_dentry name inode mode ∷ []))
    → name ≢ other
    → (c : ℕ) (rest : Option (ℕ × Inode))
    → in_block g get_inode i_block other (g c) rest ≡ in_block f get_inode i_block other (f c) rest
in_block-Entered f g get_inode i_block b ds name inode mode other old new same fit fit' ne c rest =
    elim (ℕ_discrete c b) [
      | no away ↦ ap (λ o. in_block f get_inode i_block other o rest) (same c away)
      | yes at ↦
          rw (ap g at ∙ new, ap f at ∙ old)
            (ap (λ o. in_entry f get_inode i_block other o rest)
              (lookup_in-words_of (ds ++ (new_dentry name inode mode ∷ [])) other fit'
                ∙ lookup-snoc_ne ds name other inode mode ne
                ∙ sym (lookup_in-words_of ds other fit)))
    ]
