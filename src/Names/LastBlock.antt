-- ===== src/Names/LastBlock.antt =====
-- The look of `inode_create` and `inode_link` for a name and the last block of a directory.
use naive_fs.Base.{
  ℕ, zero, suc, ◌+◌, ◌-◌, ◌/◌, ◌≤◌, ◌<◌, ◌≡◌, refl, ap, ◌∙◌, Bool, true, false, ◌==◌, arith, Option,
  none, some, List, [], ◌∷◌, ℕ_discrete,
}
use naive_fs.Config.{max_dir_blocks}
use naive_fs.Inode.{Inode}
use naive_fs.BlockTree.{Fetch, root}
use naive_fs.InodeVisit.{visit_inode_blocks, visit_direct, visit_rest, direct_step}
use naive_fs.DentryBlock.{Dentry, dentry_block, lookup}
use naive_fs.NameStore.{NameStore}
use naive_fs.Names.Search.{lookup_in}
use naive_fs.Names.Blocks.{Lacks}
use naive_fs.Names.Create.{last_match, entry_visitor, lookup_entry}
use naive_fs.Names.{bytes_of}
use naive_fs.Names.Entry.{EndsIn}

-- Where the first entry of a name is not there, the last is not.
last_match-none :
    (ds : List Dentry) (name : List ℕ) → lookup ds name ≡ none → last_match ds name none ≡ none
unfolding lookup last_match
last_match-none [] name h = refl
last_match-none (d ∷ ds) name h = ground (arith, last_match-none ds name)

module _ (fetch : Fetch) (i_block name : List ℕ) where
  step_lem :
      (num_blocks b i k : ℕ) (o : Option (ℕ → ℕ)) (last : Option ℕ) (w : ℕ → ℕ)
      (rest : Option ℕ × Option ℕ → ℕ → Bool × ((Option ℕ × Option ℕ) × ℕ)) (later : ℕ)
      → o ≡ some w
      → lookup_in w name ≡ none
      → ((i + 1 ≡ num_blocks) → b ≡ later)
      → (i + 1 < num_blocks
          → (x : ℕ) × (rest (none, some b) (i + 1) ≡ (false, ((none, some later), x))))
      → i < num_blocks
      → (x : ℕ) × (direct_step fetch (entry_visitor name) num_blocks b (none, last) i o rest
          ≡ (false, ((none, some later), x)))
  unfolding entry_visitor
  step_lem num_blocks b i k o last w rest later r l stop more h =
      let absent = last_match-none (dentry_block (bytes_of w)).0 name l in
      elim (ℕ_discrete (i + 1) num_blocks) [
        | yes p ↦
            let t : (i + 1 == num_blocks) ≡ true = ground arith in
            rw (r, absent, t, stop p) (i + 1, refl)
        | no ne ↦
            let t : (i + 1 == num_blocks) ≡ false = ground arith in
            let (x, e) = more (omega (arith, ne, h)) in rw (r, absent, t, e) (x, refl)
      ]

  visit_direct_lem :
      (num_blocks rounds i : ℕ) (last : Option ℕ)
      → i < num_blocks
      → num_blocks ≤ i + rounds
      → ((j : ℕ) → j < num_blocks → Lacks fetch name (root i_block j))
      → (x : ℕ) × (visit_direct fetch
            (entry_visitor name)
            num_blocks
            rounds
            i_block
            i
            (none, last)
            i
          ≡ (false, ((none, some (root i_block (num_blocks - 1))), x)))
  unfolding visit_direct
  visit_direct_lem num_blocks zero i last h q lacks = absurd (omega arith)
  visit_direct_lem num_blocks (suc rounds) i last h q lacks =
      let (w, (r, l)) = lacks i h in
      step_lem num_blocks (root i_block i) i 0 (fetch (root i_block i)) last w
        (visit_direct fetch (entry_visitor name) num_blocks rounds i_block (i + 1))
        (root i_block (num_blocks - 1)) r l
        (λ e. ap (root i_block) (let k : i ≡ num_blocks - 1 = omega (arith, e) in k))
        (λ m.
          visit_direct_lem num_blocks rounds (i + 1) (some (root i_block i)) m (omega arith) lacks)
        h

-- The look for the name finds none, and the last block.
pub lookup_entry-EndsIn :
    {S : Type 0} (st : NameStore S) (s : S) (n : Inode) (name : List ℕ) (k b : ℕ) (ds : List Dentry)
    → EndsIn st s n name k b ds
    → lookup_entry st s n name ≡ (none, some b)
unfolding lookup_entry visit_inode_blocks
lookup_entry-EndsIn st s n name k b ds (e, h, last, _, lacks) =
    let f = st.blocks.words s in
    let t : (n.i_blocks / 8 == 0) ≡ false = ground (arith, e) in
    let (x, v) =
      visit_direct_lem f n.i_block name (n.i_blocks / 8) max_dir_blocks 0 none (omega (arith, e))
        (omega (arith, e, h)) (λ j l. lacks j (omega (arith, e, l))) in
    let end : root n.i_block (n.i_blocks / 8 - 1) ≡ b =
      ap (root n.i_block) (let z : n.i_blocks / 8 - 1 ≡ k = omega (arith, e) in z) ∙ last in
    rw t (
      ap (visit_rest f (entry_visitor name) (n.i_blocks / 8) n.i_block) v
      ∙ ap (λ c. (none, some c)) end)
