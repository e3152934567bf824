-- ===== src/FileStatus/Position.antt =====
-- When a cursor stands at a file block, and the block tree level by level.
use naive_fs.Base.{
  ℕ, suc, ◌-◌, ◌*◌, ◌/◌, ◌%◌, ◌^◌, ◌≤◌, ◌<◌, ◌≡◌, refl, ap, ◌∙◌, ◌⊎◌, inl, inr, Option-cases, arith,
  Option, none, some, List,
}
use mathlib.Core.Path.{fun_ext}
use naive_fs.Base.Int.{ℤ}
use naive_fs.Inode.{ind_block, dind_block, tind_block}
use naive_fs.BlockTree.{Fetch, iblock_11, iblock_12, iblock_13, iblock_14, root, walk, locate}
use naive_fs.FileStatus.{FileStatus, per_block, ok, bad, ptr_seek}

-- The offset of a file block in its level.
abbrev pub offset_2 : ℕ → ℕ
offset_2 n = n - iblock_12 - 1

abbrev pub offset_3 : ℕ → ℕ
offset_3 n = n - iblock_13 - 1

-- One level of a walk, as the cursor makes it.
abbrev pub through : Option ℕ → (ℕ → Option ℕ) → Option ℕ
through o f = elim o [ none ↦ none | some b ↦ f b ]

module _ (fetch : Fetch) (i_block : List ℕ) where
  abbrev pub seek_at : ℕ → ℕ → Option ℕ
  seek_at = ptr_seek fetch i_block

  walk-suc :
      (depth b off : ℕ)
      → walk fetch (suc depth) b off
        ≡ through
            (seek_at b (off / per_block ^ depth))
            λ c. walk fetch depth c (off % per_block ^ depth)
  unfolding walk ptr_seek
  walk-suc depth b off = elim (Option-cases (fetch b)) [
    | inl e ↦ rw (e, walk, ptr_seek) refl
    | inr (w, e) ↦ rw (e, walk, ptr_seek) refl
  ]

  through-some : (o : Option ℕ) → through o (λ c. some c) ≡ o
  through-some none = refl
  through-some (some c) = refl

  walk_one : (b off : ℕ) → walk fetch 1 b off ≡ seek_at b off
  unfolding walk
  walk_one b off =
      walk-suc 0 b off
      ∙ through-some (seek_at b (off / 1))
      ∙ ap (seek_at b) (let e : off / 1 ≡ off = omega arith in e)

  walk_two :
      (b off : ℕ)
      → walk fetch 2 b off
        ≡ through (seek_at b (off / per_block)) (λ c. seek_at c (off % per_block))
  walk_two b off =
      walk-suc 1 b off
      ∙ ap (through (seek_at b (off / per_block))) (fun_ext λ c. walk_one c (off % per_block))

  walk_three :
      (b off : ℕ)
      → walk fetch 3 b off
        ≡ through (seek_at b (off / (per_block * per_block))) λ c.
          through
            (seek_at c (off % (per_block * per_block) / per_block))
            λ d. seek_at d (off % per_block)
  walk_three b off =
      walk-suc 2 b off
      ∙ ap (through (seek_at b (off / (per_block * per_block)))) (
          fun_ext λ c.
            walk_two c (off % (per_block * per_block))
            ∙ ap
                (λ k.
                  through (seek_at c (off % (per_block * per_block) / per_block)) λ d. seek_at d k)
                (let e : off % (per_block * per_block) % per_block ≡ off % per_block =
                    omega arith in
                  e))

  -- `locate` at each level.
  pub locate_direct : (n : ℕ) → n ≤ iblock_11 → locate fetch i_block n ≡ some (root i_block n)
  unfolding locate
  locate_direct n h = ground arith

  pub locate_single :
      (n : ℕ)
      → iblock_11 < n
      → n ≤ iblock_12
      → locate fetch i_block n ≡ seek_at (root i_block ind_block) (n - iblock_11 - 1)
  unfolding locate
  locate_single n h q = ground (arith, walk_one (root i_block ind_block) (n - iblock_11 - 1))

  locate_dind :
      (n : ℕ)
      → iblock_12 < n
      → n ≤ iblock_13
      → locate fetch i_block n ≡ walk fetch 2 (root i_block dind_block) (offset_2 n)
  unfolding locate
  locate_dind n h q = ground arith

  pub locate_double :
      (n : ℕ)
      → iblock_12 < n
      → n ≤ iblock_13
      → locate fetch i_block n
        ≡ through
            (seek_at (root i_block dind_block) (offset_2 n / per_block))
            λ c. seek_at c (offset_2 n % per_block)
  locate_double n h q = locate_dind n h q ∙ walk_two (root i_block dind_block) (offset_2 n)

  locate_tind :
      (n : ℕ)
      → iblock_13 < n
      → n ≤ iblock_14
      → locate fetch i_block n ≡ walk fetch 3 (root i_block tind_block) (offset_3 n)
  unfolding locate
  locate_tind n h q = ground arith

  pub locate_triple :
      (n : ℕ)
      → iblock_13 < n
      → n ≤ iblock_14
      → locate fetch i_block n
        ≡ through (seek_at (root i_block tind_block) (offset_3 n / (per_block * per_block))) λ c.
          through
            (seek_at c (offset_3 n % (per_block * per_block) / per_block))
            λ d. seek_at d (offset_3 n % per_block)
  locate_triple n h q = locate_tind n h q ∙ walk_three (root i_block tind_block) (offset_3 n)

  -- The cursor stands at file block n: it has the number of that block, and the pointers of the level
  -- lead to it.
  pub record At (n : ℕ) (s : FileStatus) : Type 0 where
    pub here : s.block_id_in_file ≡ n
    pub found : locate fetch i_block n ≡ some s.block_id
    pub single : iblock_11 < n → n ≤ iblock_12 → s.indirect_0 ≡ root i_block ind_block
    pub double_0 : iblock_12 < n → n ≤ iblock_13 → s.indirect_0 ≡ root i_block dind_block
    pub double_1 :
        iblock_12 < n
        → n ≤ iblock_13
        → seek_at (root i_block dind_block) (offset_2 n / per_block) ≡ some s.indirect_1
    pub triple_0 : iblock_13 < n → n ≤ iblock_14 → s.indirect_0 ≡ root i_block tind_block
    pub triple_1 :
        iblock_13 < n
        → n ≤ iblock_14
        → seek_at (root i_block tind_block) (offset_3 n / (per_block * per_block))
          ≡ some s.indirect_1
    pub triple_2 :
        iblock_13 < n
        → n ≤ iblock_14
        → seek_at s.indirect_1 (offset_3 n % (per_block * per_block) / per_block)
          ≡ some s.indirect_2

  -- A move to file block n returns 0 and stands there, or returns -EINVAL and there is no such block.
  abbrev pub MovesTo : ℕ → ℤ × FileStatus → Type 0
  MovesTo n r =
      ((r.0 ≡ ok) × At n r.1)
      ⊎ ((r.0 ≡ bad) × (locate fetch i_block n ≡ none) × (r.1.block_id_in_file ≡ n))
