-- ===== src/Tests/Visits.antt =====
-- Visits of the blocks of a file: src/filesystem.cpp.
use naive_fs.Base.{ℕ, ◌+◌, ◌<◌, ◌≡◌, refl, ap, ◌∙◌, false, arith, List, [], ◌∷◌, dec_le}
use naive_fs.Inode.{Inode, zero_inode}
use naive_fs.BlockTree.{root, locate, walk}
use naive_fs.FileStatus.Position.{locate_direct}
use naive_fs.InodeVisit.{Visitor, visit_inode_blocks}
use naive_fs.InodeVisit.Order.{IsThere, in_order, visit_inode_blocks-in_order}
use naive_fs.Tests.Cursors.{all_blocks, roots}

-- a visitor that lists the numbers of the blocks
abbrev collect : Visitor (List ℕ)
collect b w v = (false, b ∷ v)

-- a file of thirteen blocks, the last one below the single indirect block
abbrev thirteen : Inode
thirteen = record zero_inode { i_blocks = 104; i_block = roots }

thirteen-IsThere : (j : ℕ) → j < 13 → IsThere all_blocks collect roots j
unfolding locate walk
thirteen-IsThere j h = elim (dec_le j 11) [
  | yes low ↦
      (root roots j, (λ k. root roots j + k + 1), locate_direct all_blocks roots j low, refl)
  | no high ↦ (
    6,
    (λ k. 6 + k + 1),
    ap (locate all_blocks roots) (let e : j ≡ 12 = omega arith in e) ∙ refl,
    refl,
  )
]

visit_inode_blocks-in_order_example :
    visit_inode_blocks all_blocks collect thirteen [] ≡ in_order all_blocks collect roots 0 13 []
visit_inode_blocks-in_order_example =
    visit_inode_blocks-in_order all_blocks collect roots thirteen [] refl (λ b w v. refl)
      (omega arith) thirteen-IsThere
