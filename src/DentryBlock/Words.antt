-- ===== src/DentryBlock/Words.antt =====
-- A directory block that is read and written by words has the entries of its bytes.
use naive_fs.Base.{
  ℕ, zero, suc, ◌+◌, ◌*◌, ◌/◌, ◌%◌, ◌^◌, ◌<◌, ◌≡◌, ap, ◌∙◌, arith, List, [], ◌∷◌, ◌++◌, get_or,
  ℕ_discrete,
}
use mathlib.Core.Path.{fun_ext}
use naive_fs.DentryBlock.{Dentry, encode}
use naive_fs.DentryBlock.Encoding.{encode_all, block_of}
use naive_fs.Names.{bytes_of}
use naive_fs.Names.Create.{words_of}

abbrev pub AreBytes : List ℕ → Type 0
AreBytes [] = Unit {0}
AreBytes (x ∷ xs) = (x < 2 ^ 8) × AreBytes xs

-- Entries whose names are bytes.
abbrev pub HaveBytes : List Dentry → Type 0
HaveBytes [] = Unit {0}
HaveBytes (d ∷ ds) = AreBytes d.body × HaveBytes ds

AreBytes-append : (xs ys : List ℕ) → AreBytes xs → AreBytes ys → AreBytes (xs ++ ys)
AreBytes-append [] ys a b = b
AreBytes-append (x ∷ xs) ys a b = (a.0, AreBytes-append xs ys a.1 b)

get_or-lt : (xs : List ℕ) (j : ℕ) → AreBytes xs → get_or xs j 0 < 2 ^ 8
get_or-lt [] j a = omega arith
get_or-lt (x ∷ xs) zero a = a.0
get_or-lt (x ∷ xs) (suc j) a = get_or-lt xs j a.1

encode-AreBytes : (d : Dentry) → AreBytes d.body → AreBytes (encode d)
encode-AreBytes d h = (
  omega arith,
  (
    omega arith,
    (omega arith, (omega arith, (omega arith, (omega arith, (omega arith, (omega arith, h)))))),
  ),
)

encode_all-AreBytes : (ds : List Dentry) → HaveBytes ds → AreBytes (encode_all ds)
encode_all-AreBytes [] h = tt
encode_all-AreBytes (d ∷ ds) h =
    AreBytes-append (encode d) (encode_all ds) (encode-AreBytes d h.0) (encode_all-AreBytes ds h.1)

pub HaveBytes-snoc :
    (ds : List Dentry) (d : Dentry) → HaveBytes ds → AreBytes d.body → HaveBytes (ds ++ (d ∷ []))
HaveBytes-snoc [] d h a = (a, tt)
HaveBytes-snoc (e ∷ ds) d h a = (h.0, HaveBytes-snoc ds d h.1 a)

-- The bytes of the words of bytes.
bytes_of-words_of :
    (buf : ℕ → ℕ) (j : ℕ) → ((i : ℕ) → buf i < 2 ^ 8) → bytes_of (words_of buf) j ≡ buf j
bytes_of-words_of buf j h =
    let k = j / 4 in
    let a = h (4 * k) in
    let b = h (4 * k + 1) in
    let c = h (4 * k + 2) in
    let d = h (4 * k + 3) in
    let at : (r : ℕ) → j % 4 ≡ r → 4 * k + r ≡ j = λ r e. omega (arith, e) in
    let read : (r : ℕ)
        → j % 4 ≡ r
        → bytes_of (words_of buf) j ≡ words_of buf k / 2 ^ (8 * r) % 2 ^ 8 =
      λ r e. ap (λ x. words_of buf k / 2 ^ (8 * x) % 2 ^ 8) e in
    elim (ℕ_discrete (j % 4) 0) [
      | yes e ↦
          read 0 e ∙ omega (arith, a, b, c, d) ∙ ap buf (let p : 4 * k ≡ j = omega (arith, e) in p)
      | no n0 ↦ elim (ℕ_discrete (j % 4) 1) [
        | yes e ↦ read 1 e ∙ omega (arith, a, b, c, d) ∙ ap buf (at 1 e)
        | no n1 ↦ elim (ℕ_discrete (j % 4) 2) [
          | yes e ↦ read 2 e ∙ omega (arith, a, b, c, d) ∙ ap buf (at 2 e)
          | no n2 ↦
              let e : j % 4 ≡ 3 = omega (arith, n0, n1, n2) in
              read 3 e ∙ omega (arith, a, b, c, d) ∙ ap buf (at 3 e)
        ]
      ]
    ]

pub bytes_of-block_of :
    (ds : List Dentry) → HaveBytes ds → bytes_of (words_of (block_of ds)) ≡ block_of ds
bytes_of-block_of ds h = fun_ext λ j.
    bytes_of-words_of (block_of ds) j (λ i. get_or-lt (encode_all ds) i (encode_all-AreBytes ds h))
