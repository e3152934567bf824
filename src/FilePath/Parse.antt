-- ===== src/FilePath/Parse.antt =====
-- Cutting a path name and joining its components again.
use naive_fs.Base.{
  ℕ, zero, suc, ◌≤◌, ◌≡◌, refl, sym, ap, ◌∙◌, ◌⊎◌, inl, inr, Bool, true, false, ◌&&◌, not,
  Bool-cases, arith, List, [], ◌∷◌, ◌++◌, length, length-append,
}
use mathlib.Core.List.{append_assoc}
use naive_fs.FilePath.{FilePath, separator, scan_name, skip_separator, is_empty, scan, parse}

-- No byte of a name is a separator.
abbrev pub NoSeparator : List ℕ → Type 0
NoSeparator [] = Unit {0}
NoSeparator (c ∷ cs) = (separator c ≡ false) × NoSeparator cs

-- A component of a valid path: not empty, and without a separator.
abbrev pub IsName : List ℕ → Type 0
IsName n = (is_empty n ≡ false) × NoSeparator n

abbrev pub AreNames : List (List ℕ) → Type 0
AreNames [] = Unit {0}
AreNames (n ∷ ns) = IsName n × AreNames ns

-- The path name with these components.
unfoldable pub join : List (List ℕ) → List ℕ
join [] = []
join (n ∷ ns) = b'/' ∷ (n ++ join ns)

-- Nothing, or a separator first.
abbrev AtSeparator : List ℕ → Type 0
AtSeparator [] = Unit {0}
AtSeparator (c ∷ cs) = separator c ≡ true

AtSeparator-join : (ns : List (List ℕ)) (t : List ℕ) → AtSeparator t → AtSeparator (join ns ++ t)
unfolding join
AtSeparator-join [] t h = h
AtSeparator-join (n ∷ ns) t h = refl

scan_name-append :
    (n rest : List ℕ) → NoSeparator n → AtSeparator rest → scan_name (n ++ rest) ≡ (n, rest)
unfolding scan_name
scan_name-append [] [] h q = refl
scan_name-append [] (c ∷ cs) h q = rw q
scan_name-append (c ∷ n) rest h q = rw (h.0, scan_name-append n rest h.1 q)

and-true : (b : Bool) → (b && true) ≡ b
and-true true = refl
and-true false = refl

-- The loop cuts joined names, with or without a separator at the end, into these names.
scan-join :
    (fuel : ℕ) (ns : List (List ℕ)) (t : List ℕ) (valid : Bool)
    → AreNames ns
    → (t ≡ []) ⊎ (t ≡ b'/' ∷ [])
    → length (join ns ++ t) ≤ fuel
    → scan fuel (join ns ++ t) valid ≡ record { valid = valid; name_list = ns }
unfolding scan skip_separator join
scan-join zero [] t valid h e q = refl
scan-join zero (n ∷ ns) t valid h e q = absurd (omega arith)
scan-join (suc fuel) [] t valid h (inl e) q = rw e refl
scan-join (suc fuel) [] t valid h (inr e) q = rw e refl
scan-join (suc fuel) ((c ∷ n) ∷ ns) t valid h e q =
    let at : AtSeparator t = elim e [ inl p ↦ rw p tt | inr p ↦ rw p refl ] in
    let cut : scan_name ((c ∷ n) ++ (join ns ++ t)) ≡ (c ∷ n, join ns ++ t) =
      scan_name-append (c ∷ n) (join ns ++ t) h.0.1 (AtSeparator-join ns t at) in
    let assoc : (n ++ join ns) ++ t ≡ n ++ (join ns ++ t) = append_assoc n (join ns) t in
    let shorter : length (join ns ++ t) ≤ fuel =
      omega (arith, ap length assoc, length-append {0} n (join ns ++ t), q) in
    let rest = scan-join fuel ns t valid h.1 e shorter in rw (assoc, cut, and-true valid, rest) refl
scan-join (suc fuel) ([] ∷ ns) t valid h e q = cc

parse_any : (s : List ℕ) → AtSeparator s → is_empty s ≡ false → parse s ≡ scan (length s) s true
unfolding parse
parse_any [] a f = cc
parse_any (c ∷ cs) a f = rw a refl

-- A path name made of names, with or without a separator at the end, is valid and is cut into these
-- names.
pub parse-join :
    (ns : List (List ℕ)) (t : List ℕ)
    → AreNames ns
    → (t ≡ []) ⊎ (t ≡ b'/' ∷ [])
    → is_empty (join ns ++ t) ≡ false
    → parse (join ns ++ t) ≡ record { valid = true; name_list = ns }
parse-join ns t h e full =
    let ends : AtSeparator t = elim e [ inl p ↦ rw p tt | inr p ↦ rw p refl ] in
    parse_any (join ns ++ t) (AtSeparator-join ns t ends) full
    ∙ scan-join (length (join ns ++ t)) ns t true h e (omega arith)

-- What the inner loop gives for any bytes.
scan_name_lem :
    (s : List ℕ)
    → let (name, rest) = scan_name s in (s ≡ name ++ rest) × NoSeparator name × AtSeparator rest
unfolding scan_name
scan_name_lem [] = (refl, tt, tt)
scan_name_lem (c ∷ cs) = elim (Bool-cases (separator c)) [
  | inl sep ↦ rw (sep, scan_name) (refl, tt, sep)
  | inr other ↦
      let (e, clean, ends) = scan_name_lem cs in
      rw (other, scan_name) (ap (λ x. c ∷ x) e, (other, clean), ends)
]

-- The names that a loop has cut, against the bytes that it was given.
abbrev Cuts : List ℕ → Bool → FilePath → Type 0
Cuts s valid p =
    p.valid ≡ true
    → (valid ≡ true)
      × AreNames p.name_list
      × ((s ≡ join p.name_list) ⊎ (s ≡ join p.name_list ++ (b'/' ∷ [])))

and_left : (a b : Bool) → (a && b) ≡ true → (a ≡ true) × (b ≡ true)
and_left true b h = (refl, h)
and_left false b h = cc

scan-Cuts :
    (fuel : ℕ) (s : List ℕ) (valid : Bool)
    → AtSeparator s
    → length s ≤ fuel
    → Cuts s valid (scan fuel s valid)
unfolding scan skip_separator join
scan-Cuts zero [] valid a h = λ v. (v, tt, inl refl)
scan-Cuts zero (c ∷ cs) valid a h = λ v. absurd (omega arith)
scan-Cuts (suc fuel) [] valid a h = λ v. (v, tt, inl refl)
scan-Cuts (suc fuel) (c ∷ []) valid a h =
    rw a (λ v. let e : c ≡ b'/' = ground arith in (v, tt, inr (ap (λ x. x ∷ []) e)))
scan-Cuts (suc fuel) (c ∷ d ∷ ds) valid a h = rw a (λ v.
    let e : c ≡ b'/' = ground arith in
    let (cut, clean, ends) = scan_name_lem (d ∷ ds) in
    let (name, rest) = scan_name (d ∷ ds) in
    let fits : length rest ≤ fuel = omega (arith, ap length cut, length-append {0} name rest) in
    let (both, names, joined) = scan-Cuts fuel rest (valid && not (is_empty name)) ends fits v in
    let (ok, full) = and_left valid (not (is_empty name)) both in
    let whole : c ∷ d ∷ ds ≡ b'/' ∷ (name ++ rest) =
      ap (λ x. x ∷ d ∷ ds) e ∙ ap (λ x. b'/' ∷ x) cut in
    (
      ok,
      ((ground arith, clean), names),
      elim joined [
        | inl p ↦ inl (whole ∙ ap (λ x. b'/' ∷ (name ++ x)) p)
        | inr p ↦ inr (
            whole
            ∙ ap (λ x. b'/' ∷ (name ++ x)) p
            ∙ ap (λ x. b'/' ∷ x) (sym (append_assoc name _ _)))
      ],
    ))

-- A path name that the constructor finds valid is its components joined, perhaps with one separator
-- more at the end, and every component is a non-empty name without a separator.
pub parse_sound :
    (s : List ℕ)
    → (parse s).valid ≡ true
    → AreNames (parse s).name_list
      × ((s ≡ join (parse s).name_list) ⊎ (s ≡ join (parse s).name_list ++ (b'/' ∷ [])))
unfolding parse
parse_sound [] v = cc
parse_sound (c ∷ cs) v = elim (Bool-cases (separator c)) [
  | inl sep ↦
      let e = parse_any (c ∷ cs) sep refl in
      let cuts =
        scan-Cuts (length (c ∷ cs)) (c ∷ cs) true sep (omega arith)
          (ap (λ p. p.valid) (sym e) ∙ v) in
      rw e (cuts.1, cuts.2)
  | inr other ↦ absurd (ground (arith, v))
]
