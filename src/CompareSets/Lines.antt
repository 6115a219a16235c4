-- ===== src/CompareSets/Lines.antt =====
-- The lines that src/wasmall/src/bin/compare_sets.rs prints for two modules.
use crucible_rt.Prelude.{
  ℕ, ◌-◌, ◌≤◌, ◌≡◌, ◌⊎◌, ◌↔◌, refl, ap, ap₂, sym, ◌∙◌, arith, List, [], ◌∷◌, ◌++◌, length,
  length-append, map, true, false, Bool-cases, In, inl, inr, le→ltb_false,
}
use crucible_rt.Hashes.{hash_eq, hash_eq→eq, hash_eq_refl}
use crucible_rt.Leb.{Leb128}
use crucible_rt.Result.{ok}
use crucible_rt.Splitter.{Crates, checked_sub}
use crucible_rt.Splitter.Module.{SplitModuleResult, split_module}
use crucible_rt.Splitter.Sections.{Section, custom, plain, code, code_content, render, custom_bytes}
use crucible_rt.CompareSets.{
  contains, difference, symmetric_difference, Line, minus, plus, diff_line, hash_set, compare_sets,
}

contains-In : (h : List ℕ) (set : List (List ℕ)) → contains h set ≡ true → In h set
unfolding contains
contains-In h [] e = cc
contains-In h (x ∷ set) e = elim (Bool-cases (hash_eq x h)) [
  | inl t ↦ inl (sym (hash_eq→eq x h t))
  | inr t ↦ inr (contains-In h set (rw t at e))
]

In-contains : (h : List ℕ) (set : List (List ℕ)) → In h set → contains h set ≡ true
unfolding contains
In-contains h [] m = absurd m
In-contains h (x ∷ set) (inl e) = rw (ap (λ y. hash_eq y h) (sym e) ∙ hash_eq_refl h)
In-contains h (x ∷ set) (inr m) = elim (Bool-cases (hash_eq x h)) [
  | inl t ↦ rw t
  | inr t ↦ rw t (In-contains h set m)
]

In-difference :
    (h : List ℕ) (set other : List (List ℕ))
    → In h (difference set other)
    → In h set × (contains h other ≡ false)
unfolding difference
In-difference h [] other m = absurd m
In-difference h (x ∷ set) other m = elim (Bool-cases (contains x other)) [
  | inl t ↦ let (there, apart) = In-difference h set other (rw t at m) in (inr there, apart)
  | inr t ↦
      let m' : (h ≡ x) ⊎ In h (difference set other) = rw t at m in
      elim m' [
        | inl e ↦ (inl e, ap (λ y. contains y other) e ∙ t)
        | inr n ↦ let (there, apart) = In-difference h set other n in (inr there, apart)
      ]
]

difference-In :
    (h : List ℕ) (set other : List (List ℕ))
    → In h set
    → contains h other ≡ false
    → In h (difference set other)
unfolding difference
difference-In h [] other m e = absurd m
difference-In h (x ∷ set) other m e = elim (Bool-cases (contains x other)) [
  | inl t ↦ elim m [
    | inl same ↦ let u : contains h other ≡ true = ap (λ y. contains y other) same ∙ t in cc
    | inr n ↦ rw t (difference-In h set other n e)
  ]
  | inr t ↦ elim m [
    | inl same ↦ rw t (inl same)
    | inr n ↦ rw t (inr (difference-In h set other n e))
  ]
]

-- Truncation takes no more than the module has.
pub custom_bytes-render :
    (codec : Leb128) (ss : List Section) → custom_bytes ss ≤ length (render codec ss)
unfolding custom_bytes render
custom_bytes-render codec [] = omega arith
custom_bytes-render codec (custom header name data_ data_offset content ∷ ss) = omega (
  arith,
  length-append header (content ++ render codec ss),
  length-append content (render codec ss),
  custom_bytes-render codec ss,
)
custom_bytes-render codec (plain header id content ∷ ss) = omega (
  arith,
  length-append header (content ++ render codec ss),
  length-append content (render codec ss),
  custom_bytes-render codec ss,
)
custom_bytes-render codec (code header count fs ∷ ss) = omega (
  arith,
  length-append header (code_content codec count fs ++ render codec ss),
  length-append (code_content codec count fs) (render codec ss),
  custom_bytes-render codec ss,
)

minus_lines :
    (left right all : List (List ℕ))
    → ((h : List ℕ) → In h left → contains h all ≡ true)
    → map (diff_line all) (difference left right) ≡ map minus (difference left right)
unfolding difference
minus_lines [] right all h = refl
minus_lines (x ∷ left) right all h = elim (Bool-cases (contains x right)) [
  | inl t ↦ rw t (minus_lines left right all (λ y m. h y (inr m)))
  | inr t ↦ rw t (
      ap₂ (λ a b. a ∷ b) (unfold diff_line in rw (h x (inl refl)))
        (minus_lines left right all (λ y m. h y (inr m))))
]

plus_lines :
    (left right : List (List ℕ))
    → map (diff_line left) (difference right left) ≡ map plus (difference right left)
unfolding difference
plus_lines left [] = refl
plus_lines left (x ∷ right) = elim (Bool-cases (contains x left)) [
  | inl t ↦ rw t (plus_lines left right)
  | inr t ↦ rw t (ap₂ (λ a b. a ∷ b) (unfold diff_line in rw t) (plus_lines left right))
]

map-append : (f : List ℕ → Line) (xs ys : List (List ℕ)) → map f (xs ++ ys) ≡ map f xs ++ map f ys
map-append f [] ys = refl
map-append f (x ∷ xs) ys = ap (λ l. f x ∷ l) (map-append f xs ys)

lines_lem :
    (left right : List (List ℕ))
    → map (diff_line left) (symmetric_difference left right)
      ≡ map minus (difference left right) ++ map plus (difference right left)
lines_lem left right =
    unfold symmetric_difference in
    map-append (diff_line left) (difference left right) (difference right left)
    ∙ ap₂ (λ a b. a ++ b) (minus_lines left right left (λ h m. In-contains h left m))
        (plus_lines left right)

-- When both modules are split and no more is truncated of each than it has, the comparison
-- succeeds: it prints the hashes that only the left archive has with a minus, then those that only
-- the right one has with a plus, and for each side the size of the archive and that of the module
-- without what was truncated.
pub compare_sets-difference :
    (crates : Crates) (left_src right_src : List ℕ) (a b : SplitModuleResult)
    → split_module crates left_src ≡ ok a
    → split_module crates right_src ≡ ok b
    → a.bytes_truncated ≤ length left_src
    → b.bytes_truncated ≤ length right_src
    → compare_sets crates left_src right_src
      ≡ ok (record {
        lines =
            map minus (difference (hash_set a) (hash_set b))
            ++ map plus (difference (hash_set b) (hash_set a));
        left = (length a.archive.out_buf, length left_src - a.bytes_truncated);
        right = (length b.archive.out_buf, length right_src - b.bytes_truncated);
      })
compare_sets-difference crates left_src right_src a b e f h k =
    let left_lem : checked_sub (length left_src) a.bytes_truncated
        ≡ ok (length left_src - a.bytes_truncated) =
      unfold checked_sub in rw (le→ltb_false (length left_src) a.bytes_truncated h) in
    let right_lem : checked_sub (length right_src) b.bytes_truncated
        ≡ ok (length right_src - b.bytes_truncated) =
      unfold checked_sub in rw (le→ltb_false (length right_src) b.bytes_truncated k) in
    unfold compare_sets in rw (e, f, left_lem, right_lem, lines_lem (hash_set a) (hash_set b))

-- A hash is in a difference just if it is in the one set and not in the other.
pub difference_lem :
    (h : List ℕ) (set other : List (List ℕ))
    → In h (difference set other) ↔ (In h set × (In h other → ⊥))
difference_lem h set other = (
  λ m.
      let (there, apart) = In-difference h set other m in
      (there, λ n. let found = In-contains h other n in cc),
  λ m. elim (Bool-cases (contains h other)) [
    | inl t ↦ absurd (m.1 (contains-In h other t))
    | inr t ↦ difference-In h set other m.0 t
  ],
)
