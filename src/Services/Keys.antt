-- ===== src/Services/Keys.antt =====
-- Cache keys: the fields of a request printed with `|` between them (`fmt.Sprintf("%s|%s|…")` in
-- the providers under internal/services). A key determines its fields where none has a `|`.
use gitfusion.Prelude.{
  ℕ, suc, ◌+◌, ◌≡◌, refl, ap, List, [], ◌∷◌, ◌++◌, GoString, All, length, count, count-append,
  arith,
}

unfoldable pub join_bar : List GoString → GoString
join_bar [] = []
join_bar (x ∷ []) = x
join_bar (x ∷ y ∷ r) = x ++ b'|' ∷ join_bar (y ∷ r)

abbrev pub NoBar : GoString → Type 0
NoBar s = count b'|' s ≡ 0

total : List GoString → ℕ
total [] = 0
total (x ∷ xs) = count b'|' x + total xs

count-bar_cons : (s : GoString) → count b'|' (b'|' ∷ s) ≡ suc (count b'|' s)
unfolding count
count-bar_cons s = refl

count-join_bar :
    (x : GoString) (xs : List GoString)
    → count b'|' (join_bar (x ∷ xs)) ≡ total (x ∷ xs) + length xs
unfolding join_bar total
count-join_bar x [] = omega arith
count-join_bar x (y ∷ r) = omega (
  arith,
  count-append b'|' x (b'|' ∷ join_bar (y ∷ r)),
  count-bar_cons (join_bar (y ∷ r)),
  count-join_bar y r,
)

total-All : (xs : List GoString) → All NoBar xs → total xs ≡ 0
unfolding total
total-All [] h = refl
total-All (x ∷ xs) h = omega (arith, total-All xs h.1)

All-total : (xs : List GoString) → total xs ≡ 0 → All NoBar xs
unfolding total
All-total [] h = tt
All-total (x ∷ xs) h = (omega arith, All-total xs (omega arith))

split_bar :
    (a b r t : GoString) → NoBar a → NoBar b → a ++ b'|' ∷ r ≡ b ++ b'|' ∷ t → (a ≡ b) × (r ≡ t)
unfolding count
split_bar [] [] r t h k e = (refl, cc)
split_bar [] (d ∷ b) r t h k e = ground arith
split_bar (c ∷ a) [] r t h k e = ground arith
split_bar (c ∷ a) (d ∷ b) r t h k e = ground (arith, split_bar a b r t)

join_bar-eq :
    (xs ys : List GoString)
    → length xs ≡ length ys
    → All NoBar xs
    → All NoBar ys
    → join_bar xs ≡ join_bar ys
    → xs ≡ ys
unfolding join_bar
join_bar-eq [] [] n h k e = refl
join_bar-eq [] (y ∷ ys) n h k e = absurd (omega arith)
join_bar-eq (x ∷ xs) [] n h k e = absurd (omega arith)
join_bar-eq (x ∷ []) (y ∷ []) n h k e = ap (λ z. z ∷ []) e
join_bar-eq (x ∷ []) (y ∷ z ∷ ys) n h k e = absurd (omega arith)
join_bar-eq (x ∷ z ∷ xs) (y ∷ []) n h k e = absurd (omega arith)
join_bar-eq (x ∷ u ∷ xs) (y ∷ v ∷ ys) n h k e =
    let (same, rest) = split_bar x y (join_bar (u ∷ xs)) (join_bar (v ∷ ys)) h.0 k.0 e in
    cc (same, join_bar-eq (u ∷ xs) (v ∷ ys) (omega arith) h.1 k.1 rest)

-- A key of fields without `|` is the key of no other list of as many fields, with or without `|`.
pub join_bar-injective :
    (x y : GoString) (xs ys : List GoString)
    → length xs ≡ length ys
    → All NoBar (x ∷ xs)
    → join_bar (x ∷ xs) ≡ join_bar (y ∷ ys)
    → x ∷ xs ≡ y ∷ ys
join_bar-injective x y xs ys n h e =
    join_bar-eq (x ∷ xs) (y ∷ ys) (omega arith) h
      (All-total (y ∷ ys) (
        omega (
          arith,
          count-join_bar x xs,
          count-join_bar y ys,
          ap (count b'|') e,
          total-All (x ∷ xs) h,
        )))
      e
