-- ===== src/Luogu/Choices/Every.antt =====
-- The lines are the words of N and Y in order.
use my_practise.Base.{
  ℕ, zero, suc, ◌+◌, ◌<◌, ◌≤◌, ◌≡◌, refl, sym, ap, ap₂, ◌∙◌, List, [], ◌∷◌, ◌++◌, map, append_assoc,
  append-nil, ◌==◌, update, bytes, bytes-add, bytes_ext, subst, Bool-cases, inl, inr, arith,
}
use my_practise.Luogu.Choices.{c_string, dfs, print_choices, Written}

-- The words of the given length, N before Y.
abbrev pub words : ℕ → List (List ℕ)
words zero = [] ∷ []
words (suc n) = map (λ w. 78 ∷ w) (words n) ++ map (λ w. 89 ∷ w) (words n)

-- A string is its bytes up to the 0.
c_string-bytes :
    (a : ℕ → ℕ) (n p room : ℕ)
    → ((j : ℕ) → p ≤ j → j < p + n → 0 < a j)
    → a (p + n) ≡ 0
    → n < room
    → c_string a room p ≡ bytes a p n
unfolding c_string bytes
c_string-bytes a n p zero h z l = ground arith
c_string-bytes a zero p (suc room) h z l =
    let e : a p ≡ 0 = ap a (omega arith) ∙ z in ground (arith, e)
c_string-bytes a (suc n) p (suc room) h z l =
    let e = h p (omega arith) (omega arith) in
    let end : a (p + 1 + n) ≡ 0 = ap a (omega arith) ∙ z in
    let rest =
      c_string-bytes a n (p + 1) room (λ j g g'. h j (omega arith) (omega arith)) end
        (omega arith) in
    let same : c_string a room (suc p) ≡ c_string a room (p + 1) =
      ap (c_string a room) (omega arith) in
    ground (arith, e, same, rest)

-- The characters in front of place i are none of them 0, and the string ends at place n.
abbrev Started : ℕ → ℕ → (ℕ → ℕ) → Type 0
Started n i a = ((j : ℕ) → j < i → 0 < a j) × (a n ≡ 0)

-- The lines that `dfs` adds: the words behind what is in front of place i.
abbrev lines : (ℕ → ℕ) → ℕ → ℕ → List (List ℕ)
lines a i rounds = map (λ w. bytes a 0 i ++ w) (words rounds)

-- What `dfs` returns: the places in front of i and behind the last as before, and the lines.
abbrev Done : ℕ → ℕ → (ℕ → ℕ) → List (List ℕ) → Written → Type 0
Done rounds i a out r =
    ((j : ℕ) → j < i → r.0 j ≡ a j)
    × (r.0 (i + rounds) ≡ a (i + rounds))
    × (r.1 ≡ out ++ lines a i rounds)

map-append : (f : List ℕ → List ℕ) (xs ys : List (List ℕ)) → map f (xs ++ ys) ≡ map f xs ++ map f ys
map-append f [] ys = refl
map-append f (x ∷ xs) ys = ap (λ zs. f x ∷ zs) (map-append f xs ys)

-- The bytes with one more place, for arrays that agree in front of it.
bytes-place :
    (a b : ℕ → ℕ) (i c : ℕ)
    → ((j : ℕ) → j < i → b j ≡ a j)
    → b i ≡ c
    → bytes b 0 (suc i) ≡ bytes a 0 i ++ c ∷ []
unfolding bytes
bytes-place a b i c h e =
    bytes-add b 0 i 1 (suc i) i (omega arith) (omega arith)
    ∙ ap₂ (λ xs y. xs ++ y ∷ []) (bytes_ext b a 0 i (λ q lo hi. h q (omega arith))) e

lines-place :
    (a b : ℕ → ℕ) (i c : ℕ) (ws : List (List ℕ))
    → ((j : ℕ) → j < i → b j ≡ a j)
    → b i ≡ c
    → map (λ w. bytes b 0 (suc i) ++ w) ws ≡ map (λ w. bytes a 0 i ++ w) (map (λ w. c ∷ w) ws)
lines-place a b i c [] h e = refl
lines-place a b i c (w ∷ ws) h e =
    ap₂ (λ x xs. x ∷ xs)
      (ap (λ x. x ++ w) (bytes-place a b i c h e) ∙ append_assoc (bytes a 0 i) (c ∷ []) w)
      (lines-place a b i c ws h e)

Started-update :
    (n i c : ℕ) (a : ℕ → ℕ) → 0 < c → i < n → Started n i a → Started n (suc i) (update a i c)
Started-update n i c a k l (s, z) = (
  (λ j g. elim (Bool-cases (j == i)) [
    | inl e ↦ ground (arith, e)
    | inr e ↦ ground (arith, e, s j (ground (arith, e)))
  ]),
  ground (arith, z),
)

dfs-Done :
    (rounds i : ℕ) (a : ℕ → ℕ) (out : List (List ℕ))
    → i + rounds < 13
    → Started (i + rounds) i a
    → Done rounds i a out (dfs rounds i (a, out))
unfolding dfs
dfs-Done zero i a out h (s, z) = (
  (λ j g. refl),
  refl,
  ap (λ w. out ++ w ∷ [])
      (c_string-bytes a i 0 13 (λ j g g'. s j (omega arith)) (ap a (omega arith) ∙ z) (omega arith)
        ∙ sym (append-nil (bytes a 0 i))),
)
dfs-Done (suc rounds) i a out h (s, z) =
    let e : suc i + rounds ≡ i + suc rounds = omega arith in
    let a1 = update a i 78 in
    let no = dfs rounds (suc i) (a1, out) in
    let a2 = update no.0 i 89 in
    let last = dfs rounds (suc i) (a2, no.1) in
    let s1 = Started-update (i + suc rounds) i 78 a (omega arith) (omega arith) (s, z) in
    let (front, end, printed) =
      dfs-Done rounds (suc i) a1 out (omega arith) (subst (λ n. Started n (suc i) a1) (sym e) s1) in
    let front' : (j : ℕ) → j < i → no.0 j ≡ a j = λ j g. front j (omega arith) ∙ ground arith in
    let end' : no.0 (i + suc rounds) ≡ a (i + suc rounds) =
      ap no.0 (sym e) ∙ end ∙ ap a1 e ∙ ground arith in
    let s2 =
      Started-update (i + suc rounds) i 89 no.0 (omega arith) (omega arith)
        ((λ j g. subst (λ x. 0 < x) (sym (front' j g)) (s j g)), end' ∙ z) in
    let (front2, end2, printed2) =
      dfs-Done rounds (suc i) a2 no.1 (omega arith)
        (subst (λ n. Started n (suc i) a2) (sym e) s2) in
    (
      (λ j g. front2 j (omega arith) ∙ ground (arith, front' j g)),
      ap last.0 (sym e) ∙ end2 ∙ ap a2 e ∙ ground (arith, end'),
      printed2
          ∙ ap₂ ◌++◌
              (printed
                ∙ ap (λ x. out ++ x)
                    (lines-place a a1 i 78 (words rounds) (λ j g. ground arith) (ground arith)))
              (lines-place a a2 i 89 (words rounds) (λ j g. ground (arith, front' j g))
                (ground arith))
          ∙ append_assoc out (map (λ w. bytes a 0 i ++ w) (map (λ w. 78 ∷ w) (words rounds)))
              (map (λ w. bytes a 0 i ++ w) (map (λ w. 89 ∷ w) (words rounds)))
          ∙ ap (λ x. out ++ x)
              (sym (
                map-append (λ w. bytes a 0 i ++ w) (map (λ w. 78 ∷ w) (words rounds))
                  (map (λ w. 89 ∷ w) (words rounds)))),
    )

map_id : (ws : List (List ℕ)) → map (λ w. w) ws ≡ ws
map_id [] = refl
map_id (w ∷ ws) = ap (λ x. w ∷ x) (map_id ws)

-- For at most 12 places, what the array has room for, the program prints all words of N and Y, each once, in
-- order with N before Y.
pub print_choices-words : (n : ℕ) → n < 13 → print_choices n ≡ words n
unfolding print_choices bytes
print_choices-words n h =
    (dfs-Done n 0 (update (λ p. 0) n 0) [] (omega arith) ((λ j g. ground arith), ground arith)).2
    ∙ map_id (words n)
