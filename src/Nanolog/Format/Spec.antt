-- ===== src/Nanolog/Format/Spec.antt =====
-- The conversions of a format, and that the two passes of FormatUtil.hpp find exactly these.
use my_practise.Base.{
  ℕ, ◌+◌, ◌≡◌, refl, ◌∙◌, ap, inl, inr, List, [], ◌∷◌, ◌++◌, map, Option, none, some, Bool-cases,
  ◌==◌, if◌then◌else◌, length, length-append, arith, append_assoc, sym, subst,
}
use mathlib.Core.Option
use mathlib.Core.Option.{none-ne-some}
use native.Mathlib.Nat.{add-zero}
use my_practise.Nanolog.Format.{
  ParamType, marker_to_param_type, count_from, count_param_types, assign, value_initialised,
  analyze_from, analyze_params_format,
}

-- The characters that follow a `%`, `%%` apart; `none` if a `%` ends the text.
unfoldable pub conversions : List ℕ → Option (List ℕ)
conversions [] = some []
conversions (c ∷ []) = if c == b'%' then none else some []
conversions (c ∷ d ∷ r) =
    let kept = conversions r in
    let taken = Option.map (λ ds. d ∷ ds) (conversions r) in
    let plain = conversions (d ∷ r) in
    if c == b'%' then (if d == b'%' then kept else taken) else plain

map-map_count :
    (ret d : ℕ) (o : Option (List ℕ))
    → Option.map (λ ds. ret + 1 + length ds) o
      ≡ Option.map (λ ds. ret + length ds) (Option.map (λ ds. d ∷ ds) o)
map-map_count ret d none = refl
map-map_count ret d (some ds) = ground arith

count_from-conversions :
    (ret : ℕ) (s : List ℕ) → count_from ret s ≡ Option.map (λ ds. ret + length ds) (conversions s)
unfolding count_from conversions
count_from-conversions ret [] = ground arith
count_from-conversions ret (c ∷ []) = ground arith
count_from-conversions ret (c ∷ d ∷ r) = elim (Bool-cases (c == b'%')) [
  | inr plain ↦ rw plain (count_from-conversions ret (d ∷ r))
  | inl marked ↦ rw marked (elim (Bool-cases (d == b'%')) [
    | inl escaped ↦ rw escaped (
        count_from-conversions (ret + 0) r
        ∙ ap (λ n. Option.map (λ ds. n + length ds) (conversions r)) (add-zero ret))
    | inr taken ↦
        rw taken (count_from-conversions (ret + 1) r ∙ map-map_count ret d (conversions r))
  ])
]

map-zero_add : (o : Option (List ℕ)) → Option.map (λ ds. 0 + length ds) o ≡ Option.map length o
map-zero_add none = refl
map-zero_add (some ds) = ground arith

-- The first pass counts the conversions of the format, and faults exactly where a `%` ends it.
pub count_param_types-conversions :
    (s : List ℕ) → count_param_types s ≡ Option.map length (conversions s)
unfolding count_param_types
count_param_types-conversions s = count_from-conversions 0 s ∙ map-zero_add (conversions s)

-- Writing behind `done` in an array that is long enough.
assign-append :
    (done rest : List ParamType) (x t : ParamType)
    → assign (done ++ x ∷ rest) (length done) t ≡ some (done ++ t ∷ rest)
unfolding assign
assign-append [] rest x t = refl
assign-append (y ∷ done) rest x t = rw (assign-append done rest x t)

-- What is behind a conversion `d`, where the whole format converts.
rest_of_taken :
    (d : ℕ) (o : Option (List ℕ)) (ds : List ℕ)
    → Option.map (λ es. d ∷ es) o ≡ some ds
    → (es : List ℕ) × (o ≡ some es) × (ds ≡ d ∷ es)
rest_of_taken d none ds e = cc
rest_of_taken d (some es) ds e = (es, refl, cc)

analyze_taken :
    (done : List ParamType) (t : ParamType) (es r : List ℕ) (cur : ℕ)
    → cur ≡ length done
    → analyze_from (cur + 1) ((done ++ t ∷ []) ++ value_initialised (length es)) r
      ≡ some ((done ++ t ∷ []) ++ map marker_to_param_type es)
    → Option.bind
        (assign (done ++ ParamType.string ∷ value_initialised (length es)) cur t)
        (λ ret. analyze_from (cur + 1) ret r)
      ≡ some (done ++ t ∷ map marker_to_param_type es)
unfolding Option.bind
analyze_taken done t es r cur l h =
    let rest = value_initialised (length es) in
    let wrote : assign (done ++ ParamType.string ∷ rest) cur t ≡ some (done ++ t ∷ rest) =
      rw l (assign-append done rest ParamType.string t) in
    ap (λ o. Option.bind o (λ ret. analyze_from (cur + 1) ret r)) wrote ∙ (simp append_assoc at h)

analyze_from-conversions :
    (s : List ℕ) (done : List ParamType) (ds : List ℕ) (cur : ℕ)
    → conversions s ≡ some ds
    → cur ≡ length done
    → analyze_from cur (done ++ value_initialised (length ds)) s
      ≡ some (done ++ map marker_to_param_type ds)
unfolding analyze_from conversions value_initialised
analyze_from-conversions [] done [] cur e l = refl
analyze_from-conversions [] done (x ∷ ds) cur e l = cc
analyze_from-conversions (c ∷ []) done [] cur e l = ground arith
analyze_from-conversions (c ∷ []) done (x ∷ ds) cur e l = ground arith
analyze_from-conversions (c ∷ d ∷ r) done ds cur e l = elim (Bool-cases (c == b'%')) [
  | inr plain ↦ rw plain (analyze_from-conversions (d ∷ r) done ds cur (rw plain at e) l)
  | inl marked ↦ rw marked (elim (Bool-cases (d == b'%')) [
    | inl escaped ↦
        rw escaped (analyze_from-conversions r done ds cur (rw (marked, escaped) at e) l)
    | inr taken ↦ rw taken (
        let (es, conv, shape) = rest_of_taken d (conversions r) ds (rw (marked, taken) at e) in
        let t = marker_to_param_type d in
        let step =
          analyze_from-conversions r (done ++ t ∷ []) es (cur + 1) conv
            (omega (arith, length-append done (t ∷ []))) in
        subst
          (λ ds'.
            Option.bind (assign (done ++ value_initialised (length ds')) cur t)
              (λ ret. analyze_from (cur + 1) ret r)
            ≡ some (done ++ map marker_to_param_type ds'))
          (sym shape) (analyze_taken done t es r cur l step))
  ])
]

-- With the number of parameters that the first pass counts, the second pass stays inside its array
-- and fills it with the types of the conversions, in order.
pub analyze-count :
    (s : List ℕ) (n : ℕ)
    → count_param_types s ≡ some n
    → analyze_params_format n s ≡ Option.map (map marker_to_param_type) (conversions s)
unfolding analyze_params_format
analyze-count s n e = go (conversions s) refl
  where
    go :
        (o : Option (List ℕ))
        → conversions s ≡ o
        → analyze_from 0 (value_initialised n) s ≡ Option.map (map marker_to_param_type) o
    go none f =
        absurd
          (none-ne-some n (sym (count_param_types-conversions s ∙ ap (Option.map length) f) ∙ e))
    go (some ds) f =
        let both : Option.map length (some ds) ≡ some n =
          sym (count_param_types-conversions s ∙ ap (Option.map length) f) ∙ e in
        let count : length ds ≡ n = cc in rw (← count) (analyze_from-conversions s [] ds 0 f refl)
