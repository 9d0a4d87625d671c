-- ===== src/Nanolog/Format.antt =====
-- nanolog/include/FormatUtil.hpp: the compile-time analysis of a printf-like format, and
-- nanolog/include/LoggerInfo.hpp's `ParamType`. A format is the list of its characters with the
-- terminating NUL; a read or a write outside an array, which a constant expression may not make, is
-- `none`.
pub mod Spec
mod Tests
use my_practise.Base.{
  ℕ, zero, suc, ◌+◌, ◌≡◌, Bool, true, false, ◌||◌, List, [], ◌∷◌, Option, none, some, ltb, ◌==◌,
  if◌then◌else◌, length,
}
use mathlib.Core.Option

-- `enum ParamType`; the enumerators that share a value are one constructor.
pub data ParamType : Type 0 where
  invalid dynamic_width dynamic_precision non_string string : ParamType

abbrev pub is_legal_marker : ℕ → Bool
is_legal_marker c = c == b'%' || c == b'd' || c == b's' || c == b'f' || c == b'c'

unfoldable pub marker_to_param_type : ℕ → ParamType
marker_to_param_type c =
    if c == b'd'
    then ParamType.non_string
    else if c == b'f'
    then ParamType.non_string
    else if c == b'c'
    then ParamType.non_string
    else if c == b's'
    then ParamType.string
    else ParamType.invalid

-- `ret += stringFormat[i] != '%'`
abbrev pub counted : ℕ → ℕ
counted d = if d == b'%' then 0 else 1

-- The loop of `count_param_types` from the current character on, with `ret` so far.
unfoldable pub count_from : ℕ → List ℕ → Option ℕ
count_from ret [] = some ret
count_from ret (c ∷ []) = if c == b'%' then none else some ret
count_from ret (c ∷ d ∷ r) =
    let escape = count_from (ret + counted d) r in
    let plain = count_from ret (d ∷ r) in if c == b'%' then escape else plain

unfoldable pub count_param_types : List ℕ → Option ℕ
unfolding count_from
count_param_types s = count_from 0 s

-- `ret[cur] = t`, inside the array.
unfoldable pub assign : List ParamType → ℕ → ParamType → Option (List ParamType)
assign [] cur t = none
assign (x ∷ xs) zero t = some (t ∷ xs)
assign (x ∷ xs) (suc cur) t = Option.map (λ r. x ∷ r) (assign xs cur t)

-- `ret{}`: the enumerator of value 0 is `STRING`.
unfoldable pub value_initialised : ℕ → List ParamType
value_initialised zero = []
value_initialised (suc n) = ParamType.string ∷ value_initialised n

-- The loop of `analyze_params_format` from the current character on.
unfoldable pub analyze_from : ℕ → List ParamType → List ℕ → Option (List ParamType)
unfolding assign marker_to_param_type
analyze_from cur ret [] = some ret
analyze_from cur ret (c ∷ []) = if c == b'%' then none else some ret
analyze_from cur ret (c ∷ d ∷ r) =
    let written =
      Option.bind (assign ret cur (marker_to_param_type d))
        (λ ret'. analyze_from (cur + 1) ret' r) in
    let kept = analyze_from cur ret r in
    let plain = analyze_from cur ret (d ∷ r) in
    if c == b'%' then (if d == b'%' then kept else written) else plain

unfoldable pub analyze_params_format : ℕ → List ℕ → Option (List ParamType)
unfolding analyze_from value_initialised
analyze_params_format n_types s = analyze_from 0 (value_initialised n_types) s

-- `check_number_match<NTypes>(args...)`, for the number of arguments.
unfoldable pub check_number_match : ℕ → ℕ → Bool
check_number_match n_types args = n_types == args
