-- ===== src/Nanolog/Format/Tests.antt =====
-- FormatUtil.hpp at "%d is 5%% of %s".
use my_practise.Base.{ℕ, ◌≡◌, refl, List, [], ◌∷◌, some, map}
use mathlib.Core.Option
use my_practise.Nanolog.Format.{
  ParamType, count_param_types, analyze_params_format, marker_to_param_type,
}
use my_practise.Nanolog.Format.Spec.{conversions, analyze-count}

abbrev format : List ℕ
format = b'%' ∷ b'd' ∷ b' ' ∷ b'5' ∷ b'%' ∷ b'%' ∷ b' ' ∷ b'%' ∷ b's' ∷ 0 ∷ []

analyzed : analyze_params_format 2 format ≡ some (ParamType.non_string ∷ ParamType.string ∷ [])
unfolding analyze_params_format Option.bind
analyzed = refl

format-conversions : conversions format ≡ some (b'd' ∷ b's' ∷ [])
unfolding conversions
format-conversions = refl

analyze-count_example :
    analyze_params_format 2 format ≡ Option.map (map marker_to_param_type) (conversions format)
unfolding count_param_types
analyze-count_example = analyze-count format 2 refl
