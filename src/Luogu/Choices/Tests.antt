-- ===== src/Luogu/Choices/Tests.antt =====
-- The choices for two places: NN, NY, YN, YY.
use my_practise.Base.{◌≡◌, refl, [], ◌∷◌}
use my_practise.Luogu.Choices.{print_choices}

print_choices-run :
    print_choices 2 ≡ (78 ∷ 78 ∷ []) ∷ (78 ∷ 89 ∷ []) ∷ (89 ∷ 78 ∷ []) ∷ (89 ∷ 89 ∷ []) ∷ []
unfolding print_choices
print_choices-run = refl
