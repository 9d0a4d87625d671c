-- ===== src/Luogu/Powers/Tests.antt =====
-- Powers and inverses modulo 7.
use my_practise.Base.{zero, suc, ◌%◌, ◌^◌, ◌≡◌, refl, some, arith}
use my_practise.Luogu.Powers.{fastpower}
use my_practise.Luogu.Powers.Power.{fastpower-power}
use my_practise.Luogu.Powers.Inverses.{Undivided}

fastpower-run : fastpower 3 5 7 ≡ some 5
unfolding fastpower
fastpower-run = refl

fastpower-power_example : fastpower 3 5 7 ≡ some (3 ^ 5 % 7)
fastpower-power_example = fastpower-power 3 5 7 (omega arith) (omega arith)

five-Undivided : Undivided 5
five-Undivided zero h k e = omega arith
five-Undivided (suc zero) h k e = omega arith
five-Undivided (suc (suc zero)) h k e = omega arith
five-Undivided (suc (suc (suc zero))) h k e = omega arith
five-Undivided (suc (suc (suc (suc zero)))) h k e = omega arith
five-Undivided (suc (suc (suc (suc (suc i))))) h k e = omega arith
