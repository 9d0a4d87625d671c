-- ===== src/Base/Bytes.antt =====
-- Byte memory as a function of the offset: stores of a block, reads of a block.
use my_practise.Base.Tests.{◌==◌, if◌then◌else◌}
use my_practise.Base.Lists.{length, drop}
use Prim.Native.Nat.{ℕ, zero, suc, ◌+◌, ◌≤◌, ◌<◌}
use mathlib.Core.Path.{◌≡◌, refl, ap, ap₂}
use mathlib.Core.Logic.{◌⊎◌}
use mathlib.Core.List.{List, [], ◌∷◌, ◌++◌}
use native.Mathlib.Omega.{arith}

abbrev pub Memory : Type 0
Memory = ℕ → ℕ

-- `m[p] = v`
abbrev pub update {ℓ} : {A : Type ℓ} → (ℕ → A) → ℕ → A → ℕ → A
update m p v q = if p == q then v else m q

-- `memcpy(&m[p], xs, xs.size())`
unfoldable pub store : Memory → ℕ → List ℕ → Memory
store m p [] = m
store m p (x ∷ xs) = store (update m p x) (p + 1) xs

-- The `n` bytes from offset `p` on.
unfoldable pub bytes : Memory → ℕ → ℕ → List ℕ
bytes m p zero = []
bytes m p (suc n) = m p ∷ bytes m (p + 1) n

pub length-bytes : (m : Memory) (p n : ℕ) → length (bytes m p n) ≡ n
unfolding bytes
length-bytes m p zero = refl
length-bytes m p (suc n) = ap suc (length-bytes m (p + 1) n)

-- A block is the block of its first `a` bytes and the one behind it.
pub bytes-add :
    (m : Memory) (p a b c q : ℕ) → c ≡ a + b → q ≡ p + a → bytes m p c ≡ bytes m p a ++ bytes m q b
unfolding bytes
bytes-add m p zero b c q e f = ap₂ (bytes m) (omega arith) (omega arith)
bytes-add m p (suc a) b zero q e f = absurd (omega arith)
bytes-add m p (suc a) b (suc c) q e f =
    ap (λ r. m p ∷ r) (bytes-add m (p + 1) a b c q (omega arith) (omega arith))

pub drop-bytes :
    (m : Memory) (p k n q l : ℕ) → n ≡ k + l → q ≡ p + k → drop k (bytes m p n) ≡ bytes m q l
unfolding bytes
drop-bytes m p zero n q l e f = ap₂ (bytes m) (omega arith) (omega arith)
drop-bytes m p (suc k) zero q l e f = absurd (omega arith)
drop-bytes m p (suc k) (suc n) q l e f = drop-bytes m (p + 1) k n q l (omega arith) (omega arith)

-- Memories that agree on a block give the same bytes.
pub bytes_ext :
    (m m' : Memory) (p n : ℕ)
    → ((q : ℕ) → p ≤ q → q < p + n → m q ≡ m' q)
    → bytes m p n ≡ bytes m' p n
unfolding bytes
bytes_ext m m' p zero h = refl
bytes_ext m m' p (suc n) h =
    ap₂ ◌∷◌ (h p (omega arith) (omega arith))
      (bytes_ext m m' (p + 1) n (λ q lo hi. h q (omega arith) (omega arith)))

-- A store changes nothing outside its block.
pub store_outside :
    (m : Memory) (p : ℕ) (xs : List ℕ) (q : ℕ)
    → ((q < p) ⊎ (p + length xs ≤ q))
    → store m p xs q ≡ m q
unfolding store
store_outside m p [] q h = refl
store_outside m p (x ∷ xs) q h = ground (arith, store_outside (update m p x) (p + 1) xs q)

pub bytes-store_apart :
    (m : Memory) (p : ℕ) (xs : List ℕ) (q n : ℕ)
    → ((q + n ≤ p) ⊎ (p + length xs ≤ q))
    → bytes (store m p xs) q n ≡ bytes m q n
bytes-store_apart m p xs q n h =
    bytes_ext (store m p xs) m q n (λ r lo hi. store_outside m p xs r (omega arith))

pub bytes-store_self : (m : Memory) (p : ℕ) (xs : List ℕ) → bytes (store m p xs) p (length xs) ≡ xs
unfolding store bytes
bytes-store_self m p [] = refl
bytes-store_self m p (x ∷ xs) =
    ap₂ ◌∷◌ (ground (arith, store_outside (update m p x) (p + 1) xs p))
      (bytes-store_self (update m p x) (p + 1) xs)
