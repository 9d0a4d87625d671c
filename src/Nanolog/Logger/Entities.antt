-- ===== src/Nanolog/Logger/Entities.antt =====
-- The ids of the log statements lead to the information that each was first registered with.
use my_practise.Base.{
  ℕ, zero, suc, ◌+◌, ◌^◌, ◌<◌, ◌≤◌, ◌≡◌, refl, sym, ap, ◌∙◌, List, [], ◌∷◌, ◌++◌, Option, none,
  some, ◌==◌, if◌then◌else◌, length, get_elem?, ℤ, pos, negsuc, to_int32-small, Bool-cases, inl,
  inr, arith,
}
use my_practise.Nanolog.Logger.{
  LoggerInfo, Logger, register_new_logger_entity, logger_id_unsigned, make_logger,
}

module _ {A : Type 0} where
  get_elem?-append :
      (xs ys : List A) (k : ℕ) → k < length xs → get_elem? (xs ++ ys) k ≡ get_elem? xs k
  get_elem?-append [] ys k h = ground arith
  get_elem?-append (x ∷ xs) ys zero h = refl
  get_elem?-append (x ∷ xs) ys (suc k) h = get_elem?-append xs ys k (omega arith)

  get_elem?-last : (xs : List A) (y : A) → get_elem? (xs ++ y ∷ []) (length xs) ≡ some y
  get_elem?-last [] y = refl
  get_elem?-last (x ∷ xs) y = get_elem?-last xs y

  length-snoc : (xs : List A) (y : A) → length (xs ++ y ∷ []) ≡ suc (length xs)
  length-snoc [] y = refl
  length-snoc (x ∷ xs) y = ap suc (length-snoc xs y)

  abbrev or_else : Option A → Option A → Option A
  or_else none y = y
  or_else (some x) y = some x

  or_else-none : (x : Option A) → or_else x none ≡ x
  or_else-none none = refl
  or_else-none (some x) = refl

  or_else_assoc : (x y z : Option A) → or_else (or_else x y) z ≡ or_else x (or_else y z)
  or_else_assoc none y z = refl
  or_else_assoc (some x) y z = refl

  or_else-get_elem? :
      (xs : List A) (k : ℕ) (y : Option A)
      → k < length xs
      → or_else (get_elem? xs k) y ≡ get_elem? xs k
  or_else-get_elem? [] k y h = ground arith
  or_else-get_elem? (x ∷ xs) zero y h = refl
  or_else-get_elem? (x ∷ xs) (suc k) y h = or_else-get_elem? xs k y (omega arith)

  -- What an id leads to.
  abbrev pub at_id : ℤ → List A → Option A
  at_id (pos k) xs = get_elem? xs k
  at_id (negsuc k) xs = none

  -- The first of a statement's registrations.
  abbrev pub first_info : List (ℕ × A) → ℕ → Option A
  first_info [] s = none
  first_info ((t, x) ∷ calls) s = if s == t then some x else first_info calls s

  abbrev one_info : ℕ → A → ℕ → Option A
  one_info t x s = if s == t then some x else none

  or_else-first_info :
      (t : ℕ) (x : A) (calls : List (ℕ × A)) (s : ℕ)
      → or_else (one_info t x s) (first_info calls s) ≡ first_info ((t, x) ∷ calls) s
  or_else-first_info t x calls s = ground arith

-- An id is -1 or an index of the vector.
abbrev Valid : ℤ → ℕ → Type 0
Valid (pos k) n = k < n
Valid (negsuc k) n = k ≡ 0

Valid-suc : (id : ℤ) (n : ℕ) → Valid id n → Valid id (suc n)
Valid-suc (pos k) n h = omega arith
Valid-suc (negsuc k) n h = h

module _ {A : Type 0} where
  at_id-append :
      (id : ℤ) (xs ys : List A) → Valid id (length xs) → at_id id (xs ++ ys) ≡ at_id id xs
  at_id-append (pos k) xs ys h = get_elem?-append xs ys k h
  at_id-append (negsuc k) xs ys h = refl

  -- The id and the vector behind a registration.
  data Registered (id : ℤ) (x : A) (xs : List A) : ℤ → List A → Type 0 where
    fresh : id ≡ negsuc 0 → Registered id x xs (pos (length xs)) (xs ++ x ∷ [])
    known : (k : ℕ) → id ≡ pos k → k < length xs → Registered id x xs id xs

  Registered-at_id :
      (t s : ℕ) (ids : ℕ → ℤ) (x : A) (xs : List A) (id' : ℤ) (xs' : List A)
      → Registered (ids t) x xs id' xs'
      → Valid (ids s) (length xs)
      → at_id (if s == t then id' else ids s) xs' ≡ or_else (at_id (ids s) xs) (one_info t x s)
  Registered-at_id t s ids x xs id' xs' (fresh e) v = elim (Bool-cases (s == t)) [
    | inl q ↦ let p : s ≡ t = ground (arith, q) in rw (q, p, e) (get_elem?-last xs x)
    | inr q ↦ rw (q, or_else-none (at_id (ids s) xs)) (at_id-append (ids s) xs (x ∷ []) v)
  ]
  Registered-at_id t s ids x xs id' xs' (known k e h) v = elim (Bool-cases (s == t)) [
    | inl q ↦
        let p : s ≡ t = ground (arith, q) in rw (q, p, e) (sym (or_else-get_elem? xs k (some x) h))
    | inr q ↦ rw q (sym (or_else-none (at_id (ids s) xs)))
  ]

  Registered-Valid :
      (t s : ℕ) (ids : ℕ → ℤ) (x : A) (xs : List A) (id' : ℤ) (xs' : List A)
      → Registered (ids t) x xs id' xs'
      → Valid (ids t) (length xs)
      → Valid (ids s) (length xs)
      → Valid (if s == t then id' else ids s) (length xs')
  Registered-Valid t s ids x xs id' xs' (fresh e) w v = elim (Bool-cases (s == t)) [
    | inl q ↦ rw (q, length-snoc xs x) (omega arith)
    | inr q ↦ rw (q, length-snoc xs x) (Valid-suc (ids s) (length xs) v)
  ]
  Registered-Valid t s ids x xs id' xs' (known k e h) w v = elim (Bool-cases (s == t)) [
    | inl q ↦ rw q w
    | inr q ↦ rw q v
  ]

  Registered-length :
      (id : ℤ) (x : A) (xs : List A) (id' : ℤ) (xs' : List A)
      → Registered id x xs id' xs'
      → length xs' ≤ suc (length xs)
  Registered-length id x xs id' xs' (fresh e) = rw (length-snoc xs x) (omega arith)
  Registered-length id x xs id' xs' (known k e h) = omega arith

module _ {Compressor : Type 0} where
  register-Registered :
      (id : ℤ) (info : LoggerInfo Compressor) (l : Logger Compressor)
      → length l.logger_info_vector < 2 ^ 31
      → Valid id (length l.logger_info_vector)
      → Registered id info l.logger_info_vector
          (register_new_logger_entity id info l).0
          (register_new_logger_entity id info l).1.logger_info_vector
  unfolding register_new_logger_entity
  register-Registered (pos k) info l h v = known k refl v
  register-Registered (negsuc zero) info l h v =
      rw (to_int32-small (length l.logger_info_vector) h) (fresh refl)
  register-Registered (negsuc (suc k)) info l h v = ground arith

  -- The log statements that run, each with its own static id, in the order of their registrations.
  unfoldable pub register_all :
      List (ℕ × LoggerInfo Compressor) → (ℕ → ℤ) → Logger Compressor → (ℕ → ℤ) × Logger Compressor
  register_all [] ids l = (ids, l)
  register_all ((t, info) ∷ calls) ids l =
      let r = register_new_logger_entity (ids t) info l in
      register_all calls (λ s. if s == t then r.0 else ids s) r.1

  register_all-from :
      (calls : List (ℕ × LoggerInfo Compressor)) (ids : ℕ → ℤ) (l : Logger Compressor)
      → length l.logger_info_vector + length calls < 2 ^ 31
      → ((s : ℕ) → Valid (ids s) (length l.logger_info_vector))
      → (s : ℕ)
      → at_id ((register_all calls ids l).0 s) (register_all calls ids l).1.logger_info_vector
        ≡ or_else (at_id (ids s) l.logger_info_vector) (first_info calls s)
  unfolding register_all
  register_all-from [] ids l h v s = sym (or_else-none (at_id (ids s) l.logger_info_vector))
  register_all-from ((t, info) ∷ calls) ids l h v s =
      let xs = l.logger_info_vector in
      let r = register_new_logger_entity (ids t) info l in
      let step = register-Registered (ids t) info l (omega arith) (v t) in
      let ids' : ℕ → ℤ = λ s'. if s' == t then r.0 else ids s' in
      let len = Registered-length (ids t) info xs r.0 r.1.logger_info_vector step in
      register_all-from calls ids' r.1 (omega arith)
        (λ s'. Registered-Valid t s' ids info xs r.0 r.1.logger_info_vector step (v t) (v s')) s
      ∙ ap (λ y. or_else y (first_info calls s))
          (Registered-at_id t s ids info xs r.0 r.1.logger_info_vector step (v s))
      ∙ or_else_assoc (at_id (ids s) xs) (one_info t info s) (first_info calls s)
      ∙ ap (or_else (at_id (ids s) xs)) (or_else-first_info t info calls s)

  -- With fewer than 2^31 registrations, each by a statement whose id starts as -1 on a logger that
  -- knows none, the id of every statement leads to what the statement registered first, and
  -- the id of a statement that registered nothing leads nowhere.
  pub register_all-first_info :
      (calls : List (ℕ × LoggerInfo Compressor)) (fd : ℤ) (s : ℕ)
      → length calls < 2 ^ 31
      → at_id
          ((register_all calls (λ s. logger_id_unsigned) (make_logger fd)).0 s)
          (register_all calls (λ s. logger_id_unsigned) (make_logger fd)).1.logger_info_vector
        ≡ first_info calls s
  unfolding make_logger
  register_all-first_info calls fd s h =
      register_all-from calls (λ s. logger_id_unsigned) (make_logger fd) (omega arith) (λ s. refl) s
