-- ===== src/Nanolog/Service/Futures.antt =====
-- What becomes of the future of a flush.
use my_practise.Base.{
  ◌∙◌, ℕ, ◌≡◌, refl, Bool, true, false, not, List, ◌∷◌, none, some, ◌==◌, if◌then◌else◌, eq→==,
  subst, sym, ℤ, is_negative, arith,
}
use my_practise.Nanolog.SwapBuffer.{Block}
use my_practise.Nanolog.Service.{
  Promised, FlushRequest, Heap, Call, Ended, new_request, delete_request, set_value, get_future,
  make_flush_request, destroy_flusher, Service, Uring, Completion, aio_flush, complete,
  non_sync_submit,
}

-- What a heap holds of the request r: it is there, and its promise has a state.
abbrev pub Holds : ℕ → FlushRequest → Promised → Heap → Type 0
Holds r q st h = (h.requests r ≡ some q) × (h.promises r ≡ st)

-- The heap behind `set_value`, and behind `get_future`.
abbrev fulfil : ℕ → Bool → Heap → Heap
fulfil r value h = record h {
  promises = λ p. if p == r then Promised.ready value else h.promises p;
}

abbrev retrieve : ℕ → Heap → Heap
retrieve r h = record h { retrieved = λ p. if p == r then true else h.retrieved p }

set_value-waiting :
    (r : ℕ) (q : FlushRequest) (value : Bool) (h : Heap)
    → Holds r q Promised.waiting h
    → set_value r value h ≡ Call.returns (fulfil r value h)
unfolding set_value
set_value-waiting r q value h (e, e') = rw (e, e', set_value) refl

fulfil-Holds :
    (r : ℕ) (q : FlushRequest) (value : Bool) (h : Heap)
    → Holds r q Promised.waiting h
    → Holds r q (Promised.ready value) (fulfil r value h)
fulfil-Holds r q value h (e, e') = (e, rw (eq→== r r refl) refl)

get_future-new :
    (r : ℕ) (q : FlushRequest) (st : Promised) (h : Heap)
    → Holds r q st h
    → h.retrieved r ≡ false
    → get_future r h ≡ Call.returns (r, retrieve r h)
unfolding get_future
get_future-new r q st h (e, e') f = ground (arith, e, f)

new_request-Holds :
    (v : List Block) (fd : ℤ) (h : Heap)
    → Holds h.next (record { fd = fd; iovecs = v }) Promised.waiting (new_request v fd h).1
      × ((new_request v fd h).1.retrieved h.next ≡ false)
unfolding new_request
new_request-Holds v fd h = rw (eq→== h.next h.next refl) ((refl, refl), refl)

delete_request-promise :
    (r : ℕ) (h : Heap) {value : Bool}
    → h.promises r ≡ Promised.ready value
    → (delete_request r h).promises r ≡ Promised.ready value
unfolding delete_request
delete_request-promise r h e = rw (eq→== r r refl, e) refl

delete_request-gone : (r : ℕ) (h : Heap) → (delete_request r h).requests r ≡ none
unfolding delete_request
delete_request-gone r h = rw (eq→== r r refl) refl

-- What liburing documents of the user data of an entry: it is what was set, and neither the
-- preparation of a write nor the submission changes it; the completion of the entry bears it.
pub record Documented {Ring : Type 0} (u : Uring Ring) (user_data : Ring → ℕ → ℕ) : Type 0 where
  pub set : (e r : ℕ) (g : Ring) → user_data (u.sqe_set_data e r g) e ≡ r
  pub prepared :
      (e : ℕ) (fd : ℤ) (v : List Block) (g : Ring)
      → user_data (u.prep_writev e fd v g) e ≡ user_data g e
  pub submitted : (e : ℕ) (g : Ring) → user_data (u.submit g) e ≡ user_data g e

module _ {Ring : Type 0} (u : Uring Ring) where
  non_sync_submit-heap : (s : Service Ring) → (non_sync_submit u s).heap ≡ s.heap
  unfolding non_sync_submit
  non_sync_submit-heap s = ground arith

  -- The heap behind a flush.
  abbrev flushed : List Block → ℤ → Heap → Heap
  flushed v fd h = retrieve h.next (new_request v fd h).1

  complete-waiting :
      (r : ℕ) (q : FlushRequest) (c : Completion) (s : Service Ring)
      → is_negative c.ret ≡ false
      → c.user_data ≡ r
      → Holds r q Promised.waiting s.heap
      → complete u c s
        ≡ Ended.flows_off (record s {
          heap = fulfil r (not (is_negative c.res)) s.heap;
          ring = u.cqe_seen s.ring;
        })
  unfolding complete
  complete-waiting r q c s ok own held =
      rw (ok, own, set_value-waiting r q (not (is_negative c.res)) s.heap held) refl

  module _ (user_data : Ring → ℕ → ℕ) (law : Documented u user_data) where
    non_sync_submit-user_data :
        (e : ℕ) (s : Service Ring) → user_data (non_sync_submit u s).ring e ≡ user_data s.ring e
    unfolding non_sync_submit
    non_sync_submit-user_data e s = ground (arith, law.submitted e s.ring)

    -- With an entry free, a flush returns the future of a new request, which stays on the heap and is
    -- what the entry bears.
    pub aio_flush-Holds :
        (e : ℕ) (b : Block) (v : List Block) (fd : ℤ) (s : Service Ring)
        → (u.get_sqe s.ring).0 ≡ some e
        → (s' : Service Ring) × (aio_flush u (b ∷ v) fd s ≡ Call.returns (some s.heap.next, s'))
          × Holds s.heap.next (record { fd = fd; iovecs = b ∷ v }) Promised.waiting s'.heap
          × (user_data s'.ring e ≡ s.heap.next)
    unfolding aio_flush
    aio_flush-Holds e b v fd s free =
        let r = s.heap.next in
        let q : FlushRequest = record { fd = fd; iovecs = b ∷ v } in
        let made = new_request-Holds (b ∷ v) fd s.heap in
        let g = u.sqe_set_data e r (u.get_sqe s.ring).1 in
        let s1 : Service Ring = record s {
          ring = u.prep_writev e fd (b ∷ v) g;
          heap = flushed (b ∷ v) fd s.heap;
        } in
        (
          non_sync_submit u s1,
          rw
              (
                free,
                made.0.0,
                get_future-new r q Promised.waiting (new_request (b ∷ v) fd s.heap).1 made.0 made.1,
              )
              refl,
          subst (Holds r q Promised.waiting) (sym (non_sync_submit-heap s1)) made.0,
          non_sync_submit-user_data e s1
              ∙ law.prepared e fd (b ∷ v) g
              ∙ law.set e r (u.get_sqe s.ring).1,
        )

    -- With an entry of the ring free, the flush of a block or more returns a future that waits; when
    -- a wait succeeds with the completion of that entry, its handler gives the future the value
    -- whether the result is not negative before it flows off its end, and the request is still on the
    -- heap then.
    pub complete-aio_flush :
        (e : ℕ) (b : Block) (v : List Block) (fd : ℤ) (s : Service Ring) (ret res : ℤ)
        → (u.get_sqe s.ring).0 ≡ some e
        → is_negative ret ≡ false
        → (s' : Service Ring) × (s'' : Service Ring) × (aio_flush u (b ∷ v) fd s
            ≡ Call.returns (some s.heap.next, s'))
          × (s'.heap.promises s.heap.next ≡ Promised.waiting)
          × (complete u (record { ret = ret; user_data = user_data s'.ring e; res = res }) s'
              ≡ Ended.flows_off s'')
          × (s''.heap.promises s.heap.next ≡ Promised.ready (not (is_negative res)))
          × (s''.heap.requests s.heap.next ≡ some (record { fd = fd; iovecs = b ∷ v }))
    complete-aio_flush e b v fd s ret res free ok =
        let r = s.heap.next in
        let q : FlushRequest = record { fd = fd; iovecs = b ∷ v } in
        let (s', run, held, own) = aio_flush-Holds e b v fd s free in
        let value = not (is_negative res) in
        let c : Completion = record { ret = ret; user_data = user_data s'.ring e; res = res } in
        let held' = fulfil-Holds r q value s'.heap held in
        (
          s',
          record s' { heap = fulfil r value s'.heap; ring = u.cqe_seen s'.ring },
          run,
          held.1,
          complete-waiting r q c s' ok own held,
          held'.1,
          held'.0,
        )

-- A flusher that is destroyed without a flush gives its future false and takes its request along.
pub destroy_flusher-make_flush_request :
    (v : List Block) (fd : ℤ) (h : Heap)
    → (h' : Heap) × (destroy_flusher (make_flush_request v fd h).0 (make_flush_request v fd h).1
        ≡ Call.returns h')
      × (h'.promises h.next ≡ Promised.ready false)
      × (h'.requests h.next ≡ none)
unfolding destroy_flusher make_flush_request
destroy_flusher-make_flush_request v fd h =
    let q : FlushRequest = record { fd = fd; iovecs = v } in
    let h1 = (new_request v fd h).1 in
    let held = (new_request-Holds v fd h).0 in
    let held' = fulfil-Holds h.next q false h1 held in
    (
      delete_request h.next (fulfil h.next false h1),
      rw (set_value-waiting h.next q false h1 held) refl,
      delete_request-promise h.next (fulfil h.next false h1) held'.1,
      delete_request-gone h.next (fulfil h.next false h1),
    )
