-- ===== src/Nanolog/Service/Tests.antt =====
-- Runs of the flush service on a ring whose entries are counted.
use my_practise.Base.{
  ℕ, suc, ◌==◌, eq→==, if◌then◌else◌, ◌≡◌, refl, false, not, [], ◌∷◌, none, some, pos, negsuc,
  is_negative,
}
use my_practise.Nanolog.SwapBuffer.{Block}
use my_practise.Nanolog.Service.{
  Promised, Heap, Call, Ended, Service, Uring, aio_flush, complete, flush, make_flush_request,
  then_do,
}
use my_practise.Nanolog.Service.Futures.{Documented, complete-aio_flush}

-- A ring: the next entry, and the user data of each.
abbrev Entries : Type 0
Entries = ℕ × (ℕ → ℕ)

abbrev data_of : Entries → ℕ → ℕ
data_of g = g.1

abbrev ring : Uring Entries
ring = record {
  get_sqe = λ g. (some g.0, (suc g.0, g.1));
  sqe_set_data = λ e r g. (g.0, λ k. if k == e then r else g.1 k);
  prep_writev = λ e fd v g. g;
  submit = λ g. g;
  cqe_seen = λ g. g;
}

abbrev block : Block
block = record { base = λ p. 0; len = 0 }

abbrev empty_heap : Heap
empty_heap = record {
  next = 0;
  requests = λ p. none;
  promises = λ p. Promised.waiting;
  retrieved = λ p. false;
}

ring-Documented : Documented ring data_of
ring-Documented = record {
  set = λ e r g. rw (eq→== e e refl) refl;
  prepared = λ e fd v g. refl;
  submitted = λ e g. refl;
}

abbrev service : Service Entries
service = record { ring = (0, λ e. 7); sqe_ready_number = 0; heap = empty_heap }

-- The write of the request fails with -5.
complete-aio_flush_example :
    (s' : Service Entries) × (s'' : Service Entries) × (aio_flush ring (block ∷ []) (pos 3) service
      ≡ Call.returns (some 0, s'))
    × (s'.heap.promises 0 ≡ Promised.waiting)
    × (complete ring (record { ret = pos 0; user_data = data_of s'.ring 0; res = negsuc 4 }) s'
        ≡ Ended.flows_off s'')
    × (s''.heap.promises 0 ≡ Promised.ready (not (is_negative (negsuc 4))))
    × (s''.heap.requests 0 ≡ some (record { fd = pos 3; iovecs = block ∷ [] }))
complete-aio_flush_example =
    complete-aio_flush ring data_of ring-Documented 0 block [] (pos 3) service (pos 0) (negsuc 4)
      refl refl

flush-twice :
    then_do
      (flush ring
        (some 0)
        (make_flush_request [] (pos 3) empty_heap).0
        (make_flush_request [] (pos 3) empty_heap).1
        (0, λ e. 7))
      (λ x. flush ring (some 1) x.1 x.2 x.3)
    ≡ Call.throws
unfolding flush make_flush_request
flush-twice = refl
