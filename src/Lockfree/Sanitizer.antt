-- ===== src/Lockfree/Sanitizer.antt =====
-- lockfree/Sanitizer.hpp, `HazardSanitizer<_Node, _ThreadMax>`: which nodes the threads are reading,
-- and which of the released nodes may be freed. A node is its address, 0 the null pointer; a thread
-- id is a number, 0 the id of no thread. Each member function is one step.
pub mod Reclaim
pub mod Register
pub mod Slots
mod Tests
use my_practise.Base.{
  ℕ, zero, suc, ◌+◌, ◌%◌, Bool, true, false, not, ◌||◌, ◌&&◌, List, [], ◌∷◌, ◌++◌, Option, none,
  some, ◌==◌, if◌then◌else◌, get_elem?,
}

-- `HazardPointer`: its owner and its two slots.
pub record HazardPointer : Type 0 where
  pub id : ℕ
  pub next_available_cache_pos : ℕ
  pub slot0 : ℕ
  pub slot1 : ℕ

abbrev pub sz : ℕ
sz = 2

-- `HazardPointer::store`
unfoldable pub store : ℕ → HazardPointer → HazardPointer
store addr h =
    if h.next_available_cache_pos == 0
    then record h { slot0 = addr; next_available_cache_pos = (h.next_available_cache_pos + 1) % sz }
    else record h { slot1 = addr; next_available_cache_pos = (h.next_available_cache_pos + 1) % sz }

-- `HazardPointer::deaccess`
unfoldable pub clear_slots : ℕ → HazardPointer → HazardPointer
clear_slots addr h = record h {
  slot0 = if addr == h.slot0 then 0 else h.slot0;
  slot1 = if addr == h.slot1 then 0 else h.slot1;
}

-- `HazardPointer::isAccessed`
unfoldable pub is_accessed : ℕ → HazardPointer → Bool
is_accessed addr h = addr == h.slot0 || addr == h.slot1

-- `HazardPointer::resetCache`
unfoldable pub reset_cache : HazardPointer → HazardPointer
reset_cache h = record h { slot0 = 0; slot1 = 0; next_available_cache_pos = 0 }

-- The sanitizer; `backward_deleting_list`, which the source links through the nodes, is the list of
-- its nodes, and `freed` the nodes that were deleted, in order.
pub record Sanitizer : Type 0 where
  pub hps : List HazardPointer
  pub backward_deleting_list : List ℕ
  pub is_back_sanitizer : Bool
  pub freed : List ℕ

abbrev pub no_hazard : HazardPointer
no_hazard = record { id = 0; next_available_cache_pos = 0; slot0 = 0; slot1 = 0 }

abbrev pub blank_hps : ℕ → List HazardPointer
blank_hps zero = []
blank_hps (suc n) = no_hazard ∷ blank_hps n

-- The constructor, for `_ThreadMax` threads.
unfoldable pub make : ℕ → Bool → Sanitizer
make thread_max background = record {
  hps = blank_hps thread_max;
  backward_deleting_list = [];
  is_back_sanitizer = background;
  freed = [];
}

-- The loop of `_RegisterThread` from slot `i` on. `init_id` is what the compare-exchange expects;
-- where it fails, it leaves there the id that it found.
unfoldable pub register_from : ℕ → ℕ → ℕ → List HazardPointer → Option ℕ × List HazardPointer
register_from id init_id i [] = (none, [])
register_from id init_id i (h ∷ hs) =
    let rest = register_from id h.id (i + 1) hs in
    if h.id == id
    then (some i, h ∷ hs)
    else if h.id == init_id
    then (some i, record h { id = id } ∷ hs)
    else (rest.0, h ∷ rest.1)

unfoldable pub register_thread : ℕ → Sanitizer → Option ℕ × Sanitizer
unfolding register_from
register_thread id s = let (r, hps') = register_from id 0 0 s.hps in (r, record s { hps = hps' })

unfoldable pub modify_hp :
    (HazardPointer → HazardPointer) → ℕ → List HazardPointer → List HazardPointer
modify_hp f i [] = []
modify_hp f zero (h ∷ hs) = f h ∷ hs
modify_hp f (suc i) (h ∷ hs) = h ∷ modify_hp f i hs

-- `_Store`, `_Deaccess` and `_Reset` of a thread whose registration is `hp`.
unfoldable pub access : Option ℕ → ℕ → Sanitizer → Bool × Sanitizer
unfolding modify_hp store
access none node s = (false, s)
access (some i) node s =
    if node == 0 then (false, s) else (true, record s { hps = modify_hp (store node) i s.hps })

unfoldable pub deaccess : Option ℕ → ℕ → Sanitizer → Bool × Sanitizer
unfolding modify_hp clear_slots
deaccess none node s = (false, s)
deaccess (some i) node s =
    if node == 0
    then (false, s)
    else (true, record s { hps = modify_hp (clear_slots node) i s.hps })

unfoldable pub reset : Option ℕ → Sanitizer → Bool × Sanitizer
unfolding modify_hp reset_cache
reset none s = (false, s)
reset (some i) s = (true, record s { hps = modify_hp reset_cache i s.hps })

-- The search of `_Delete`.
unfoldable pub any_accessed : ℕ → List HazardPointer → Bool
unfolding is_accessed
any_accessed node [] = false
any_accessed node (h ∷ hs) = is_accessed node h || any_accessed node hs

-- `_ImmediateDelete`
unfoldable pub immediate_delete : ℕ → Sanitizer → Sanitizer
immediate_delete node s = record s { freed = s.freed ++ node ∷ [] }

-- `_DelayDelete`
unfoldable pub delay_delete : ℕ → Sanitizer → Sanitizer
delay_delete node s = record s { backward_deleting_list = node ∷ s.backward_deleting_list }

-- `_Delete`
unfoldable pub delete : ℕ → Sanitizer → Sanitizer
unfolding any_accessed immediate_delete delay_delete
delete node s = if any_accessed node s.hps then delay_delete node s else immediate_delete node s

unfoldable pub delete_all : List ℕ → Sanitizer → Sanitizer
unfolding delete
delete_all [] s = s
delete_all (node ∷ nodes) s = delete_all nodes (delete node s)

-- `_BackLoopDelete`: the list is taken away as a whole first.
unfoldable pub back_loop_delete : Sanitizer → Sanitizer
unfolding delete_all
back_loop_delete s = delete_all s.backward_deleting_list (record s { backward_deleting_list = [] })

-- `_Release`
unfoldable pub release : ℕ → Sanitizer → Bool × Sanitizer
unfolding delete back_loop_delete
release node s =
    let s' = delete node s in
    if node == 0
    then (false, s)
    else (true, if s.is_back_sanitizer then s' else back_loop_delete s')

-- The destructor's loop over what is left.
unfoldable pub immediate_delete_all : List ℕ → Sanitizer → Sanitizer
unfolding immediate_delete
immediate_delete_all [] s = s
immediate_delete_all (node ∷ nodes) s = immediate_delete_all nodes (immediate_delete node s)

unfoldable pub destroy : Sanitizer → Sanitizer
unfolding immediate_delete_all
destroy s =
    immediate_delete_all s.backward_deleting_list
      (record s { backward_deleting_list = []; is_back_sanitizer = false })
