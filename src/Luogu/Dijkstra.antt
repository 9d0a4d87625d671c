-- ===== src/Luogu/Dijkstra.antt =====
-- luogu/B3602.cpp: shortest paths from the vertex 1 with a queue ordered by distance. Weights are not
-- negative; the entry -1 of `ret` is none. A `long long` that overflows is undefined behaviour,
-- which is none as a result of the program.
pub mod Entries
pub mod Invariant
mod Relaxed
mod Visits
pub mod Roads
pub mod Shortest
mod Tests
use my_practise.Base.{
  ℕ, zero, suc, ◌+◌, ◌^◌, Bool, true, false, Option, none, some, List, [], ◌∷◌, ◌++◌, ltb, ◌==◌,
  ◌||◌, ◌&&◌, if◌then◌else◌, update,
}
use mathlib.Core.Option

pub record Edge : Type 0 where
  pub from_vertex : ℕ
  pub to_vertex : ℕ
  pub weight : ℕ

-- The pairs (child, weight) of each vertex.
abbrev pub Graph : Type 0
Graph = ℕ → List (ℕ × ℕ)

-- `graph[u].emplace_back(v, w)` for each line.
unfoldable pub load_graph : List Edge → Graph → Graph
load_graph [] g = g
load_graph (e ∷ es) g =
    load_graph es (update g e.from_vertex (g e.from_vertex ++ (e.to_vertex, e.weight) ∷ []))

-- `memset(dis, 0x3f, sizeof(dis))`
abbrev pub infinity : ℕ
infinity = 0x3f3f3f3f3f3f3f3f

-- `pq` is in the order in which it gives its entries.
pub record Search : Type 0 where
  pub dis : ℕ → ℕ
  pub ret : ℕ → Option ℕ
  pub pq : List (ℕ × ℕ)

-- The order of the pairs.
abbrev pub before : ℕ × ℕ → ℕ × ℕ → Bool
before (d, v) (e, u) = ltb d e || (d == e && ltb v u)

unfoldable pub emplace : ℕ × ℕ → List (ℕ × ℕ) → List (ℕ × ℕ)
emplace x [] = x ∷ []
emplace x (y ∷ ys) = if before x y then x ∷ y ∷ ys else y ∷ emplace x ys

-- `ret[node] != -1`
unfoldable pub seen : Option ℕ → Bool
seen (some d) = true
seen none = false

-- `ndis + cdis`
unfoldable pub add_long : ℕ → ℕ → Option ℕ
add_long x y = if ltb (x + y) (2 ^ 63) then some (x + y) else none

-- `if(newdis < dis[child]) …`
unfoldable pub improve : ℕ → ℕ → Search → Search
unfolding emplace
improve newdis child s =
    if ltb newdis (s.dis child)
    then record s { dis = update s.dis child newdis; pq = emplace (newdis, child) s.pq }
    else s

-- The body of the loop over the children.
unfoldable pub relax : ℕ → ℕ → ℕ → Search → Option Search
unfolding seen add_long improve
relax ndis child cdis s =
    if seen (s.ret child)
    then some s
    else Option.map (λ newdis. improve newdis child s) (add_long ndis cdis)

unfoldable pub relax_all : ℕ → List (ℕ × ℕ) → Search → Option Search
unfolding relax Option.bind
relax_all ndis [] s = some s
relax_all ndis ((child, cdis) ∷ rest) s =
    Option.bind (relax ndis child cdis s) (relax_all ndis rest)

-- The body of the loop over the queue, behind `pq.pop()`.
unfoldable pub visit : Graph → ℕ → ℕ → Search → Option Search
unfolding seen relax_all
visit graph ndis node s =
    if seen (s.ret node)
    then some s
    else relax_all ndis (graph node) (record s { ret = update s.ret node (some ndis) })

-- The body of the loop over the queue with what follows it; an empty queue ends the loop.
unfoldable pub turn : (Search → Option Search) → Graph → Search → List (ℕ × ℕ) → Option Search
unfolding visit Option.bind
turn next graph s [] = some s
turn next graph s ((ndis, node) ∷ rest) =
    Option.bind (visit graph ndis node (record s { pq = rest })) next

-- `while(!pq.empty())` on fuel: none is no end within it, or an overflow.
unfoldable pub search_loop : ℕ → Graph → Search → Option Search
unfolding turn
search_loop zero graph s = none
search_loop (suc fuel) graph s = turn (search_loop fuel graph) graph s s.pq

unfoldable pub start : Search
start = record { dis = update (λ v. infinity) 1 0; ret = λ v. none; pq = (0, 1) ∷ [] }

-- `for(int i = 1; i <= n; ++i) cout << ret[i]`, from i on.
unfoldable pub print_from : ℕ → ℕ → (ℕ → Option ℕ) → List (Option ℕ)
print_from zero i ret = []
print_from (suc rounds) i ret = ret i ∷ print_from rounds (suc i) ret

abbrev pub size : List Edge → ℕ
size [] = 0
size (e ∷ es) = suc (size es)

-- The fuel is the number of edges and two.
unfoldable pub dijkstra : List Edge → Option Search
unfolding load_graph search_loop start
dijkstra es = search_loop (suc (suc (size es))) (load_graph es (λ v. [])) start

unfoldable pub print_distances : ℕ → List Edge → Option (List (Option ℕ))
unfolding dijkstra print_from
print_distances n es = Option.map (λ s. print_from n 1 s.ret) (dijkstra es)
