-- ===== src/Luogu/Matching.antt =====
-- luogu/P3386.cpp (and luogu/B3605.cpp, which names `con` and `vis` otherwise): bipartite matching by
-- augmenting paths. Left vertices are 1 to n, right vertices 1 to m; `con[v]` is the left vertex of
-- the right vertex v, or 0.
pub mod Counts
pub mod Augment
pub mod Result
mod Tests
use my_practise.Base.{
  ℕ, zero, suc, ◌+◌, Bool, true, false, List, [], ◌∷◌, Option, none, some, ◌==◌, if◌then◌else◌,
  update,
}
use mathlib.Core.Option

pub record State : Type 0 where
  pub con : ℕ → ℕ
  pub vis : ℕ → Bool

-- `a[u][1 .. e[u]]`
abbrev pub Graph : Type 0
Graph = ℕ → List ℕ

-- `vis[v] = 1`
abbrev pub mark : ℕ → State → State
mark v s = record s { vis = λ w. if w == v then true else s.vis w }

-- `con[v] = u`
abbrev pub connect : ℕ → ℕ → State → State
connect v u s = record s { con = λ w. if w == v then u else s.con w }

-- What `dfs` returns, with the arrays behind it; none is no return within the fuel.
abbrev pub Found : Type 0
Found = Option (Bool × State)

-- Behind `dfs(con[v])` in the loop of `dfs(u)`; `rest` goes on with the loop.
unfoldable pub behind : ℕ → ℕ → Found → (State → Found) → Found
behind u v none rest = none
behind u v (some (true, s)) rest = some (true, connect v u s)
behind u v (some (false, s)) rest = rest s

-- The loop of `dfs(u)`, for the targets from `a[u][i]` on; `call` is `dfs` itself.
unfoldable pub scan : (ℕ → State → Found) → ℕ → List ℕ → State → Found
unfolding behind
scan call u [] s = some (false, s)
scan call u (v ∷ vs) s =
    let s' = mark v s in
    let rest = λ (t : State). scan call u vs t in
    elim (s.vis v) [
      | true ↦ rest s
      | false ↦ elim (s.con v == 0) [
        | true ↦ some (true, connect v u s')
        | false ↦ behind u v (call (s.con v) s') rest
      ]
    ]

unfoldable pub dfs : Graph → ℕ → ℕ → State → Found
unfolding scan
dfs a zero u s = none
dfs a (suc fuel) u s = scan (dfs a fuel) u (a u) s

-- `memset(vis, 0, sizeof(vis))`
abbrev pub clear : State → State
clear s = record s { vis = λ _. false }

-- `++ret` where `dfs` returns true.
abbrev pub tally : ℕ → Bool × State → ℕ × State
tally ret (true, s) = (suc ret, s)
tally ret (false, s) = (ret, s)

-- The loop of `main` for the left vertices i to i + rounds - 1.
unfoldable pub match_all : Graph → ℕ → ℕ → ℕ → ℕ → State → Option (ℕ × State)
unfolding dfs
match_all a fuel zero i ret s = some (ret, s)
match_all a fuel (suc rounds) i ret s =
    Option.bind (dfs a fuel i (clear s))
      (λ found. match_all a fuel rounds (suc i) (tally ret found).0 (tally ret found).1)

-- `main` for n left and m right vertices: the number printed and the arrays behind it.
unfoldable pub main : Graph → ℕ → ℕ → Option (ℕ × State)
unfolding match_all
main a n m = match_all a (suc m) n 1 0 (record { con = λ _. 0; vis = λ _. false })
