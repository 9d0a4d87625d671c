-- ===== src/Luogu.antt =====
-- luogu/: exercises, one program a file. The input is what `cin` delivers, the output the values
-- printed, in order.
pub mod Matching
pub mod Closure
pub mod Powers
pub mod Edges
pub mod Prefix
pub mod Masks
pub mod Choices
pub mod Octal
pub mod Dijkstra
pub mod Products
