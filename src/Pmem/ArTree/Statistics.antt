-- ===== src/Pmem/ArTree/Statistics.antt =====
-- lib/pmem/ARTree.cpp: the size and the depth of the tree.
use daqdb.Base.{
  ℕ, zero, suc, ◌+◌, ◌*◌, ◌^◌, ◌%◌, ◌<◌, ◌≤◌, ◌≡◌, sym, subst, inl, inr, Bool, true, leb,
  if◌then◌else◌, arith,
}
use daqdb.Pmem.ArTree.{Node, missing, node256, leaf, node_size}
use daqdb.Pmem.ArTree.Paths.{Fits}

-- The sum of f over the first n children
unfoldable pub sum : ℕ → (ℕ → ℕ) → ℕ
sum zero f = 0
sum (suc n) f = sum n f + f n

abbrev max : ℕ → ℕ → ℕ
max a b = if leb a b then b else a

unfoldable pub largest : ℕ → (ℕ → ℕ) → ℕ
largest zero f = 0
largest (suc n) f = max (f n) (largest n f)

-- TreeImpl::getTreeSize, without the wrap-around of uint64_t. A missing child is not visited.
unfoldable pub get_tree_size : Bool → Node → ℕ
get_tree_size leaves_only missing = 0
get_tree_size leaves_only (leaf d c) = 1
get_tree_size leaves_only (node256 d ch) =
    let below = sum node_size (λ i. get_tree_size leaves_only (ch i)) in
    if leaves_only then below else below + 1

-- TreeImpl::getTreeDepth, a uint8_t
unfoldable pub get_tree_depth : Node → ℕ
get_tree_depth missing = 0
get_tree_depth (leaf d c) = 1
get_tree_depth (node256 d ch) = (largest node_size (λ i. get_tree_depth (ch i)) + 1) % 2 ^ 8

sum_le : (n b : ℕ) (f : ℕ → ℕ) → ((i : ℕ) → i < n → f i ≤ b) → sum n f ≤ n * b
unfolding sum
sum_le zero b f h = omega arith
sum_le (suc n) b f h =
    let rest : sum n f ≤ n * b = sum_le n b f (λ i lt. h i (omega (arith, lt))) in
    let here : f n ≤ b = h n (omega arith) in add_le (sum n f) (f n) n b rest here
  where
    add_le : (s x n b : ℕ) → s ≤ n * b → x ≤ b → s + x ≤ suc n * b
    add_le s x n b p q = grind arith

max_le : (a b c : ℕ) → a ≤ c → b ≤ c → max a b ≤ c
max_le a b c p q = ground arith

largest_le : (n b : ℕ) (f : ℕ → ℕ) → ((i : ℕ) → i < n → f i ≤ b) → largest n f ≤ b
unfolding largest
largest_le zero b f h = omega arith
largest_le (suc n) b f h =
    max_le (f n) (largest n f) b (h n (omega arith))
      (largest_le n b f (λ i lt. h i (omega (arith, lt))))

-- A subtree of n levels below its root is at most n + 1 deep, so that the depth fits its type.
pub get_tree_depth-le : (n : ℕ) (node : Node) → n < 255 → Fits n node → get_tree_depth node ≤ n + 1
unfolding get_tree_depth Fits
get_tree_depth-le n missing lt h = elim h [ ]
get_tree_depth-le zero (leaf d c) lt h = omega arith
get_tree_depth-le (suc n) (leaf d c) lt h = elim h [ ]
get_tree_depth-le zero (node256 d ch) lt h = elim h [ ]
get_tree_depth-le (suc n) (node256 d ch) lt h =
    wrapped (largest node_size (λ i. get_tree_depth (ch i))) n (
      largest_le node_size (n + 1) (λ i. get_tree_depth (ch i))
        (λ i small. elim h.1 [
          | inl none_there ↦ rw (none_there i small) (omega arith)
          | inr all_there ↦ get_tree_depth-le n (ch i) (omega (arith, lt)) (all_there i small)
        ]))
  where
    wrapped : (x n : ℕ) → x ≤ n + 1 → (x + 1) % 2 ^ 8 ≤ suc n + 1
    wrapped x n p = omega (arith, p)

pow_suc : (n : ℕ) → 256 ^ suc n ≡ 256 * 256 ^ n
pow_suc n = omega arith

-- A subtree of n levels below its root has at most 256 ^ n leaves.
pub get_tree_size-le : (n : ℕ) (node : Node) → Fits n node → get_tree_size true node ≤ 256 ^ n
unfolding get_tree_size Fits
get_tree_size-le n missing h = elim h [ ]
get_tree_size-le zero (leaf d c) h = omega arith
get_tree_size-le (suc n) (leaf d c) h = elim h [ ]
get_tree_size-le zero (node256 d ch) h = elim h [ ]
get_tree_size-le (suc n) (node256 d ch) h =
    subst (λ b. sum node_size (λ i. get_tree_size true (ch i)) ≤ b) (sym (pow_suc n))
      (sum_le node_size (256 ^ n) (λ i. get_tree_size true (ch i))
        (λ i small. elim h.1 [
          | inl none_there ↦ rw (none_there i small) (omega arith)
          | inr all_there ↦ get_tree_size-le n (ch i) (all_there i small)
        ]))
