-- ===== src/Pmem/ArTree/Paths.antt =====
-- The tree seen as a map from paths, the bytes of a key from the last one to the first, to leaf
-- pointers; and the shape that every node of it has.
use daqdb.Base.{
  ℕ, zero, suc, ◌+◌, ◌-◌, ◌<◌, ◌≡◌, ◌≢◌, refl, ◌⊎◌, inl, inr, List, [], ◌∷◌, arith, ltb→lt, lt→ltb,
  ltb, ==_iff, ◌==◌, Bool-cases, ==_false, ==_refl, update,
}
use mathlib.Core.Path.{fun_ext}
use daqdb.Pmem.ArTree.{Key, Node, missing, node256, leaf, levels, node_size, new_node, fill}

-- The bytes that the search reads on the next `n` levels from `depth` on
abbrev pub route : Key → ℕ → ℕ → ℕ → List ℕ
route key key_size zero depth = []
route key key_size (suc n) depth = key (key_size - depth - 1) ∷ route key key_size n (suc depth)

-- The pointer in the leaf at the end of a path, 0 when there is none
unfoldable pub child_at : Node → List ℕ → ℕ
child_at missing bytes = 0
child_at (leaf d c) [] = c
child_at (leaf d c) (b ∷ bytes) = 0
child_at (node256 d ch) [] = 0
child_at (node256 d ch) (b ∷ bytes) = child_at (ch b) bytes

-- A subtree of `n` levels: depths count up to the leaves' one, and a node has none or all of its
-- 256 children.
unfoldable pub Fits : ℕ → Node → Type 0
Fits n missing = ⊥
Fits zero (leaf d c) = d ≡ levels
Fits (suc n) (leaf d c) = ⊥
Fits zero (node256 d ch) = ⊥
Fits (suc n) (node256 d ch) =
    (d + suc n ≡ levels)
    × (((i : ℕ) → i < node_size → ch i ≡ missing) ⊎ ((i : ℕ) → i < node_size → Fits n (ch i)))

pub update_self : (ch : ℕ → Node) (b : ℕ) → update ch b (ch b) ≡ ch
update_self ch b =
    fun_ext (λ j. elim (Bool-cases (b == j)) [
      | inl e ↦ rw (e, (==_iff b j).0 e) refl
      | inr e ↦ rw e refl
    ])

pub child_at-update_ne : (ch : ℕ → Node) (b j : ℕ) (node : Node) → b ≢ j → update ch b node j ≡ ch j
child_at-update_ne ch b j node ne = rw (==_false b j ne) refl

pub update_at : (ch : ℕ → Node) (b : ℕ) (node : Node) → update ch b node b ≡ node
update_at ch b node = rw (==_refl b) refl

-- A child that `fill` makes holds nothing yet.
pub child_at-new_node : (d : ℕ) (bytes : List ℕ) → child_at (new_node d) bytes ≡ 0
unfolding child_at new_node
child_at-new_node d [] = elim (Bool-cases (d == levels)) [ inl e ↦ rw e refl | inr e ↦ rw e refl ]
child_at-new_node d (b ∷ bytes) = elim (Bool-cases (d == levels)) [
  | inl e ↦ rw e refl
  | inr e ↦ rw e refl
]

pub new_node-Fits : (n d : ℕ) → d + n ≡ levels → Fits n (new_node d)
unfolding Fits new_node
new_node-Fits zero d h = rw ((==_iff d levels).1 (omega (arith, h))) (omega (arith, h))
new_node-Fits (suc n) d h =
    rw (==_false d levels (λ e. omega (arith, h, e))) (h, inl (λ i lt. refl))

-- Filling a node without children keeps what the tree holds.
pub fill-Fits :
    (n d : ℕ) (ch : ℕ → Node) (i : ℕ) → d + suc n ≡ levels → i < node_size → Fits n (fill d ch i)
unfolding fill
fill-Fits n d ch i h lt = rw (lt→ltb i node_size lt) (new_node-Fits n (d + 1) (omega (arith, h)))

pub child_at-fill :
    (d : ℕ) (ch : ℕ → Node) (i : ℕ) (bytes : List ℕ)
    → ((j : ℕ) → j < node_size → ch j ≡ missing)
    → child_at (fill d ch i) bytes ≡ child_at (ch i) bytes
unfolding fill child_at
child_at-fill d ch i bytes none_there = elim (Bool-cases (ltb i node_size)) [
  | inl e ↦ rw (e, none_there i (ltb→lt i node_size e)) (child_at-new_node (d + 1) bytes)
  | inr e ↦ rw e refl
]
