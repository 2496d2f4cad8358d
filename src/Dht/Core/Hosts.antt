-- ===== src/Dht/Core/Hosts.antt =====
-- DhtCore::getHostForKey: the node that the ordered map of ranges gives for a hash.
use daqdb.Base.{
  ℕ, ◌≡◌, refl, ap, ◌∙◌, sym, subst, Bool, true, false, ◌&&◌, ◌||◌, List, [], ◌∷◌, leb, ◌==◌,
  ==_iff, Bool-cases, inl, inr, ◌⊎◌, true_ne_false,
}
use daqdb.Dht.Core.{
  DhtNode, Outcome, ok, key_not_found, widen, RangeToHost, less, set_range, init_range_to_host,
  first_match,
}

abbrev pub in_range : ℕ → ℕ × ℕ → Bool
in_range h (a, b) = leb (widen a) h && leb h (widen b)

-- Some node of the list serves the hash.
unfoldable pub any_serves : ℕ → List DhtNode → Bool
any_serves h [] = false
any_serves h (n ∷ ns) = in_range h (n.start, n.end) || any_serves h ns

unfoldable pub Listed : DhtNode → List DhtNode → Type 0
Listed n [] = ⊥
Listed n (m ∷ ms) = (n ≡ m) ⊎ Listed n ms

map_serves : ℕ → RangeToHost → Bool
map_serves h [] = false
map_serves h ((k, v) ∷ m) = in_range h k || map_serves h m

-- Every entry stands under the range of its node, which is one of `ns`.
Own : List DhtNode → RangeToHost → Type 0
Own ns [] = Unit {0}
Own ns ((k, v) ∷ m) = (k ≡ (v.start, v.end)) × Listed v ns × Own ns m

same_key : (a b c d : ℕ) → ((a == c) && (b == d)) ≡ true → ◌≡◌ {A = ℕ × ℕ} (a, b) (c, d)
same_key a b c d e = elim (Bool-cases (a == c)) [
  | inl p ↦ elim (Bool-cases (b == d)) [
    | inl q ↦ rw ((==_iff a c).0 p, (==_iff b d).0 q) refl
    | inr q ↦ absurd (true_ne_false (sym e ∙ rw (p, q) refl))
  ]
  | inr p ↦ absurd (true_ne_false (sym e ∙ rw p refl))
]

or_swap : (a b c : Bool) → (a || (b || c)) ≡ (b || (a || c))
or_swap true true c = refl
or_swap true false c = refl
or_swap false b c = refl

or_same : (a b : Bool) → (a || b) ≡ (a || (a || b))
or_same true b = refl
or_same false b = refl

or_assoc : (a b c : Bool) → (a || (b || c)) ≡ ((b || a) || c)
or_assoc true true c = refl
or_assoc true false c = refl
or_assoc false true c = refl
or_assoc false false c = refl

set_range-Own :
    (ns : List DhtNode) (v : DhtNode) (m : RangeToHost)
    → Listed v ns
    → Own ns m
    → Own ns (set_range (v.start, v.end) v m)
unfolding set_range Own
set_range-Own ns v [] l o = (refl, l, tt)
set_range-Own ns v ((j, w) ∷ m) l o = elim (Bool-cases ((v.start == j.0) && (v.end == j.1))) [
  | inl e ↦ rw (e, set_range, Own) (sym (same_key v.start v.end j.0 j.1 e), l, o.2)
  | inr e ↦ elim (Bool-cases (less (v.start, v.end) j)) [
    | inl p ↦ rw (e, p, set_range, Own) (refl, l, o)
    | inr p ↦ rw (e, p, set_range, Own) (o.0, o.1, set_range-Own ns v m l o.2)
  ]
]

set_range-serves :
    (h : ℕ) (k : ℕ × ℕ) (v : DhtNode) (m : RangeToHost)
    → map_serves h (set_range k v m) ≡ (in_range h k || map_serves h m)
unfolding set_range map_serves
set_range-serves h k v [] = refl
set_range-serves h (a, b) v (((c, d), w) ∷ m) = elim (Bool-cases ((a == c) && (b == d))) [
  | inl e ↦
      rw (e, set_range, map_serves)
        (or_same (in_range h (c, d)) (map_serves h m)
          ∙ ap (λ k. in_range h k || (in_range h (c, d) || map_serves h m))
              (sym (same_key a b c d e)))
  | inr e ↦ elim (Bool-cases (less (a, b) (c, d))) [
    | inl p ↦ rw (e, p, set_range, map_serves) refl
    | inr p ↦
        rw (e, p, set_range, map_serves)
          (ap (λ r. in_range h (c, d) || r) (set_range-serves h (a, b) v m)
            ∙ or_swap (in_range h (c, d)) (in_range h (a, b)) (map_serves h m))
  ]
]

init-serves :
    (h : ℕ) (ns : List DhtNode) (m : RangeToHost)
    → map_serves h (init_range_to_host ns m) ≡ (any_serves h ns || map_serves h m)
unfolding init_range_to_host any_serves
init-serves h [] m = refl
init-serves h (n ∷ ns) m =
    init-serves h ns (set_range (n.start, n.end) n m)
    ∙ ap (λ r. any_serves h ns || r) (set_range-serves h (n.start, n.end) n m)
    ∙ or_assoc (any_serves h ns) (in_range h (n.start, n.end)) (map_serves h m)

-- Every node of `left` is one of `ns`.
AllListed : List DhtNode → List DhtNode → Type 0
AllListed [] ns = Unit {0}
AllListed (n ∷ left) ns = Listed n ns × AllListed left ns

AllListed-cons :
    (left ns : List DhtNode) (n : DhtNode) → AllListed left ns → AllListed left (n ∷ ns)
unfolding AllListed Listed
AllListed-cons [] ns n a = tt
AllListed-cons (m ∷ left) ns n a = (inr a.0, AllListed-cons left ns n a.1)

AllListed-self : (ns : List DhtNode) → AllListed ns ns
unfolding AllListed Listed
AllListed-self [] = tt
AllListed-self (n ∷ ns) = (inl refl, AllListed-cons ns ns n (AllListed-self ns))

init-Own :
    (ns left : List DhtNode) (m : RangeToHost)
    → AllListed left ns
    → Own ns m
    → Own ns (init_range_to_host left m)
unfolding init_range_to_host AllListed
init-Own ns [] m a o = o
init-Own ns (n ∷ left) m a o =
    init-Own ns left (set_range (n.start, n.end) n m) a.1 (set_range-Own ns n m a.0 o)

-- The answer for a hash: one of the nodes that serve it, when there is one
abbrev pub Answers : ℕ → List DhtNode → Bool → Outcome DhtNode → Type 0
Answers h ns true r =
    (n : DhtNode) × (r ≡ ok n) × (in_range h (n.start, n.end) ≡ true) × Listed n ns
Answers h ns false r = r ≡ key_not_found

first_match-Answers :
    (h : ℕ) (ns : List DhtNode) (m : RangeToHost)
    → Own ns m
    → Answers h ns (map_serves h m) (first_match h m)
unfolding first_match map_serves Own
first_match-Answers h ns [] o = refl
first_match-Answers h ns (((a, b), v) ∷ m) o = elim (Bool-cases (in_range h (a, b))) [
  | inl e ↦ rw (e, map_serves, first_match) (v, refl, ap (in_range h) (sym o.0) ∙ e, o.1)
  | inr e ↦ rw (e, map_serves, first_match) (first_match-Answers h ns m o.2)
]

or_none : (a : Bool) → (a || false) ≡ a
or_none true = refl
or_none false = refl

pub init-Answers :
    (h : ℕ) (ns : List DhtNode)
    → Answers h ns (any_serves h ns) (first_match h (init_range_to_host ns []))
unfolding map_serves Own
init-Answers h ns =
    subst (λ b. Answers h ns b (first_match h (init_range_to_host ns [])))
      (init-serves h ns [] ∙ or_none (any_serves h ns))
      (first_match-Answers h ns (init_range_to_host ns [])
        (init-Own ns ns [] (AllListed-self ns) tt))
