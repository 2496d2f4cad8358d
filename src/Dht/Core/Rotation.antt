-- ===== src/Dht/Core/Rotation.antt =====
-- DhtCore::getHostAny: the neighbors one thread is given by its calls.
use native.Mathlib.Nat.{mod-lt, mod-add-mod, mod-eq_of_lt}
use daqdb.Base.{
  ℕ, zero, suc, ◌+◌, ◌%◌, ◌<◌, ◌≡◌, refl, ap, ◌∙◌, sym, Option, none, some, arith, ==_false, length,
  get_elem?, get_elem?_lt,
}
use daqdb.Dht.Core.{DhtNode, DhtCore, ok, get_host_any}

-- The index that a thread has after `n` calls; `none` when a call is undefined
unfoldable pub after_calls : ℕ → ℕ → DhtCore → Option ℕ
after_calls zero idx c = some idx
after_calls (suc n) idx c = elim (get_host_any idx c) [ ok r ↦ after_calls n r.1 c | _ ↦ none ]

-- A call gives the neighbor at the next index.
get_host_any-next :
    (idx : ℕ) (c : DhtCore)
    → 0 < length c.neighbors
    → (n : DhtNode) × (get_elem? c.neighbors ((idx + 1) % length c.neighbors) ≡ some n)
      × (get_host_any idx c ≡ ok (n, (idx + 1) % length c.neighbors))
unfolding get_host_any
get_host_any-next idx c h =
    let (n, e) = get_elem?_lt c.neighbors ((idx + 1) % length c.neighbors) (mod-lt (idx + 1) h) in
    (n, e, rw (==_false (length c.neighbors) 0 (λ z. omega (arith, h, z)), e, get_host_any) refl)

after_one :
    (n idx next : ℕ) (c : DhtCore) (v : DhtNode)
    → get_host_any idx c ≡ ok (v, next)
    → after_calls (suc n) idx c ≡ after_calls n next c
unfolding after_calls
after_one n idx next c v e = rw (e, after_calls) refl

rotate : (idx n m : ℕ) → ((idx + 1) % m + n) % m ≡ (idx + suc n) % m
rotate idx n m = mod-add-mod (idx + 1) m n ∙ ap (λ k. k % m) (omega arith)

after_calls-mod :
    (n idx : ℕ) (c : DhtCore)
    → 0 < length c.neighbors
    → idx < length c.neighbors
    → after_calls n idx c ≡ some ((idx + n) % length c.neighbors)
unfolding after_calls
after_calls-mod zero idx c h lt =
    ap some
      (sym (mod-eq_of_lt (omega (arith, lt))) ∙ ap (λ k. k % length c.neighbors) (omega arith))
after_calls-mod (suc n) idx c h lt =
    let m = length c.neighbors in
    let (v, at, e) = get_host_any-next idx c h in
    after_one n idx ((idx + 1) % m) c v e
    ∙ after_calls-mod n ((idx + 1) % m) c h (mod-lt (idx + 1) h)
    ∙ ap some (rotate idx n m)

-- From an index below the number of neighbors every call is defined: the call after `n` others gives the
-- neighbor `n + 1` places further on, around the list.
get_host_any-rotates :
    (n idx : ℕ) (c : DhtCore)
    → 0 < length c.neighbors
    → idx < length c.neighbors
    → (v : DhtNode) × (i : ℕ) × (after_calls n idx c ≡ some i)
      × (get_elem? c.neighbors ((idx + suc n) % length c.neighbors) ≡ some v)
      × (get_host_any i c ≡ ok (v, (idx + suc n) % length c.neighbors))
get_host_any-rotates n idx c h lt =
    let m = length c.neighbors in
    let i = (idx + n) % m in
    let (v, at, e) = get_host_any-next i c h in
    let same : (i + 1) % m ≡ (idx + suc n) % m =
      mod-add-mod (idx + n) m 1 ∙ ap (λ k. k % m) (omega arith) in
    (
      v,
      i,
      after_calls-mod n idx c h lt,
      ap (get_elem? c.neighbors) (sym same) ∙ at,
      e ∙ ap (λ k. ok (v, k)) same,
    )
