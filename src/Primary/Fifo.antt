-- ===== src/Primary/Fifo.antt =====
-- lib/primary/PrimaryKeyNextQueue.cpp: keys come out of the queue in the order in which they went in.
use daqdb.Base.{
  ℕ, zero, suc, ◌+◌, ◌-◌, ◌≡◌, refl, sym, ap, ◌∙◌, Bool, true, ◌&&◌, List, [], ◌∷◌, ◌++◌, map, ltb,
  leb, if◌then◌else◌, length, arith, Bool-cases, inl, inr, ◌<◌, leb→le, length-snoc,
}
use mathlib.Core.List.{append-nil, append_assoc}
use daqdb.Pmem.ArTree.{Key}
use daqdb.Requests.{Reply, gives}
use daqdb.Primary.{
  PrimaryKey, is_local, create_p_key_buff, enqueue_local, enqueue_by, enqueue_next, padded,
  dequeue_from, dequeue_by, dequeue_next,
}

-- What a dequeue gives of a key: its primary part, and zero elsewhere
abbrev pub primary_part : PrimaryKey → Key → Key
primary_part p key i =
    if leb p.p_key_offset i && ltb i (p.p_key_offset + p.p_key_size) then key i else 0

-- Some calls of dequeueNext, one after the other
unfoldable pub dequeue_all : ℕ → PrimaryKey → List (Reply Key)
dequeue_all zero p = []
dequeue_all (suc n) p = (dequeue_next p).0 ∷ dequeue_all n (dequeue_next p).1

dequeue_lem :
    (p : PrimaryKey) (part : Key) (parts : List Key)
    → p.has_queue ≡ true
    → p.ready_keys ≡ part ∷ parts
    → dequeue_next p ≡ (gives (padded p part), record p { ready_keys = parts })
unfolding dequeue_next dequeue_by dequeue_from
dequeue_lem p part parts q e = ap (λ b. dequeue_by b p) q ∙ ap (λ l. dequeue_from l p) e

padded-create :
    (p : PrimaryKey) (key : Key) → padded p (create_p_key_buff p key) ≡ primary_part p key
unfolding padded create_p_key_buff
padded-create p key = λ j i. at i j
  where
    at : (i : ℕ) → padded p (create_p_key_buff p key) i ≡ primary_part p key i
    at i = elim (Bool-cases (leb p.p_key_offset i)) [
      | inl h ↦
          let e : p.p_key_offset + (i - p.p_key_offset) ≡ i = omega (arith, leb→le _ _ h) in
          ap
            (λ x.
              if leb p.p_key_offset i && ltb i (p.p_key_offset + p.p_key_size) then key x else 0)
            e
      | inr h ↦ rw h refl
    ]

dequeue_all_lem :
    (keys : List Key) (p : PrimaryKey)
    → p.has_queue ≡ true
    → dequeue_all (length keys) (record p { ready_keys = map (create_p_key_buff p) keys })
      ≡ map (λ key. gives (primary_part p key)) keys
unfolding dequeue_all padded
dequeue_all_lem [] p q = refl
dequeue_all_lem (key ∷ keys) p q =
    let part = create_p_key_buff p key in
    let parts = map (create_p_key_buff p) keys in
    let e = dequeue_lem (record p { ready_keys = part ∷ parts }) part parts q refl in
    ap (λ r. r.0 ∷ dequeue_all (length keys) r.1) e
    ∙ ap (λ x. gives x ∷ dequeue_all (length keys) (record p { ready_keys = parts }))
        (padded-create p key)
    ∙ ap (λ l. gives (primary_part p key) ∷ l) (dequeue_all_lem keys p q)

module _ (ring_takes : ℕ → Bool) where
  unfoldable pub enqueue_all : List Key → PrimaryKey → PrimaryKey
  enqueue_all [] p = p
  enqueue_all (key ∷ keys) p = enqueue_all keys (enqueue_next ring_takes key p).1

  abbrev pub AllLocal : PrimaryKey → List Key → Type 0
  AllLocal p [] = Unit
  AllLocal p (key ∷ keys) = (is_local p key ≡ gives true) × AllLocal p keys

  enqueue_lem :
      (p : PrimaryKey) (key : Key)
      → p.has_queue ≡ true
      → is_local p key ≡ gives true
      → ring_takes (length p.ready_keys) ≡ true
      → (enqueue_next ring_takes key p).1
        ≡ record p { ready_keys = p.ready_keys ++ create_p_key_buff p key ∷ [] }
  unfolding enqueue_next enqueue_by enqueue_local
  enqueue_lem p key q here takes =
      ap (λ b. (enqueue_by ring_takes b key p).1) q
      ∙ ap (λ r. (enqueue_local ring_takes r key p).1) here
      ∙ rw takes refl

  enqueue_all_lem :
      (keys : List Key) (p : PrimaryKey)
      → p.has_queue ≡ true
      → AllLocal p keys
      → ((n : ℕ) → n < length p.ready_keys + length keys → ring_takes n ≡ true)
      → enqueue_all keys p
        ≡ record p { ready_keys = p.ready_keys ++ map (create_p_key_buff p) keys }
  unfolding enqueue_all is_local create_p_key_buff
  enqueue_all_lem [] p q here takes =
      ap (λ (l : List Key). record p { ready_keys = l }) (sym (append-nil p.ready_keys))
  enqueue_all_lem (key ∷ keys) p q (first, here) takes =
      let part = create_p_key_buff p key in
      let p' = record p { ready_keys = p.ready_keys ++ part ∷ [] } in
      ap (enqueue_all keys) (enqueue_lem p key q first (takes (length p.ready_keys) (omega arith)))
      ∙ enqueue_all_lem keys p' q here
          (λ n lt. takes n (omega (arith, lt, length-snoc p.ready_keys part)))
      ∙ ap (λ (l : List Key). record p { ready_keys = l })
          (append_assoc p.ready_keys (part ∷ []) (map (create_p_key_buff p) keys))

  -- With a queue that is empty and has room, local keys that are enqueued are dequeued in the same
  -- order, each with its primary part and zero elsewhere.
  pub dequeue_all-enqueue_all :
      (keys : List Key) (p : PrimaryKey)
      → p.has_queue ≡ true
      → p.ready_keys ≡ []
      → AllLocal p keys
      → ((n : ℕ) → n < length keys → ring_takes n ≡ true)
      → dequeue_all (length keys) (enqueue_all keys p)
        ≡ map (λ key. gives (primary_part p key)) keys
  dequeue_all-enqueue_all keys p q empty here takes =
      ap (dequeue_all (length keys)) (
        enqueue_all_lem keys p q here (λ n lt. takes n (omega (arith, lt, ap length empty)))
        ∙ ap (λ (l : List Key). record p { ready_keys = l ++ map (create_p_key_buff p) keys })
            empty)
      ∙ dequeue_all_lem keys p q
