-- ===== src/MemPool/Free.antt =====
-- The free list: `allocate` and `deallocate` on the set of live addresses.
use flower_exchange.Base.{
  ℕ, ◌<◌, ◌≡◌, ◌⊎◌, refl, ◌∙◌, subst, arith, inl, inr, Bool, true, false, not, ◌&&◌, Option, none,
  some, List, [], ◌∷◌, ◌==◌, Bool-cases,
}
use flower_exchange.Types.{Ptr}
use flower_exchange.OrderBook.Levels.{has, NoDup}
use flower_exchange.MemPool.{Node, Nodes, MemPool, set_node, deallocate_impl}
use flower_exchange.MemPool.Find.{owns, find_node-owns}

abbrev pub IsChain : Nodes → Option Ptr → List Ptr → Type 0
IsChain nodes head [] = head ≡ none
IsChain nodes head (p ∷ ps) = (head ≡ some p) × IsChain nodes (nodes p).next ps

pub set_node_self : (nodes : Nodes) (p : Ptr) (node : Node) → set_node nodes p node p ≡ node
unfolding set_node
set_node_self nodes p node = let e : p == p ≡ true = ground arith in rw e refl

pub set_node-ne :
    (nodes : Nodes) (p q : Ptr) (node : Node) → q == p ≡ false → set_node nodes p node q ≡ nodes q
unfolding set_node
set_node-ne nodes p q node e = rw e refl

-- A node outside the list is free to change.
pub IsChain-frame :
    (nodes : Nodes) (p : Ptr) (node : Node) (head : Option Ptr) (ps : List Ptr)
    → has p ps ≡ false
    → IsChain nodes head ps
    → IsChain (set_node nodes p node) head ps
IsChain-frame nodes p node head [] out ch = ch
IsChain-frame nodes p node head (q ∷ ps) out (e, ch) = (
  e,
  rw (set_node-ne nodes p q node (ground arith))
      (IsChain-frame nodes p node (nodes q).next ps (ground arith) ch),
)

module _ (node_size : ℕ) where
  pub record IsPool (pool : MemPool) (free : List Ptr) : Type 0 where
    pub chain : IsChain pool.nodes pool.free_list_head free
    pub nodup : NoDup free
    pub owned : (p : Ptr) → has p free ≡ true → owns node_size pool.chunks p ≡ true
    pub flags :
        (p : Ptr) → owns node_size pool.chunks p ≡ true → (pool.nodes p).is_free ≡ has p free
    pub positive : 0 < pool.initial_capacity

  -- An address that was given out.
  abbrev pub live : MemPool → List Ptr → Ptr → Bool
  live pool free p = owns node_size pool.chunks p && not (has p free)

  abbrev pub Frees : MemPool → List Ptr → Ptr → Type 0
  Frees pool free p =
      ((live pool free p ≡ true)
        × ((pool' : MemPool) × (deallocate_impl node_size (some p) pool ≡ some pool')
            × IsPool pool' (p ∷ free)
            × ((q : Ptr) → live pool' (p ∷ free) q ≡ (live pool free q && not (q == p)))))
      ⊎ ((live pool free p ≡ false) × (deallocate_impl node_size (some p) pool ≡ none))

  -- On a well-formed pool: a live address is given back, and is the one address that is live no more;
  -- on any other address, one that is free already included, the call throws.
  pub deallocate_impl-Frees :
      (pool : MemPool) (free : List Ptr) (p : Ptr) → IsPool pool free → Frees pool free p
  unfolding deallocate_impl
  deallocate_impl-Frees pool free p x = elim (Bool-cases (owns node_size pool.chunks p)) [
    | inr foreign ↦
        let lost : live pool free p ≡ false = ground arith in
        inr (lost, rw (find_node-owns node_size p pool.chunks, foreign) refl)
    | inl ours ↦ elim (Bool-cases (has p free)) [
      | inl twice ↦
          let lost : live pool free p ≡ false = ground arith in
          let flag : (pool.nodes p).is_free ≡ true = x.flags p ours ∙ twice in
          inr (lost, rw (find_node-owns node_size p pool.chunks, ours, flag) refl)
      | inr out ↦
          let at : live pool free p ≡ true = ground arith in
          let flag : (pool.nodes p).is_free ≡ false = x.flags p ours ∙ out in
          inl (
            at,
            (
              freed,
              rw (find_node-owns node_size p pool.chunks, ours, flag) refl,
              record {
                chain = (
                  refl,
                  rw (set_node_self pool.nodes p put_back)
                      (IsChain-frame pool.nodes p put_back pool.free_list_head free out x.chain),
                );
                nodup = (out, x.nodup);
                owned = λ q e. elim (Bool-cases (q == p)) [
                  | inl same ↦
                      let it : p ≡ q = ground arith in
                      subst (λ z. owns node_size pool.chunks z ≡ true) it ours
                  | inr other ↦ x.owned q (ground arith)
                ];
                flags = λ q e. elim (Bool-cases (q == p)) [
                  | inl same ↦
                      let it : q ≡ p = ground arith in
                      rw (it, set_node_self pool.nodes p put_back) (ground arith)
                  | inr other ↦
                      rw (set_node-ne pool.nodes p q put_back other, x.flags q e) (ground arith)
                ];
                positive = x.positive;
              },
              λ q. ground arith,
            ),
          )
    ]
  ]
    where
      put_back : Node
      put_back = record { is_free = true; next = pool.free_list_head }

      freed : MemPool
      freed = record pool { free_list_head = some p; nodes = set_node pool.nodes p put_back }
