-- ===== src/MemPool/Grow.antt =====
-- src/common/mempool.h: `addChunk`, and the free list behind it.
use native.Mathlib.Nat.{suc-mul, add-mod_right, mod-eq_of_lt}
use flower_exchange.Base.{
  ℕ, zero, suc, ◌+◌, ◌-◌, ◌*◌, ◌%◌, ◌<◌, ◌≤◌, ◌≡◌, refl, sym, ap, ◌∙◌, arith, inl, inr, true, false,
  ◌||◌, Option, some, List, [], ◌∷◌, ◌++◌, ltb, leb, ◌==◌, Bool-cases,
}
use flower_exchange.Types.{Ptr}
use flower_exchange.OrderBook.Levels.{has, NoDup, has-append}
use flower_exchange.MemPool.{Node, Nodes, MemPool, set_node, link_nodes, add_chunk}
use flower_exchange.MemPool.Find.{is_node, owns, owns-append}
use flower_exchange.MemPool.Free.{IsChain, IsChain-frame, set_node_self, set_node-ne, IsPool}

module _ (node_size : ℕ) (sized : 0 < node_size) where
  -- The addresses of `count` nodes from `p` on.
  abbrev pub run : ℕ → Ptr → List Ptr
  run zero p = []
  run (suc count) p = p ∷ run count (p + node_size)

  has-run-ge : (count : ℕ) (p q : Ptr) → has q (run count p) ≡ true → p ≤ q
  has-run-ge zero p q at = absurd (ground arith)
  has-run-ge (suc count) p q at = elim (Bool-cases (q == p)) [
    | inl same ↦ ground arith
    | inr other ↦
        let later : has q (run count (p + node_size)) ≡ true = ground arith in
        omega (arith, has-run-ge count (p + node_size) q later)
  ]

  not-in-later : (count : ℕ) (p : Ptr) → has p (run count (p + node_size)) ≡ false
  not-in-later count p = elim (Bool-cases (has p (run count (p + node_size)))) [
    | inr out ↦ out
    | inl at ↦ absurd (omega (arith, sized, has-run-ge count (p + node_size) p at))
  ]

  pub has-run-node :
      (count : ℕ) (p q : Ptr)
      → has q (run count p) ≡ is_node node_size (record { base = p; count = count }) q
  has-run-node zero p q = let nothing : 0 * node_size ≡ 0 = omega arith in rw nothing (ground arith)
  has-run-node (suc count) p q =
      let wide : suc count * node_size ≡ count * node_size + node_size = suc-mul count node_size in
      let later = has-run-node count (p + node_size) q in
      elim (Bool-cases (ltb q (p + node_size))) [
        | inl near ↦
            let out : has q (run count (p + node_size)) ≡ false =
              elim (Bool-cases (has q (run count (p + node_size)))) [
                | inr absent ↦ absent
                | inl at ↦ absurd (ground (arith, has-run-ge count (p + node_size) q at))
              ] in
            elim (Bool-cases (q == p)) [
              | inl same ↦
                  let gap : q - p ≡ 0 = ground arith in
                  let rest : (q - p) % node_size ≡ 0 = omega (arith, gap, sized) in
                  rw (out, wide) (ground arith)
              | inr other ↦ elim (Bool-cases (leb p q)) [
                | inr under ↦ rw out (ground arith)
                | inl over ↦
                    let short : q - p < node_size = ground arith in
                    let rest : (q - p) % node_size ≡ q - p = mod-eq_of_lt short in
                    rw (out, rest) (ground arith)
              ]
            ]
        | inr far ↦
            let above : p + node_size ≤ q = ground arith in
            let gap : q - p ≡ q - (p + node_size) + node_size = omega (arith, above) in
            let rest : (q - p) % node_size ≡ (q - (p + node_size)) % node_size =
              ap (λ n. n % node_size) gap ∙ add-mod_right (q - (p + node_size)) node_size in
            let reach : p + suc count * node_size ≡ p + node_size + count * node_size =
              omega (arith, wide) in
            rw (later, reach, rest) (ground arith)
      ]

  link_nodes-out :
      (count : ℕ) (p : Ptr) (head : Option Ptr) (nodes : Nodes) (q : Ptr)
      → has q (run count p) ≡ false
      → link_nodes node_size count p head nodes q ≡ nodes q
  unfolding link_nodes
  link_nodes-out zero p head nodes q out = refl
  link_nodes-out (suc zero) p head nodes q out = set_node-ne nodes p q _ (ground arith)
  link_nodes-out (suc (suc count)) p head nodes q out =
      link_nodes-out (suc count) (p + node_size) head _ q (ground arith)
      ∙ set_node-ne nodes p q _ (ground arith)

  link_nodes-free :
      (count : ℕ) (p : Ptr) (head : Option Ptr) (nodes : Nodes) (q : Ptr)
      → has q (run count p) ≡ true
      → (link_nodes node_size count p head nodes q).is_free ≡ true
  unfolding link_nodes
  link_nodes-free zero p head nodes q at = absurd (ground arith)
  link_nodes-free (suc zero) p head nodes q at =
      let same : q ≡ p = ground arith in rw (same, set_node_self nodes p _) refl
  link_nodes-free (suc (suc count)) p head nodes q at =
      elim (Bool-cases (has q (run (suc count) (p + node_size)))) [
        | inl later ↦ link_nodes-free (suc count) (p + node_size) head _ q later
        | inr out ↦
            let same : q ≡ p = ground arith in
            rw
              (
                link_nodes-out (suc count) (p + node_size) head _ q out,
                same,
                set_node_self nodes p _,
              )
              refl
      ]

  link_nodes-IsChain :
      (count : ℕ) (p : Ptr) (head : Option Ptr) (nodes : Nodes) (free : List Ptr)
      → IsChain nodes head free
      → ((q : Ptr) → has q (run (suc count) p) ≡ true → has q free ≡ false)
      → IsChain (link_nodes node_size (suc count) p head nodes) (some p) (run (suc count) p ++ free)
  unfolding link_nodes
  link_nodes-IsChain zero p head nodes free ch apart = (
    refl,
    rw (set_node_self nodes p (record { is_free = true; next = head }))
        (IsChain-frame nodes p _ head free (apart p (ground arith)) ch),
  )
  link_nodes-IsChain (suc count) p head nodes free ch apart =
      let node : Node = record { is_free = true; next = some (p + node_size) } in
      let later =
        link_nodes-IsChain count (p + node_size) head (set_node nodes p node) free
          (IsChain-frame nodes p node head free (apart p (ground arith)) ch)
          (λ q at. apart q (ground arith)) in
      (
        refl,
        rw
            (
              link_nodes-out (suc count) (p + node_size) head (set_node nodes p node) p
                  (not-in-later (suc count) p),
              set_node_self nodes p node,
            )
            later,
      )

  run-NoDup :
      (count : ℕ) (p : Ptr) (free : List Ptr)
      → NoDup free
      → ((q : Ptr) → has q (run count p) ≡ true → has q free ≡ false)
      → NoDup (run count p ++ free)
  run-NoDup zero p free n apart = n
  run-NoDup (suc count) p free n apart = (
    (let out = not-in-later count p in
        let no : has p free ≡ false = apart p (ground arith) in
        has-append p (run count (p + node_size)) free ∙ ground arith),
    run-NoDup count (p + node_size) free n (λ q at. apart q (ground arith)),
  )

  -- The nodes of a new chunk are no nodes of the pool.
  abbrev pub IsApart : MemPool → ℕ → Ptr → Type 0
  IsApart pool count base =
      (q : Ptr)
      → is_node node_size (record { base = base; count = count }) q ≡ true
      → owns node_size pool.chunks q ≡ false

  pub owns-add_chunk :
      (pool : MemPool) (count : ℕ) (base q : Ptr)
      → owns node_size (add_chunk node_size count base pool).chunks q
        ≡ (owns node_size pool.chunks q || has q (run count base))
  unfolding add_chunk
  owns-add_chunk pool count base q =
      let last = has-run-node count base q in
      owns-append node_size pool.chunks (record { base = base; count = count } ∷ []) q
      ∙ ground arith

  pub add_chunk-IsPool :
      (pool : MemPool) (free : List Ptr) (count : ℕ) (base : Ptr)
      → IsPool node_size pool free
      → IsApart pool (suc count) base
      → IsPool node_size (add_chunk node_size (suc count) base pool) (run (suc count) base ++ free)
  unfolding add_chunk
  add_chunk-IsPool pool free count base x apart =
      let outside : (q : Ptr) → has q (run (suc count) base) ≡ true → has q free ≡ false = λ q at.
        elim (Bool-cases (has q free)) [
          | inr out ↦ out
          | inl in_free ↦
              let mine = x.owned q in_free in
              let other = apart q (sym (has-run-node (suc count) base q) ∙ at) in
              absurd (ground arith)
        ] in
      record {
        chain = link_nodes-IsChain count base pool.free_list_head pool.nodes free x.chain outside;
        nodup = run-NoDup (suc count) base free x.nodup outside;
        owned = λ q at.
            owns-add_chunk pool (suc count) base q
            ∙ owned_either q (sym (has-append q (run (suc count) base) free) ∙ at);
        flags = λ q at.
            flags_either q (sym (owns-add_chunk pool (suc count) base q) ∙ at)
            ∙ sym (has-append q (run (suc count) base) free);
        positive = x.positive;
      }
    where
      owned_either :
          (q : Ptr)
          → (has q (run (suc count) base) || has q free) ≡ true
          → (owns node_size pool.chunks q || has q (run (suc count) base)) ≡ true
      owned_either q e = elim (Bool-cases (has q free)) [
        | inl in_free ↦ let mine = x.owned q in_free in rw mine refl
        | inr out ↦ let here : has q (run (suc count) base) ≡ true = ground arith in ground arith
      ]

      flags_either :
          (q : Ptr)
          → (owns node_size pool.chunks q || has q (run (suc count) base)) ≡ true
          → (link_nodes node_size (suc count) base pool.free_list_head pool.nodes q).is_free
            ≡ (has q (run (suc count) base) || has q free)
      flags_either q e = elim (Bool-cases (has q (run (suc count) base))) [
        | inl here ↦
            rw (link_nodes-free (suc count) base pool.free_list_head pool.nodes q here)
              (ground arith)
        | inr out ↦
            let mine : owns node_size pool.chunks q ≡ true = ground arith in
            rw
              (link_nodes-out (suc count) base pool.free_list_head pool.nodes q out, x.flags q mine)
              (ground arith)
      ]
