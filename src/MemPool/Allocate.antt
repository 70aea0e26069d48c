-- ===== src/MemPool/Allocate.antt =====
-- What `allocate` gives out.
use flower_exchange.Base.{
  ℕ, zero, suc, ◌+◌, ◌<◌, ◌≡◌, refl, sym, ap, ◌∙◌, subst, arith, inl, inr, Bool, true, false, not,
  ◌&&◌, ◌||◌, Option, none, some, List, [], ◌∷◌, ◌++◌, min, max, ltb, ◌==◌, if◌then◌else◌,
  Bool-cases,
}
use flower_exchange.Types.{Ptr}
use flower_exchange.OrderBook.Levels.{has, has-append}
use flower_exchange.MemPool.{
  Node, MemPool, set_node, add_chunk, grow, max_chunk_size, make_pool, is_none, take_block,
  allocate,
}
use flower_exchange.MemPool.Find.{owns}
use flower_exchange.MemPool.Free.{IsChain-frame, set_node_self, set_node-ne, IsPool, live}
use flower_exchange.MemPool.Grow.{run, has-run-node, IsApart, owns-add_chunk, add_chunk-IsPool}

module _ (node_size : ℕ) (sized : 0 < node_size) where
  -- A node that was not live is, and no other address changes.
  abbrev pub Gives : Option (Ptr × MemPool) → MemPool → List Ptr → Type 0
  Gives result pool free =
      (p : Ptr) × (pool' : MemPool) × (free' : List Ptr) × (result ≡ some (p, pool'))
      × IsPool node_size pool' free'
      × (live node_size pool free p ≡ false)
      × ((q : Ptr) → live node_size pool' free' q ≡ (live node_size pool free q || q == p))

  keep_other : (a b : Bool) → (a && not b) ≡ ((a && not (false || b)) || false)
  keep_other a b = ground arith

  take_block-Gives :
      (pool : MemPool) (p : Ptr) (free : List Ptr)
      → IsPool node_size pool (p ∷ free)
      → Gives (take_block node_size pool) pool (p ∷ free)
  unfolding take_block
  take_block-Gives pool p free x =
      let (e, ch) = x.chain in
      let (out, nodup) = x.nodup in
      let ours = x.owned p (ground arith) in
      let pool' : MemPool = record pool {
        free_list_head = (pool.nodes p).next;
        nodes = set_node pool.nodes p taken;
      } in
      (
        p,
        pool',
        free,
        rw e refl,
        record {
          chain = IsChain-frame pool.nodes p taken (pool.nodes p).next free out ch;
          nodup = nodup;
          owned = λ q at. x.owned q (ground arith);
          flags = λ q mine. elim (Bool-cases (q == p)) [
            | inl same ↦
                let it : q ≡ p = ground arith in rw (it, set_node_self pool.nodes p taken) (sym out)
            | inr other ↦ rw (set_node-ne pool.nodes p q taken other, x.flags q mine) (ground arith)
          ];
          positive = x.positive;
        },
        ground arith,
        λ q. elim (Bool-cases (q == p)) [
          | inl same ↦
              let it : p ≡ q = ground arith in
              let mine : owns node_size pool.chunks q ≡ true =
                subst (λ z. owns node_size pool.chunks z ≡ true) it ours in
              let absent : has q free ≡ false = subst (λ z. has z free ≡ false) it out in
              rw (mine, absent, same) (ground arith)
          | inr other ↦ rw other (keep_other (owns node_size pool.chunks q) (has q free))
        ],
      )
    where
      taken : Node
      taken = record { is_free = false; next = none }

  abbrev pub grown : MemPool → ℕ
  grown pool = min max_chunk_size (max pool.initial_capacity pool.total_capacity)

  is_suc : (n : ℕ) → 0 < n → (m : ℕ) × (n ≡ suc m)
  is_suc zero h = absurd (omega arith)
  is_suc (suc m) h = (m, refl)

  -- A chunk more makes no address live.
  live-add_chunk :
      (pool : MemPool) (n : ℕ) (base : Ptr)
      → IsPool node_size pool []
      → IsApart node_size sized pool (suc n) base
      → (q : Ptr)
      → live node_size
          (add_chunk node_size (suc n) base pool)
          (run node_size sized (suc n) base ++ [])
          q
        ≡ live node_size pool [] q
  live-add_chunk pool n base x apart q =
      let holds = owns-add_chunk node_size sized pool (suc n) base q in
      let listed = has-append q (run node_size sized (suc n) base) [] in
      ap (λ b. b && not (has q (run node_size sized (suc n) base ++ []))) holds
      ∙ ap
          (λ b. (owns node_size pool.chunks q || has q (run node_size sized (suc n) base)) && not b)
          listed
      ∙ settle (owns node_size pool.chunks q) (has q (run node_size sized (suc n) base))
          (λ mine. apart q (sym (has-run-node node_size sized (suc n) base q) ∙ mine))
    where
      settle :
          (a h : Bool) → (h ≡ true → a ≡ false) → ((a || h) && not (h || false)) ≡ (a && not false)
      settle a false f = ground arith
      settle a true f = rw (f refl) refl

  allocate-empty :
      (base : Ptr) (pool : MemPool)
      → pool.free_list_head ≡ none
      → allocate node_size base pool
        ≡ take_block node_size (add_chunk node_size (grown pool) base pool)
  unfolding allocate grow
  allocate-empty base pool e = rw e refl

  -- On a well-formed pool, with memory for a new chunk that is apart from its nodes: an address is
  -- given that was not live, the pool stays well-formed, and that address is the one that is live now
  -- and was not before.
  pub allocate-Gives :
      (base : Ptr) (pool : MemPool) (free : List Ptr)
      → IsPool node_size pool free
      → IsApart node_size sized pool (grown pool) base
      → Gives (allocate node_size base pool) pool free
  unfolding allocate
  allocate-Gives base pool (p ∷ free) x apart =
      let (e, _) = x.chain in
      let (q, pool', free', gives, x', fresh, others) = take_block-Gives pool p free x in
      (
        q,
        pool',
        free',
        ap
              (λ o.
                take_block node_size
                  (if is_none node_size o then grow node_size base pool else pool))
              e
            ∙ gives,
        x',
        fresh,
        others,
      )
  allocate-Gives base pool [] x apart =
      let (n, e) = is_suc (grown pool) (omega (arith, x.positive)) in
      let chunk_apart : IsApart node_size sized pool (suc n) base =
        subst (λ k. IsApart node_size sized pool k base) e apart in
      let grown_pool = add_chunk-IsPool node_size sized pool [] n base x chunk_apart in
      let (p, pool', free', gives, x', fresh, others) =
        take_block-Gives (add_chunk node_size (suc n) base pool) base
          (run node_size sized n (base + node_size) ++ []) grown_pool in
      let same = live-add_chunk pool n base x chunk_apart in
      (
        p,
        pool',
        free',
        allocate-empty base pool x.chain
            ∙ ap (λ k. take_block node_size (add_chunk node_size k base pool)) e
            ∙ gives,
        x',
        sym (same p) ∙ fresh,
        λ q. others q ∙ ap (λ b. b || q == p) (same q),
      )

  empty_pool : ℕ → MemPool
  empty_pool capacity = record {
    initial_capacity = capacity;
    total_capacity = 0;
    chunks = [];
    chunk_offsets = [];
    free_list_head = none;
    nodes = λ p. record { is_free = true; next = none };
  }

  capacity_of : ℕ → ℕ
  capacity_of n = if ltb 0 n then n else 256

  capacity_pos : (n : ℕ) → 0 < capacity_of n
  unfolding capacity_of
  capacity_pos n = ground arith

  -- A new pool is well-formed, and no address is live.
  pub make_pool-IsPool :
      (initial_capacity : ℕ) (base : Ptr)
      → (free : List Ptr) × IsPool node_size (make_pool node_size initial_capacity base) free
        × ((p : Ptr) → live node_size (make_pool node_size initial_capacity base) free p ≡ false)
  unfolding make_pool empty_pool capacity_of
  make_pool-IsPool initial_capacity base =
      let (n, e) = is_suc (capacity_of initial_capacity) (capacity_pos initial_capacity) in
      let empty : IsPool node_size (empty_pool (suc n)) [] = record {
        chain = refl;
        nodup = tt;
        owned = λ p at. absurd (ground arith);
        flags = λ p at. absurd (ground arith);
        positive = omega arith;
      } in
      let full : MemPool = add_chunk node_size (suc n) base (empty_pool (suc n)) in
      let built : IsPool node_size full (run node_size sized (suc n) base ++ []) =
        add_chunk-IsPool node_size sized (empty_pool (suc n)) [] n base empty (λ q at. refl) in
      let none_live : (p : Ptr)
          → live node_size full (run node_size sized (suc n) base ++ []) p ≡ false =
        live-add_chunk (empty_pool (suc n)) n base empty (λ q at. refl) in
      subst
        (λ k.
          (free : List Ptr) × IsPool node_size (add_chunk node_size k base (empty_pool k)) free
          × ((p : Ptr) → live node_size (add_chunk node_size k base (empty_pool k)) free p ≡ false))
        (sym e) (run node_size sized (suc n) base ++ [], built, none_live)
