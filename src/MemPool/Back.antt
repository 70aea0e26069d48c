-- ===== src/MemPool/Back.antt =====
-- From an index to an address and back.
use native.Mathlib.Nat.{mul-div_cancel, mul-lt-mul_of_pos_right}
use flower_exchange.Base.{
  ℕ, zero, suc, ◌+◌, ◌-◌, ◌*◌, ◌/◌, ◌<◌, ◌≡◌, refl, sym, ap, ◌∙◌, subst, arith, inl, inr, Bool,
  true, false, ◌&&◌, ◌||◌, some, List, [], ◌∷◌, get_elem?, take, ltb, leb,
}
use flower_exchange.Types.{Ptr}
use flower_exchange.MemPool.{Chunk, MemPool, index_from, get_index, get}
use flower_exchange.MemPool.Index.{offsets_from, count_all, IsIndexed, resolve_index-Resolves}

module _ (node_size : ℕ) (sized : 0 < node_size) where
  -- The memory of a chunk.
  abbrev covers : Chunk → Ptr → Bool
  covers chunk p = leb chunk.base p && ltb p (chunk.base + chunk.count * node_size)

  abbrev covered : List Chunk → Ptr → Bool
  covered [] p = false
  covered (chunk ∷ chunks) p = covers chunk p || covered chunks p

  -- No two chunks share a byte.
  abbrev pub AllApart : List Chunk → Type 0
  AllApart [] = Unit {0}
  AllApart (chunk ∷ chunks) =
      ((p : Ptr) → (covers chunk p && covered chunks p) ≡ false) × AllApart chunks

  covered-get :
      (chunks : List Chunk) (ci : ℕ) (chunk : Chunk) (p : Ptr)
      → get_elem? chunks ci ≡ some chunk
      → covers chunk p ≡ true
      → covered chunks p ≡ true
  covered-get [] ci chunk p at e = absurd (ground arith)
  covered-get (c ∷ chunks) zero chunk p at e =
      let same : chunk ≡ c = ground arith in
      let here : covers c p ≡ true = subst (λ z. covers z p ≡ true) same e in rw here refl
  covered-get (c ∷ chunks) (suc ci) chunk p at e =
      let later = covered-get chunks ci chunk p at e in ground arith

  -- The first chunk that covers an address is the only one.
  index_from-get :
      (pool : MemPool) (chunks : List Chunk) (k ci offset : ℕ) (chunk : Chunk) (p : Ptr)
      → AllApart chunks
      → get_elem? chunks ci ≡ some chunk
      → covers chunk p ≡ true
      → get_elem? pool.chunk_offsets (k + ci) ≡ some offset
      → index_from node_size p k pool chunks ≡ some (offset + (p - chunk.base) / node_size)
  unfolding index_from
  index_from-get pool [] k ci offset chunk p apart at e o = absurd (ground arith)
  index_from-get pool (c ∷ chunks) k zero offset chunk p apart at e o =
      let same : c ≡ chunk = ground arith in
      let here : covers c p ≡ true = subst (λ z. covers z p ≡ true) (sym same) e in
      let start : k + 0 ≡ k = omega arith in
      let found : get_elem? pool.chunk_offsets k ≡ some offset =
        sym (ap (get_elem? pool.chunk_offsets) start) ∙ o in
      rw (here, found) (ap (λ z. some (offset + (p - z.base) / node_size)) same)
  index_from-get pool (c ∷ chunks) k (suc ci) offset chunk p (first, apart) at e o =
      let later = covered-get chunks ci chunk p at e in
      let away : covers c p ≡ false = ground (arith, first p) in
      let next : k + suc ci ≡ suc k + ci = omega arith in
      rw away (
        index_from-get pool chunks (suc k) ci offset chunk p apart at e
          (sym (ap (get_elem? pool.chunk_offsets) next) ∙ o))

  offset-get :
      (n : ℕ) (chunks : List Chunk) (ci : ℕ) (chunk : Chunk)
      → get_elem? chunks ci ≡ some chunk
      → get_elem? (offsets_from n chunks) ci ≡ some (n + count_all (take ci chunks))
  offset-get n [] ci chunk at = absurd (ground arith)
  offset-get n (c ∷ chunks) zero chunk at = ap some (omega arith)
  offset-get n (c ∷ chunks) (suc ci) chunk at =
      offset-get (n + c.count) chunks ci chunk at ∙ ap some (omega arith)

  abbrev pub ComesBack : MemPool → ℕ → Type 0
  ComesBack pool idx =
      (p : Ptr) × (get node_size idx pool ≡ some p) × (get_index node_size p pool ≡ some idx)

  -- On a pool with right offsets and nodes of a positive size, no two of whose chunks share a byte: an
  -- index below the capacity has an address, and the index of that address is the same again.
  pub get-ComesBack :
      (pool : MemPool) (idx : ℕ)
      → IsIndexed pool
      → AllApart pool.chunks
      → idx < pool.total_capacity
      → ComesBack pool idx
  unfolding get get_index
  get-ComesBack pool idx x apart below = elim (resolve_index-Resolves node_size pool idx x) [
    | inr (over, _) ↦ absurd (omega (arith, over, below))
    | inl (_, (ci, local, chunk, found, at, inside, sum)) ↦
        let p : Ptr = chunk.base + local * node_size in
        let short : local * node_size < chunk.count * node_size =
          mul-lt-mul_of_pos_right inside sized in
        let covered_here : covers chunk p ≡ true = ground (arith, short) in
        let offset = ap (λ os. get_elem? os ci) x.offsets ∙ offset-get 0 pool.chunks ci chunk at in
        let start : 0 + ci ≡ ci = omega arith in
        let back =
          index_from-get pool pool.chunks 0 ci (0 + count_all (take ci pool.chunks)) chunk p apart
            at covered_here (ap (get_elem? pool.chunk_offsets) start ∙ offset) in
        let gap : p - chunk.base ≡ local * node_size = omega arith in
        (
          p,
          rw (found, at) refl,
          back
              ∙ ap some (
                  ap (λ d. 0 + count_all (take ci pool.chunks) + d / node_size) gap
                  ∙ ap (λ d. 0 + count_all (take ci pool.chunks) + d) (mul-div_cancel local sized)
                  ∙ omega (arith, sum)),
        )
  ]
