-- ===== src/MemPool/Index.antt =====
-- Indices: the binary search of `resolveIndex`.
use flower_exchange.Base.{
  ℕ, zero, suc, ◌+◌, ◌-◌, ◌/◌, ◌<◌, ◌≤◌, ◌≡◌, ◌⊎◌, refl, sym, ap, ◌∙◌, subst, arith, inl, inr, none,
  some, List, [], ◌∷◌, ◌++◌, length, get_elem?, take, ltb, leb, Bool-cases, get_elem?_of_lt,
}
use flower_exchange.Types.{Ptr}
use flower_exchange.MemPool.{Chunk, MemPool, add_chunk, search_chunk, resolve_index}

-- The offset of each chunk is the number of nodes before it.
abbrev pub offsets_from : ℕ → List Chunk → List ℕ
offsets_from n [] = []
offsets_from n (chunk ∷ chunks) = n ∷ offsets_from (n + chunk.count) chunks

abbrev pub count_all : List Chunk → ℕ
count_all [] = 0
count_all (chunk ∷ chunks) = chunk.count + count_all chunks

pub record IsIndexed (pool : MemPool) : Type 0 where
  pub offsets : pool.chunk_offsets ≡ offsets_from 0 pool.chunks
  pub total : pool.total_capacity ≡ count_all pool.chunks

offsets_from-append :
    (n : ℕ) (chunks : List Chunk) (chunk : Chunk)
    → offsets_from n (chunks ++ chunk ∷ []) ≡ offsets_from n chunks ++ (n + count_all chunks) ∷ []
offsets_from-append n [] chunk = let e : n + 0 ≡ n = omega arith in rw e refl
offsets_from-append n (c ∷ chunks) chunk =
    let e : n + c.count + count_all chunks ≡ n + (c.count + count_all chunks) = omega arith in
    rw (offsets_from-append (n + c.count) chunks chunk, e) refl

count_all-append :
    (chunks : List Chunk) (chunk : Chunk)
    → count_all (chunks ++ chunk ∷ []) ≡ count_all chunks + chunk.count
count_all-append [] chunk = omega arith
count_all-append (c ∷ chunks) chunk = omega (arith, count_all-append chunks chunk)

-- Adding a chunk keeps the offsets right.
pub add_chunk-IsIndexed :
    (node_size count : ℕ) (base : Ptr) (pool : MemPool)
    → IsIndexed pool
    → IsIndexed (add_chunk node_size count base pool)
unfolding add_chunk
add_chunk-IsIndexed node_size count base pool x = record {
  offsets =
      ap (λ os. os ++ pool.total_capacity ∷ []) x.offsets
      ∙ ap (λ n. offsets_from 0 pool.chunks ++ n ∷ []) (x.total ∙ omega arith)
      ∙ sym (offsets_from-append 0 pool.chunks (record { base = base; count = count }));
  total =
      ap (λ n. n + count) x.total
      ∙ sym (count_all-append pool.chunks (record { base = base; count = count }));
}

length-offsets : (n : ℕ) (chunks : List Chunk) → length (offsets_from n chunks) ≡ length chunks
length-offsets n [] = refl
length-offsets n (c ∷ chunks) = ap suc (length-offsets (n + c.count) chunks)

-- `ci` is the last chunk of `[lo, hi)` whose offset is at most `idx`, so far.
-- The search keeps: the offset at `lo` is at most `idx`, and the one at `hi`, if any, is above.
abbrev AtMost : List ℕ → ℕ → ℕ → Type 0
AtMost offsets idx lo = (o : ℕ) × (get_elem? offsets lo ≡ some o) × (o ≤ idx)

abbrev Above : List ℕ → ℕ → ℕ → Type 0
Above offsets idx hi =
    (get_elem? offsets hi ≡ none) ⊎ ((o : ℕ) × (get_elem? offsets hi ≡ some o) × (idx < o))

module _ (node_size : ℕ) where
  search_chunk-lem :
      (fuel idx : ℕ) (offsets : List ℕ) (lo hi : ℕ)
      → hi - lo < fuel
      → lo < hi
      → hi ≤ length offsets
      → AtMost offsets idx lo
      → Above offsets idx hi
      → (ci : ℕ) × (search_chunk node_size fuel idx offsets lo hi ≡ some ci)
        × AtMost offsets idx ci
        × Above offsets idx (suc ci)
  unfolding search_chunk
  search_chunk-lem zero idx offsets lo hi enough some_chunk within at_most above =
      absurd (omega arith)
  search_chunk-lem (suc fuel) idx offsets lo hi enough some_chunk within at_most above =
      let mid : ℕ = lo + (hi - lo) / 2 in
      elim (Bool-cases (ltb (lo + 1) hi)) [
        | inr last ↦
            let one : hi ≡ suc lo = ground arith in
            (lo, rw last refl, at_most, subst (Above offsets idx) one above)
        | inl wide ↦
            let apart : lo + 1 < hi = ground arith in
            let (o, found) = get_elem?_of_lt offsets mid (omega (arith, apart, within)) in
            elim (Bool-cases (leb o idx)) [
              | inl low ↦
                  let (ci, e, under, over) =
                    search_chunk-lem fuel idx offsets mid hi (omega (arith, apart, enough))
                      (omega (arith, apart)) within (o, found, ground arith) above in
                  (ci, rw (wide, found, low) e, under, over)
              | inr high ↦
                  let (ci, e, under, over) =
                    search_chunk-lem fuel idx offsets lo mid (omega (arith, apart, enough))
                      (omega (arith, apart)) (omega (arith, apart, within)) at_most
                      (inr (o, found, ground arith)) in
                  (ci, rw (wide, found, high) e, under, over)
            ]
      ]

-- The chunk behind an offset, and the offset behind that chunk.
offset-chunk :
    (n : ℕ) (chunks : List Chunk) (ci o : ℕ)
    → get_elem? (offsets_from n chunks) ci ≡ some o
    → (chunk : Chunk) × (get_elem? chunks ci ≡ some chunk)
      × (o ≡ n + count_all (take ci chunks))
      × ((get_elem? (offsets_from n chunks) (suc ci) ≡ some (o + chunk.count))
          ⊎ ((get_elem? (offsets_from n chunks) (suc ci) ≡ none)
              × (o + chunk.count ≡ n + count_all chunks)))
offset-chunk n [] ci o e = absurd (ground arith)
offset-chunk n (c ∷ []) zero o e =
    let same : n ≡ o = ground arith in
    (c, refl, omega (arith, same), inr (refl, omega (arith, same)))
offset-chunk n (c ∷ d ∷ chunks) zero o e =
    let same : n ≡ o = ground arith in
    (c, refl, omega (arith, same), inl (ap (λ z. some (z + c.count)) same))
offset-chunk n (c ∷ chunks) (suc ci) o e =
    let (chunk, at, sum, next) = offset-chunk (n + c.count) chunks ci o e in
    (
      chunk,
      at,
      omega (arith, sum),
      elim next [ inl more ↦ inl more | inr (last, all) ↦ inr (last, omega (arith, all)) ],
    )

some_inj : {a b : ℕ} → some a ≡ some b → a ≡ b
some_inj e = cc

-- The index lies within the chunk that was found.
within_chunk :
    (offsets : List ℕ) (ci o count total idx : ℕ)
    → Above offsets idx (suc ci)
    → (get_elem? offsets (suc ci) ≡ some (o + count))
      ⊎ ((get_elem? offsets (suc ci) ≡ none) × (o + count ≡ 0 + total))
    → idx < total
    → o ≤ idx
    → idx - o < count
within_chunk offsets ci o count total idx above (inr (last, all)) below low =
    omega (arith, all, below, low)
within_chunk offsets ci o count total idx (inl past) (inl more) below low =
    absurd (ground (arith, past, more))
within_chunk offsets ci o count total idx (inr (o', at, high)) (inl more) below low =
    omega (arith, some_inj (sym at ∙ more), high, low)

get_elem?-past : (offsets : List ℕ) → get_elem? offsets (length offsets) ≡ none
get_elem?-past [] = refl
get_elem?-past (o ∷ offsets) = get_elem?-past offsets

module _ (node_size : ℕ) where
  abbrev pub Resolves : MemPool → ℕ → Type 0
  Resolves pool idx =
      ((idx < pool.total_capacity)
        × ((ci : ℕ) × (local : ℕ) × (chunk : Chunk) × (resolve_index node_size idx pool
              ≡ some (ci, local))
            × (get_elem? pool.chunks ci ≡ some chunk)
            × (local < chunk.count)
            × (count_all (take ci pool.chunks) + local ≡ idx)))
      ⊎ ((pool.total_capacity ≤ idx) × (resolve_index node_size idx pool ≡ none))

  -- On a pool with right offsets: an index below the capacity is resolved, to the chunk and the place
  -- in it at which that many nodes come before, and the fuel is enough; any other index throws.
  pub resolve_index-Resolves : (pool : MemPool) (idx : ℕ) → IsIndexed pool → Resolves pool idx
  unfolding resolve_index
  resolve_index-Resolves pool idx x = elim (Bool-cases (leb pool.total_capacity idx)) [
    | inl out ↦ inr (ground arith, rw out refl)
    | inr inside ↦
        let below : idx < pool.total_capacity = ground arith in
        let (first, start) = starts pool.chunks (omega (arith, below, x.total)) in
        let size : length pool.chunk_offsets ≡ length pool.chunks =
          ap length x.offsets ∙ length-offsets 0 pool.chunks in
        let (ci, found, (o, at, low), high) =
          search_chunk-lem node_size (suc (length pool.chunks)) idx pool.chunk_offsets 0
            (length pool.chunks) (omega arith) first (omega (arith, size))
            (0, ap (λ os. get_elem? os 0) x.offsets ∙ start, omega arith)
            (inl
              (ap (get_elem? pool.chunk_offsets) (sym size) ∙ get_elem?-past pool.chunk_offsets)) in
        let (chunk, here, sum, next) =
          offset-chunk 0 pool.chunks ci o (sym (ap (λ os. get_elem? os ci) x.offsets) ∙ at) in
        inl (
          below,
          (
            ci,
            idx - o,
            chunk,
            rw (inside, found, at) refl,
            here,
            within_chunk (offsets_from 0 pool.chunks) ci o chunk.count (count_all pool.chunks) idx
                (subst (λ os. Above os idx (suc ci)) x.offsets high) next
                (omega (arith, below, x.total)) low,
            omega (arith, sum, low),
          ),
        )
  ]
    where
      starts :
          (chunks : List Chunk)
          → 0 < count_all chunks
          → (0 < length chunks) × (get_elem? (offsets_from 0 chunks) 0 ≡ some 0)
      starts [] h = absurd (omega arith)
      starts (c ∷ chunks) h = (omega arith, refl)
