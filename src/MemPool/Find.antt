-- ===== src/MemPool/Find.antt =====
-- Which addresses are nodes of the pool.
use native.Mathlib.Nat.{lt_of_mul-lt-mul_right, div-add-mod'}
use flower_exchange.Base.{
  ℕ, ◌+◌, ◌-◌, ◌*◌, ◌/◌, ◌%◌, ◌<◌, ◌≤◌, ◌≡◌, refl, ap, ◌∙◌, arith, inl, inr, Bool, true, false, not,
  ◌&&◌, ◌||◌, none, some, List, [], ◌∷◌, ◌++◌, ltb, leb, ◌==◌, if◌then◌else◌, Bool-cases,
}
use flower_exchange.Types.{Ptr}
use flower_exchange.MemPool.{Chunk, find_node}

module _ (node_size : ℕ) where
  abbrev pub is_node : Chunk → Ptr → Bool
  is_node chunk p =
      leb chunk.base p
      && ltb p (chunk.base + chunk.count * node_size)
      && ((p - chunk.base) % node_size == 0)

  abbrev pub owns : List Chunk → Ptr → Bool
  owns [] p = false
  owns (chunk ∷ chunks) p = is_node chunk p || owns chunks p

  find_here :
      (p : Ptr) (chunk : Chunk) (chunks : List Chunk)
      → is_node chunk p ≡ true
      → find_node node_size p (chunk ∷ chunks) ≡ some p
  unfolding find_node
  find_here p chunk chunks e =
      let offset : ℕ = p - chunk.base in
      let above : chunk.base ≤ p = ground arith in
      let below : p < chunk.base + chunk.count * node_size = ground arith in
      let whole : offset % node_size ≡ 0 = ground arith in
      let exact : offset / node_size * node_size ≡ offset =
        omega (arith, div-add-mod' offset node_size, whole) in
      let inside : offset / node_size * node_size < chunk.count * node_size =
        omega (arith, exact, above, below) in
      let fewer : offset / node_size < chunk.count = lt_of_mul-lt-mul_right node_size inside in
      let a : chunk.count == 0 ≡ false = ground (arith, fewer) in
      let b : (ltb p chunk.base || leb (chunk.base + chunk.count * node_size) p) ≡ false =
        ground (arith, above, below) in
      let d : not (offset % node_size == 0) ≡ false = ground (arith, whole) in
      let g : leb chunk.count (offset / node_size) ≡ false = ground (arith, fewer) in
      let same : chunk.base + offset / node_size * node_size ≡ p = omega (arith, exact, above) in
      let h : not (chunk.base + offset / node_size * node_size == p) ≡ false =
        ground (arith, same) in
      rw (a, b, d, g, h) (ap some same)

  find_later :
      (p : Ptr) (chunk : Chunk) (chunks : List Chunk)
      → is_node chunk p ≡ false
      → find_node node_size p (chunk ∷ chunks) ≡ find_node node_size p chunks
  unfolding find_node
  find_later p chunk chunks e = elim (Bool-cases (chunk.count == 0)) [
    | inl empty ↦ rw empty refl
    | inr some_nodes ↦
        elim (Bool-cases (ltb p chunk.base || leb (chunk.base + chunk.count * node_size) p)) [
          | inl outside ↦ rw (some_nodes, outside) refl
          | inr within ↦
              let off : not ((p - chunk.base) % node_size == 0) ≡ true = ground arith in
              rw (some_nodes, within, off) refl
        ]
  ]

  -- The loop of `deallocateImpl` finds an address if and only if it is the start of a node of some
  -- chunk.
  pub find_node-owns :
      (p : Ptr) (chunks : List Chunk)
      → find_node node_size p chunks ≡ (if owns chunks p then some p else none)
  unfolding find_node
  find_node-owns p [] = refl
  find_node-owns p (chunk ∷ chunks) = elim (Bool-cases (is_node chunk p)) [
    | inl at ↦ rw at (find_here p chunk chunks at)
    | inr elsewhere ↦ rw elsewhere (find_later p chunk chunks elsewhere ∙ find_node-owns p chunks)
  ]

  pub owns-append :
      (chunks more : List Chunk) (p : Ptr)
      → owns (chunks ++ more) p ≡ (owns chunks p || owns more p)
  owns-append [] more p = refl
  owns-append (chunk ∷ chunks) more p = ground (arith, owns-append chunks more p)
