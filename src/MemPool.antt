-- ===== src/MemPool.antt =====
-- src/common/mempool.h: `MemPool`. An address is a number of bytes; the nodes of all chunks are one
-- store, from the address of a node to its flag and link. The objects in the nodes are not looked at
-- here. Where a chunk lies is what the allocator gives, a parameter of the call.
pub mod Find
pub mod Free
pub mod Grow
pub mod Allocate
pub mod Index
pub mod Back
use flower_exchange.Base.{
  ℕ, zero, suc, ◌+◌, ◌-◌, ◌*◌, ◌/◌, ◌%◌, min, max, Bool, true, false, not, ◌&&◌, ◌||◌, Option, none,
  some, List, [], ◌∷◌, ◌++◌, length, get_elem?, ltb, leb, ◌==◌, if◌then◌else◌, ◌>>=◌,
}
use flower_exchange.Types.{Ptr}

pub record Node : Type 0 where
  pub is_free : Bool
  pub next : Option Ptr

abbrev pub Nodes : Type 0
Nodes = Ptr → Node

-- `chunk.data()` and `chunk.size()`.
pub record Chunk : Type 0 where
  pub base : Ptr
  pub count : ℕ

pub record MemPool : Type 0 where
  pub initial_capacity : ℕ
  pub total_capacity : ℕ
  pub chunks : List Chunk
  pub chunk_offsets : List ℕ
  pub free_list_head : Option Ptr
  pub nodes : Nodes

unfoldable pub set_node : Nodes → Ptr → Node → Nodes
set_node nodes p node q = if q == p then node else nodes q

abbrev pub max_chunk_size : ℕ
max_chunk_size = 4000000

-- `sizeof(Node)`.
module _ (node_size : ℕ) where
  -- The links of the `count` nodes from `p` on, in front of the old free list.
  unfoldable pub link_nodes : ℕ → Ptr → Option Ptr → Nodes → Nodes
  unfolding set_node
  link_nodes zero p head nodes = nodes
  link_nodes (suc zero) p head nodes = set_node nodes p (record { is_free = true; next = head })
  link_nodes (suc (suc count)) p head nodes =
      link_nodes (suc count) (p + node_size) head
        (set_node nodes p (record { is_free = true; next = some (p + node_size) }))

  unfoldable pub add_chunk : ℕ → Ptr → MemPool → MemPool
  unfolding link_nodes
  add_chunk count base pool = record pool {
    total_capacity = pool.total_capacity + count;
    chunks = pool.chunks ++ record { base = base; count = count } ∷ [];
    chunk_offsets = pool.chunk_offsets ++ pool.total_capacity ∷ [];
    free_list_head = some base;
    nodes = link_nodes count base pool.free_list_head pool.nodes;
  }

  unfoldable pub grow : Ptr → MemPool → MemPool
  unfolding add_chunk
  grow base pool =
      add_chunk (min max_chunk_size (max pool.initial_capacity pool.total_capacity)) base pool

  -- The store of an empty pool holds nothing yet.
  unfoldable pub make_pool : ℕ → Ptr → MemPool
  unfolding add_chunk
  make_pool initial_capacity base =
      let capacity = if ltb 0 initial_capacity then initial_capacity else 256 in
      add_chunk capacity base (record {
        initial_capacity = capacity;
        total_capacity = 0;
        chunks = [];
        chunk_offsets = [];
        free_list_head = none;
        nodes = λ p. record { is_free = true; next = none };
      })

  abbrev pub is_none : Option Ptr → Bool
  is_none none = true
  is_none (some p) = false

  -- The first free node is taken; `none` is a read through a null pointer.
  unfoldable pub take_block : MemPool → Option (Ptr × MemPool)
  unfolding set_node
  take_block pool = do
    block ← pool.free_list_head
    some (
      block,
      record pool {
        free_list_head = (pool.nodes block).next;
        nodes = set_node pool.nodes block (record { is_free = false; next = none });
      },
    )

  -- `base` is where a chunk goes, if one is needed.
  unfoldable pub allocate : Ptr → MemPool → Option (Ptr × MemPool)
  unfolding grow take_block
  allocate base pool = take_block (if is_none pool.free_list_head then grow base pool else pool)

  -- The loop of `deallocateImpl` over the chunks: the node that it finds.
  unfoldable pub find_node : Ptr → List Chunk → Option Ptr
  find_node ptr [] = none
  find_node ptr (chunk ∷ chunks) =
      let rest = find_node ptr chunks in
      let byte_offset = ptr - chunk.base in
      let candidate = chunk.base + byte_offset / node_size * node_size in
      if chunk.count == 0
      then rest
      else if ltb ptr chunk.base || leb (chunk.base + chunk.count * node_size) ptr
      then rest
      else if not (byte_offset % node_size == 0)
      then rest
      else if leb chunk.count (byte_offset / node_size)
      then rest
      else if not (candidate == ptr)
      then rest
      else some candidate

  -- `none` is an exception.
  unfoldable pub deallocate_impl : Option Ptr → MemPool → Option MemPool
  unfolding find_node set_node
  deallocate_impl none pool = some pool
  deallocate_impl (some ptr) pool = do
    freed ← find_node ptr pool.chunks
    if (pool.nodes freed).is_free
        then none
        else some (record pool {
          free_list_head = some freed;
          nodes = set_node pool.nodes freed (record { is_free = true; next = pool.free_list_head });
        })

  -- The loop of `getIndex` from chunk `ci` on.
  unfoldable pub index_from : Ptr → ℕ → MemPool → List Chunk → Option ℕ
  index_from ptr ci pool [] = none
  index_from ptr ci pool (chunk ∷ chunks) =
      let rest = index_from ptr (suc ci) pool chunks in
      if leb chunk.base ptr && ltb ptr (chunk.base + chunk.count * node_size)
      then (do
        offset ← get_elem? pool.chunk_offsets ci
        some (offset + (ptr - chunk.base) / node_size))
      else rest

  unfoldable pub get_index : Ptr → MemPool → Option ℕ
  unfolding index_from
  get_index ptr pool = index_from ptr 0 pool pool.chunks

  -- The binary search of `resolveIndex`.
  unfoldable pub search_chunk : ℕ → ℕ → List ℕ → ℕ → ℕ → Option ℕ
  search_chunk zero idx offsets lo hi = none
  search_chunk (suc fuel) idx offsets lo hi =
      let mid = lo + (hi - lo) / 2 in
      let below = search_chunk fuel idx offsets lo mid in
      let above = search_chunk fuel idx offsets mid hi in
      if ltb (lo + 1) hi
      then (do offset ← get_elem? offsets mid; if leb offset idx then above else below)
      else some lo

  -- `none` is the exception; the fuel is the number of chunks and one.
  unfoldable pub resolve_index : ℕ → MemPool → Option (ℕ × ℕ)
  unfolding search_chunk
  resolve_index idx pool = if leb pool.total_capacity idx then none else (do
    lo ← search_chunk (suc (length pool.chunks)) idx pool.chunk_offsets 0 (length pool.chunks)
    offset ← get_elem? pool.chunk_offsets lo
    some (lo, idx - offset))

  -- `get(idx)`: the address of the object.
  unfoldable pub get : ℕ → MemPool → Option Ptr
  unfolding resolve_index
  get idx pool = do
    (ci, local) ← resolve_index idx pool
    chunk ← get_elem? pool.chunks ci
    some (chunk.base + local * node_size)
