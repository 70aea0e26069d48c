-- ===== src/Tests/Pool.antt =====
-- A pool of two nodes of 8 bytes at address 100.
use flower_exchange.Base.{◌≡◌, ◌<◌, refl, arith, false, List}
use flower_exchange.Types.{Ptr}
use flower_exchange.MemPool.{MemPool, make_pool, add_chunk, allocate}
use flower_exchange.MemPool.Free.{IsPool, live, Frees, deallocate_impl-Frees}
use flower_exchange.MemPool.Grow.{IsApart}
use flower_exchange.MemPool.Allocate.{grown, Gives, allocate-Gives, make_pool-IsPool}
use flower_exchange.MemPool.Back.{AllApart, ComesBack, get-ComesBack}
use flower_exchange.MemPool.Index.{IsIndexed, Resolves, resolve_index-Resolves}

sized : 0 < 8
sized = omega arith

abbrev two_nodes : MemPool
two_nodes = make_pool 8 2 100

two_nodes-IsPool :
    (free : List Ptr) × IsPool 8 two_nodes free × ((p : Ptr) → live 8 two_nodes free p ≡ false)
two_nodes-IsPool = make_pool-IsPool 8 sized 2 100

make_pool-IsPool_example :
    (free : List Ptr) × IsPool 8 two_nodes free × ((p : Ptr) → live 8 two_nodes free p ≡ false)
make_pool-IsPool_example = make_pool-IsPool 8 sized 2 100

two_nodes-IsApart : IsApart 8 sized two_nodes (grown 8 sized two_nodes) 1000
unfolding make_pool add_chunk
two_nodes-IsApart = λ q at. ground arith

given : Gives 8 sized (allocate 8 1000 two_nodes) two_nodes two_nodes-IsPool.0
given =
    allocate-Gives 8 sized 1000 two_nodes two_nodes-IsPool.0 two_nodes-IsPool.1 two_nodes-IsApart

allocate-Gives_example : Gives 8 sized (allocate 8 1000 two_nodes) two_nodes two_nodes-IsPool.0
allocate-Gives_example =
    allocate-Gives 8 sized 1000 two_nodes two_nodes-IsPool.0 two_nodes-IsPool.1 two_nodes-IsApart

deallocate_impl-Frees_example : Frees 8 given.1 given.2 given.0
deallocate_impl-Frees_example = deallocate_impl-Frees 8 given.1 given.2 given.0 given.4

two_nodes-IsIndexed : IsIndexed two_nodes
unfolding make_pool add_chunk
two_nodes-IsIndexed = record { offsets = refl; total = refl }

resolve_index-Resolves_example : Resolves 8 two_nodes 1
resolve_index-Resolves_example = resolve_index-Resolves 8 two_nodes 1 two_nodes-IsIndexed

two_nodes-AllApart : AllApart 8 sized two_nodes.chunks
unfolding make_pool add_chunk
two_nodes-AllApart = (λ p. ground arith, tt)

two_nodes-total : 1 < two_nodes.total_capacity
unfolding make_pool add_chunk
two_nodes-total = omega arith

get-ComesBack_example : ComesBack 8 sized two_nodes 1
get-ComesBack_example =
    get-ComesBack 8 sized two_nodes 1 two_nodes-IsIndexed two_nodes-AllApart two_nodes-total
