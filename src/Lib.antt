-- ===== src/Lib.antt =====
-- The core of the opensips-ng SIP server, src/core: the data structures and services that the rest of the
-- server stands on. Each part is translated from the C source, function by function, and its operations
-- are related to what they promise.
--
-- Prelude: shared names, Boolean tests, lists and integers over the native numbers, results that may fault
-- (`Option`, with `Each` for partial and `Yields` for total correctness).
--
-- Map: src/core/map.c and map.h, an ordered map from byte strings to pointers, an AVL tree with parent
-- pointers. Map/Key is the order of keys (`str_cmp`); Map/Tree the node, the table, `map_create`,
-- `map_find`, `map_size`; Map/Insert `map_get` and `map_put`; Map/Remove `delete_node` and `map_remove`;
-- Map/Iterator the iterators; Map/Walk `map_for_each` and `map_destroy`. A node with its way up to the
-- root is a zipper (`Location`), so parent pointers agree with links by construction. A NULL link that the
-- rotations follow and a failed assertion are `none`. `avl_malloc` is a pair of Booleans (`Alloc`).
-- Map/Entries is the specification, a sorted association list, with lemmas on the steps of the code;
-- Map/Balance has the heights and the AVL condition; Map/Refine joins the two.
--
-- Dispatcher: src/core/dispatcher, the task queue of a reactor, a binary max-heap in an array with a lock
-- and a semaphore. Dispatcher/Order, Put, Get and Content are about the heap order and the contents,
-- Dispatcher/Calls about one call, and Dispatcher/Threads interleaves threads that stop between the lock
-- and the semaphore. The loops run on fuel: a round for each entry is enough, since an index halves or
-- doubles in each.
--
-- Timer: src/core/timer.c and timer.h, the two clocks, the lists of periodic tasks and the timer thread. A
-- tick gives its calls of `put_task` as a list, which `put_all` hands to the dispatcher. The 64-bit clocks
-- wrap round.
--
-- Parser: src/core/trim.h and src/core/parser/parse_methods.c over a memory of bytes (Parser/Memory). The
-- loop of `parse_methods` runs on fuel, and one more than the length of the body is enough. `*_methods` is
-- an unbounded number; the codes of msg_parser.h are below 2^15. Parser/Uri is `parse_uri` of
-- src/core/parser/parse_uri.c: State has struct sip_uri and the local variables, Cases the macros, Step
-- the `switch` state by state, Parse the loop, which has a round for each byte, and the rest, Msg
-- `parse_sip_msg_uri` and `parse_orig_ruri`. An error is its label (`Fault`); the URI that is filled in
-- part behind it is not modelled. A NULL pointer is 0, a `char` is signed, and `nul` is the address of the
-- literal "". The int `port_no` is not bounded while its digits are read, and is taken modulo 2^16 where
-- it is stored, as an int that wraps round would be. Inside is about the places of the members, Reads and
-- Roundtrip about URIs put together from their parts, and Omitted about the parameter r2.
--
-- Parser/Params is src/core/parser/parse_param.c over the same memory. A parameter is known by the number
-- of the call of the allocator that gave its block, which succeeds as an oracle says; `none` is a negative
-- code of a function that it calls. Of the union `param_hooks_t` the hooks of the class of the call are
-- modelled; those of the other class share its memory and are `none`. Types has the parameters, their
-- types and the hooks, Rounds a round of `parse_params`, Lists its loop, on fuel, where one more than the
-- length of the text is enough, and the copies. Inside and Owned are about the places and the blocks of
-- the parameters, Reads, Hooked and Roundtrip about texts put together from names and tokens, Ttl about
-- the name ttl, and Copy about the copies.
--
-- Db: `parse_db_url`, `new_db_id`, `cmp_db_id` and `free_db_id` of src/core/db/db_id.c with `str2s` of
-- src/core/utils.h, over a heap that numbers the calls of `shm_malloc` and lists the blocks freed. Whether
-- a call succeeds is an oracle (`Alloc`).
--
-- Mi: src/core/mi/attr.c, the attributes of a node of a management reply, as a list in the order of the
-- `next` pointers.
--
-- Mem: src/core/mem/q_malloc.c and q_malloc.h, the allocator of a block of memory, as Makefile.defs builds
-- it, with DBG_QM_MALLOC (its check patterns are left out) and QM_JOIN_FREE as a parameter. Mem/Word has
-- the arithmetic of unsigned long, Mem/Frag the fragments in the order of their addresses (FRAG_NEXT and
-- FRAG_PREV are the neighbours), Mem/Free the lists of free fragments by size (GET_HASH, qm_insert_free,
-- qm_detach_free, qm_find_free), and Mem/Qm the operations, with Mem/Realloc for `qm_realloc` (Grow and
-- Counters are about it). An abort, and a pointer to memory where no fragment starts, is `none`.
-- Mem/Qm/Heap is the invariant between two calls, with the fragments in use as the abstract view of a
-- block; Mem/Qm/Split, Malloc, Fit, Join, Release and Cycle are about the calls, and Mem/Free/Classes
-- about the order of the lists. The loop of big_hash_idx has a round for each of the 64 bits, that of
-- qm_find_free one for each list. The counters wrap round; the sizes of fragments do not, since their
-- memory is there.
--
-- Resolve: src/core/resolve/parsers.c. Resolve/Records has the parsers of the record types and
-- `dns_skipname`, over a message that ends at an address, where a read at or behind it is `none`; the C
-- library's dn_expand is a parameter. Each round of `dns_skipname` moves the pointer, so that a round for
-- each byte is enough. Resolve/Naptr is `filter_and_sort_naptr`, and Resolve/Srvs `sort_srvs`, with the C
-- library's rand as a parameter and fuel for each record of the list.
--
-- Not modelled: the network layer, the reactors, the SIP message parsers other than the method list, the
-- URI and the lists of parameters, the other memory allocators, `parse_record` and the queries of the
-- resolver, the configuration, the modules, the rest of the management interface, the start of the
-- process, and logging. The allocators, locks and semaphores behind the other parts are the values that
-- they return; memory is assumed not to be written by others while a parser reads it. The release of the
-- node in `delete_node` is not part of the model's state.
pub mod Prelude
pub mod Map
pub mod Dispatcher
pub mod Timer
pub mod Parser
pub mod Db
pub mod Mi
pub mod Mem
pub mod Resolve
