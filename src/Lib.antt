-- ===== src/Lib.antt =====
-- Models and proofs of the oblivious multi-way join: the trusted code of the SGX enclave
-- (enclave/trusted) and of the batching baseline (baselines/batching/enclave/trusted).
--
-- The join works on rows (entry_t). The bottom-up phase walks the join tree and multiplies each
-- parent row's local_mult by the number of matching child rows. It does so on short records
-- (sk_rec_t), which it sorts three times with ej_osort_g and passes over twice. ej_osort_g
-- shuffles its array by a permutation network under secret bits and then calls qsort. The top-down
-- phase walks the tree from the root and hands each parent row's final_mult out to the child rows
-- that it joins, on the same records with the roles changed. The distribute phase repeats each row
-- final_mult times: it sorts the rows without copies to the end, moves the others to their places
-- by a network of conditional swaps, and fills the gaps. The align phase puts each child's table in
-- the order of the accumulated result and sets it beside it. The baseline
-- does the same work with compare-and-swap operations and window operations on whole rows, each of
-- which decrypts its rows and encrypts them again.
--
-- Prelude: numbers, tests, lists and 32-bit words (Prelude/Word). An int32_t is a number read modulo
--   2 ^ 32, so overflow wraps; `skey` orders words by their sign.
-- Constants, Entry: common/constants.h, common/entry_t.h and common/ecall_types.h; Entry/Words lists
--   the fields of a row in memory order, and Entry/Slots follows the reads of a column.
-- Order: comparators that are the order of a rank; sorted lists and their permutations.
-- Skinny: enclave/trusted/join/skinny.c, the record and its comparators.
-- Swap: the masked swap of enclave/trusted/join/comparators.c and of oblivious_sort.c.
-- Waksman: next_bit, num_switches and waksman of enclave/trusted/join/oblivious_sort.c.
-- Runtime: memory, the random generator with its keystream, and qsort, as parameters with what the
--   code relies on as hypotheses (Healthy, Lawful). A run gives a value, the error return -1, a
--   fault, which is an access out of bounds or a loop that does not end, or a trap, which is a
--   division of INT32_MIN by -1.
-- Sort: bitstream_init and ej_osort_g of enclave/trusted/join/oblivious_sort.c.
-- BottomUp: enclave/trusted/join/bottom_up.c; BottomUp/Tree has bottom_up
--   itself, the initialisation and the walk over the join tree. BottomUp/Cumsum and Sums follow the
--   running sums, Arrange and Intervals the two later sorts and the pass between them, and Correct
--   and Product put the steps together.
-- TopDown: enclave/trusted/join/top_down.c; TopDown/Tree has top_down itself.
-- Distribute: enclave/trusted/join/distribute.c and the strides of trow.h; Distribute/Table has
--   expand_single_table and distribute_expand. Distribute/Routes, Pass, Arrives and Fills follow the
--   rows through one step, one pass and all passes of the network, and through the expansion.
-- Align: enclave/trusted/join/align.c; Align/Attach has attach_child, preorder and align_concat, and
--   Rows and Joined follow one attachment, Ordered and Emitted the order and the number of the
--   nodes, Placed and Walk the columns of the attached tables, and Concat the whole phase.
-- Trow: enclave/trusted/join/trow.c, the comparators of wide rows; Trow/Wide makes one number of a
--   row.
-- MemTrack: enclave/trusted/mem_track.c.
-- Crypto: enclave/trusted/crypto/aes_crypto.c, its copy in the baseline, and crypto_helpers.c. The
--   SGX cipher is a parameter, with its round trip as a hypothesis (Sound).
-- Batching: baselines/batching/enclave/trusted. Comparators, Merge, Window, Transform and Sealed are
--   the row operations (operations); Batch has the loops that decrypt and encrypt a batch around its
--   work; Operations and Dispatcher are batch/batch_dispatcher.c with the table of
--   common/batch_types.h. Of algorithms, Heap is min_heap.c, Sorted ecall_heap_sort of heap_sort.c,
--   Shuffle oblivious_waksman.c and Aks aks_distribute.c. Aks/Swaps follows the slots through the
--   loops of the distribution, Turn, Level, Halves and Power the blocks of 2 ^ k slots, Pair, Front
--   and Inner the blocks of any size, and Call the whole batch.
-- Tests: examples at concrete inputs, with a concrete runtime and cipher (Tests/Machine).
--
-- Bounds and fuel. The network halves its group in each call, so on 2 ^ k elements fuel k + 1 is
-- enough; ej_osort_g gives 64. The doubling loop of ej_osort_g has fuel 65 and the loop of
-- num_switches 64, as a size_t has 64 bits. The theorems on the sort hold up to 2 ^ 57 elements,
-- where no count of switches overflows. The passes of the distribution network have fuel 65 and
-- the search for its widest distance 64; below 2 ^ 63 slots both end. preorder has fuel one
-- beyond the number of nodes, which a tree in post-order does not use up. A heap's loops have as
-- much fuel as the heap has elements, since the index grows (or falls) in each round; below 2 ^
-- 32 elements the conversion to an int keeps the number of nodes. The recursion of
-- aks_distribute at least halves its block in each call, and has fuel 65; the theorem on it
-- holds below 2 ^ 30 rows, where no int32_t overflows. A column below 64 is a slot of every row.
-- The shuffle takes at most 2000 rows and has fuel 12.
--
-- Not modelled: the k-way merge, the k-way shuffle and the distribution of arrays beyond one batch
-- (k_way_merge.c, k_way_shuffle.c and the chunked half of aks_distribute.c), which exchange their rows
-- with the host by calls that it answers; the release of buffers, but for the static buffer of the
-- dispatcher; null pointers; debug messages; the C++ code of the host.
pub mod Align
pub mod Batching
pub mod BottomUp
pub mod Constants
pub mod Crypto
pub mod Distribute
pub mod Entry
pub mod MemTrack
pub mod Order
pub mod Prelude
pub mod Runtime
pub mod Skinny
pub mod Sort
pub mod Swap
pub mod Tests
pub mod TopDown
pub mod Trow
pub mod Waksman
