-- ===== src/Lib.antt =====
-- Reduct is a functional language: a parser, an optimising compiler to bytecode, and a virtual
-- machine over immutable lists and interned atoms. This library models the parts below, as the code
-- is written, and proves what makes them correct.
--
-- HandleList (src/list.c, include/reduct/list.h): `reduct_list_t` is `ListItem`, an item at an
-- address that points into a buffer of handles; `Memory` has the store of items and buffers and the
-- commands on it, which return `none` for an access outside a buffer and for a `memcpy` between places
-- that overlap, which C leaves undefined. `list_new`, `new_handles`,
-- `append`, `prepend`, `concat` and `slice` are the functions of these names, path by path; lengths
-- and offsets wrap at 32 bits. `Contents` says what a list holds, when a heap is well formed
-- (`IsHeap`) and what a command may change (`Keeps`); `New`, `Writes` and `Makes` are what the
-- operations share. Commands run one after another: the atomic exchanges of flags are single steps,
-- and races are not modelled.
--
-- Parse (src/parse.c): `Scan` has the loops over characters, `Infix` the precedence table and
-- precedence climbing (`reduct_parse_infix_transform_recursive` is `climb` with its loop
-- `climb_loop`), `Reader` the recursive descent (`parse_expression`, `parse_list`, `dot_chain`,
-- `parse_input`). A text is the list of its bytes from the pointer on. The recursion is on fuel:
-- two steps for each item in `climb` and four for each character in `parse_input`, which is enough
-- for every text. An atom is what it is looked up by, the text as it is written and whether it is
-- quoted: which atom the map has for it is left out, and operators are told by the string that a new atom
-- of the text gets. Whether an atom is a number is a parameter; positions for messages are left out.
--
-- CharTable (src/char.c, include/reduct/char.h): the table of characters and its macros. `Escape` is
-- `reduct_atom_normalize_escape` of src/atom.c. The parser uses both.
--
-- Opcode (include/reduct/opcode.h, src/opcode.c): the opcodes, their table and the macros between
-- them; `Compare` has the conditions of `OP_COMPARE` and `OP_SKIP_CMP` of src/eval.c, over the
-- comparisons of doubles as a parameter with the laws of IEEE 754. Inst (include/reduct/inst.h): the
-- packing of instruction words. Bitmap (include/reduct/bitmap.h): bit arrays and their searches.
--
-- Arena (src/arena.c, include/reduct/arena.h): bump allocation of chunks, which the large lists
-- live in. The loop that doubles a new arena's capacity has 64 rounds of fuel, enough for every size
-- up to 2^61 bytes.
--
-- Handle (include/reduct/handle.h, src/handle.c): the macros that tag 64-bit words as numbers and
-- items, and `reduct_handle_get_type`. A double is the word of its bits, and what memory holds of an
-- item is a parameter. `Handle/Item` has the numbers of the types, and `Words` the laws.
--
-- Constants (src/function.c): the constants of a compiled function and their slots behind the
-- captures. Equality of handles is a parameter.
--
-- Collector (src/item.c, src/gc.c): `Item` has the items with their payloads and flags by address, in
-- units of 64 bytes, `Children` what `reduct_item_mark` goes on to for each kind of item, `Mark` the
-- marking, `Sweep` the sweep with `reduct_item_deinit`, and `Collect` the whole of `reduct_gc`.
-- Marking has fuel for the depth of its recursion, and a bound on the lists of the graph that it
-- walks; with items below an address `n`, fuel above `n` is enough. `Marks` says what marking
-- marks, `Swept`, `SweptRuns` and `SweptBlocks` what the sweep does to one item, to the items of a
-- block and to all blocks, and `Collected` puts them together. The threads of one phase mark one
-- after the other. `New` is `reduct_item_new`, which takes an item from a thread's own list of free
-- items, from the shared list that the sweep left, or from a new block; `Taken` has the lemmas on
-- linked lists that are cut, and `Takes` what it leaves of both lists. The loop that looks for the
-- last item to take makes at most the 126 rounds that its bound on the count leaves.
--
-- Evaluator (src/eval.c): `Machine` is `reduct_eval_local_t` with the closures, and `Host` what the
-- evaluator takes from handles, natives and futures; `Frames` has the growth of registers, calls,
-- returns, tail calls and the bundling of arguments, `Step` one function for each label of
-- `reduct_eval_run`, on the instruction words and opcodes of Inst and Opcode, and `Eval` the entries
-- from the host and the loop. A fault is an access outside the registers, constants, instructions or
-- closures. The loop runs on fuel, since programs need not end; the growth of registers has as many
-- rounds as registers are needed, which is enough from one register on. `Invariant` says when a
-- machine is as it should be; `Keeps`, `Run` and `Steps` go through frames, labels and instructions,
-- and `Reached` through runs; `Arguments` is about argument counts, and `Calls`, with `Places`, about calls from the
-- host. The sums of `uint32_t` wrap, but `prev_reg_count` is the whole count, which is below 2^32.
--
-- Atoms (src/atom.c): `Map` is the map of interned atoms, `reduct_atom_global_t` with the atoms by
-- address. A search has as many rounds of fuel as the table has slots; `Probes` shows that they visit
-- every slot, `Finds` what a search finds, and `Keeps` that storing and removing keep it so. The
-- collector's removal of an atom writes the same tombstones.
--
-- Tasks (src/task.c): `Queue` is the queue of tasks, `advance` the next access of shared memory of a
-- thread in `reduct_task_push`, `reduct_task_pop` or `reduct_task_try_work`, and `System` any number of
-- threads that take turns in any order, with a history that no step reads. Accesses are sequentially
-- consistent, and an exchange may fail for no reason. The counters of 64 bits do not wrap in fewer than
-- 2^64 steps, which the theorems assume; the generations of 16 bits do. `Invariant` says at which
-- counter and in which stage each slot is and what the threads' local variables say; `Moved`, `Moves`,
-- `Steps` and `Advance` show that every step keeps it, and `Safety` and `Order` what follows. The
-- size of the queue, which is read in two loads, the sleeping of idle workers and the barrier are not
-- modelled.
--
-- Graph (src/rvsdg.c, include/reduct/rvsdg.h): the graph of the optimising compiler, its parts by
-- address in `Heap`. `Edges` has `reduct_rvsdg_edge_connect`, `edge_disconnect`, `edge_redirect` and
-- `reduct_rvsdg_origin_redirect_users`, whose edges form doubly linked lists; `Inputs` has the inputs of
-- a node. New items come with their addresses. Loops have a round of fuel for each item and one more,
-- which is enough. `Uses` says when links, counts and users agree with given lists of edges, and
-- `InputLists` the same of inputs; `Sides`, `Unlink` and `Link` are the halves of a redirect, `Lists`
-- and `Redirect` what the operations do to the lists of edges; `Walks` and `Spares` serve
-- `InputRemoval`.
--
-- Prelude holds the lists and tests on native numbers and the laws of bits that all parts share.
--
-- Not modelled: the growth of the map of atoms, the syntax of numbers, the arithmetic on handles, the rest of the graph, the
-- optimiser and emitter, futures, the standard library, and input
-- and output.
pub mod Prelude
pub mod HandleList
pub mod Parse
pub mod CharTable
pub mod Opcode
pub mod Inst
pub mod Bitmap
pub mod Arena
pub mod Constants
pub mod Collector
pub mod Evaluator
pub mod Atoms
pub mod Tasks
pub mod Graph
pub mod Handle
