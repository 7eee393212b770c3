-- ===== src/Lib.antt =====
-- libslablist: a doubly linked list of slabs, arrays of up to 121 elements, with a linked list for up
-- to 60 elements. This library models the list against the sorted and the plain list of its elements,
-- and the search through its sublayers against the search without them.
--
-- The parts, bottom up, and the code each is about:
--   Callbacks       the user's comparison and bounds functions (src/slablist.h): a parameter, with the
--                   order that the code relies on as the record Ranked
--   Slab            slab_t and add_elem, addsn, addsp (src/slablist_add.c), remove_elem, move_to_next,
--                   move_to_prev (src/slablist_rem.c); Slab/Edit, Spill and Move prove what they do to
--                   the list of elements and to the extrema
--   Search          slab_bin_srch, slab_lin_srch, slab_get_last_elem (src/slablist_find.c)
--   Sorted          what a sorted list promises: insert, find and delete on plain lists
--   Chain, Scan     the chain of slabs as a place with its two sides (link_slab and unlink_slab of
--                   src/slablist_cons.c), and find_linear_scan (src/slablist_find.c)
--   Insert          gen_add_ira, gen_add_ura, gen_add_ora and slab_gen_add (src/slablist_add.c)
--   Small           small_list_add (src/slablist_add.c), small_list_rem (src/slablist_rem.c), and the
--                   conversions of src/slablist_cons.c
--   Merge, Reap     slab_generic_rem and slablist_reap (src/slablist_rem.c), try_reap
--                   (src/slablist_cons.c)
--   Slablist        slablist_t with slablist_add, slablist_find, slablist_get, slablist_rem,
--                   slablist_head and slablist_end, which call the parts above
--   Reverse         slablist_reverse (src/slablist_add.c)
--   Bookmark        slablist_next and slablist_prev (src/slablist_find.c) on a list of slabs
--   Walk            slablist_foldr, slablist_foldl and slablist_map (src/slablist_cons.c)
--   Range           slablist_rem_range and what it calls (src/slablist_rem.c), in a list without sublayers
--   Span            slablist_foldr_range and slablist_foldl_range (src/slablist_cons.c), slablist_range_min
--                   and slablist_range_max (src/slablist_find.c), in a list without sublayers
--   Compare         slablist_cmp (src/slablist_cons.c)
--   Layer           subslab_t, find_bubble_up and the searches of subslabs (src/slablist_find.c), and
--                   attach_sublayer (src/slablist_cons.c); Layer/Position is
--                   slab_get_elem_pos through the sublayers, Layer/Edit the operations on one subslab
--                   and on two neighbours (src/slablist_add.c and src/slablist_rem.c)
--   Examples        concrete lists on which the theorems are applied
--
-- A search of the chain finds the slab, a search of the slab the index; an addition or removal there
-- is followed by a merge or a reap, which move elements between neighbours only. Elements are numbers
-- that stand for 64-bit words, and only the callbacks look at them. Counters wrap as their types do:
-- s_elems at 2 ^ 8, sl_elems and sl_slabs at 2 ^ 64. A pointer to a slab is that slab with the slabs
-- before and after it, nearest first, so sl_head and sl_end are the ends of the chain; a NULL that is
-- followed is `none`. The loops on fuel are those over the cells of a slab (the searches and the
-- swaps of a reversal): the fuel is the number of cells between the bounds, and each round leaves
-- fewer; the loop of slab_bin_srch says `none` where it has not ended with its fuel. The loops over
-- nodes and slabs follow a list, with the counter of the source beside it.
--
-- A pointer up from a subslab is the slab or subslab itself, so the layers are trees over the toplayer
-- beside the chain of each layer, and a well-formed index says that the two agree.
--
-- Not modelled: the ripples by which additions and removals change the sublayers, so these are modelled
-- where `s_below` is NULL, and an addition says whether it ends with attach_sublayer; what follows an
-- addition is stated where it does not. detach_sublayer is not modelled, but what it leaves in
-- sl_baselayer is, since the removal of a range reads it. The `float` comparison of try_reap is a
-- parameter. Maps of a range, bookmarks on a small list, sort, xtract and subseq are not modelled, nor
-- are memory management, probes and the self tests under probes.
pub mod Prelude
pub mod Callbacks
pub mod Slab
pub mod Search
pub mod Sorted
pub mod Chain
pub mod Scan
pub mod Insert
pub mod Small
pub mod Merge
pub mod Reap
pub mod Slablist
pub mod Bookmark
pub mod Compare
pub mod Examples
pub mod Layer
pub mod Range
pub mod Reverse
pub mod Span
pub mod Walk
