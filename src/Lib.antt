-- ===== src/Lib.antt =====
-- A verification library for libHX, a C library of containers and string functions.
--
-- The program's parts and the files that model them:
-- * src/map.c, HXmap: Ops.antt holds the user-settable operations (struct HXmap_ops) and the flags
--   that both kinds of map share; Rbtree.antt and its children hold the red-black tree. struct
--   HXrbnode is the type `Tree`, struct HXrbtree the record `Rbtree`. The arrays `path` and `dir`,
--   by which the C code walks back up, are a list of frames (a zipper), so that each write through
--   `path[i]->sub[dir[i]]` fills the hole of a frame. Rbtree.antt has HXrbtree_find, HXrbtree_add,
--   HXrbtree_replace, HXrbtree_amov, HXrbtree_keysvalues, HXrbtree_qfe and HXrbtree_free_dive;
--   Rbtree/Remove.antt has HXrbtree_del, HXrbtree_del_mm and HXrbtree_dmov. The abstract view is
--   the list of entries in key order (Rbtree/Sorted.antt). Umap.antt and its children hold the hash
--   map: struct HXumap is the record `Umap`, with a list of entries for the circular list of each
--   bucket; HXumap_find, HXumap_add, HXumap_replace, HXumap_del, HXumap_layout (`laid_out`,
--   `layout`), HXumap_move, HXumap_keysvalues, HXumap_qfe and HXumap_free. The abstract view is a
--   function from keys to entries (Umap/Refine.antt). Ops/ByValue.antt has the operations for keys
--   and data by value (HXmap_valuecmp, HXmap_valuecpy). Map.antt holds the functions that choose by
--   the type of the map: HXmap_find, HXmap_get, HXmap_add, HXmap_del and HXmap_keysvalues;
--   Map/Traverse.antt HXmap_travinit, HXmap_traverse, HXmap_travfree, HXmap_qfe and HXmap_free.
--   Map/Init.antt has HXmap_init, HXmap_init5 and HXmap_ops_setup, with a function pointer told by
--   the name of its function; Ops/ByString.antt the operations that they choose for strings, and
--   Hash.antt HXhash_jlookup3 and HXhash_djb2 on bytes, with the wrap of uint32_t and unsigned
--   long. Rbtree/Traverse.antt holds struct HXrbtrav: a pointer to a node is the way to it from the
--   root, and is followed in the tree as it is at the time of the call; a call that reads a key that
--   HXrbtree_del has freed has no result. Umap/Traverse.antt holds
--   struct HXumap_trav: a pointer into a circular list is a bucket and a position in it.
-- * src/string.c, quoting: Bytes.antt holds C strings (lists of bytes without the NUL) and the
--   functions of <string.h>; Quote.antt the rules, the size functions and the quoting loops;
--   Quote/Base64.antt HX_quote_base64; Quote/Strquote.antt HX_strquote. A pointer into a string is
--   the suffix it points to. Quote/Strquote/Decode.antt and Base64.antt hold decoders, which the
--   program does not have and which say what the quoted text stands for.
-- * src/string.c, trimming, copying and splitting: Text.antt, with pointers as indices and the wrap
--   of a size_t written out; Text/Fields.antt holds HX_split and HX_split_inplace; Text/Trim.antt,
--   Split.antt, Basename.antt, Bounds.antt and Fields/Joined.antt hold the proofs.
-- * src/string.c, sizes: Units.antt holds HX_unit_size up to the call of snprintf, Units/Cu.antt
--   HX_unit_size_cu and the text that both print, Units/Parse.antt HX_strtod_unit and
--   HX_strtoull_unit. Doubles and strtod are a record of operations, which the definitions take as
--   an argument; what strtoull does with digits and signs is written out.
-- * src/string.c, periods of time: Period.antt holds HX_strtoull_period, HX_strtoull_iso8601p_2 and
--   the functions that choose between them, with errno at the start as an argument and errno at the
--   end in the result; Period/Scan.antt what they need of strtoull and <ctype.h>, Period/Print.antt
--   HX_unit_seconds. The loops run on fuel one above the length of the string, since each round
--   reads a byte (Period/Ends.antt).
-- * src/format.c, placeholders: Format.antt holds HXformat_aprintf, HXformat2_xany,
--   HXformat2_xcall, HXformat2_xvar and HXformat_sprintf, Format/Functions.antt the built-in
--   functions with HXformat2_exec1, Format/Entries.antt struct HXformat_map, Format/Table.antt
--   HXformat_init and HXformat_add on the maps of Map.antt. HXparse_dequote_fmt is the one of
--   Opt/Dequote.antt. getenv, strtol and the processes
--   (HXproc_run_async and the reads of their output) are a record that the definitions take as an
--   argument, and malloc is taken to succeed. Format/Template.antt says what a template stands for.
-- * src/mc.c, memory containers: Mc.antt, with the whole memory of a container as a list, so that a
--   write past its end would show as a longer list, and HXmc_memdel with the wrap of a size_t;
--   Mc/Holds.antt and Mc/Delete.antt relate it to the text.
-- * src/deque.c, deques: Deque.antt, over an explicit heap that tells which addresses are nodes, so
--   that a read or write elsewhere shows in the result. Deque/Chain.antt says which heaps hold a
--   deque, and which cells it has; the loops have one round for each item and one for the end.
-- * src/opt.c, options: Opt.antt has struct HXoption and the lookups, Opt/Getopt.antt the handlers
--   of the states and the loop of HX_getopt6 (a pointer into an argument is the suffix it points
--   to), Opt/Result.antt what HX_getopt6 does before and after it. Opt/Getopt/Items.antt writes
--   command lines from items, and has the rounds of the loop as a relation. The variables that
--   do_assign writes are the list of its calls.
-- * src/opt.c, quoted text and configuration files: Opt/Dequote.antt has HXparse_dequote_int,
--   HXparse_dequote_fmt and HX_shconf_break, Opt/Shconfig.antt HX_shconfig, HX_shconfig_pv and
--   HX_shconfig_map, where a file is the list of its lines as HX_getl gives them, and each call of
--   HXmap_add has its own Booleans for malloc, except in HX_strdup, which is taken to succeed;
--   Opt/Shconfig/Contents.antt says which pairs such a map holds.
-- Prelude.antt and its children hold the names, lists and tests that all parts share. Functions
-- that allocate take a Boolean that says whether malloc succeeds. The calls of k_free and d_free
-- are a list in the result. HXrbtree_dmov runs on fuel two above the length of the path, which is
-- shown to be enough; the quoting loops run on fuel one above the length of the string, and the
-- loop of HX_getopt6 on fuel two above the bytes of the arguments and two for each. The loop of
-- HX_shconf_break has fuel one above the length of the line, which is shown to be enough; the
-- search of HXparse_dequote_fmt takes its fuel as an argument, since it does not always end.
-- HXformat_aprintf has fuel one above the length of the format string, which an inner call takes
-- one less of, and the loop over the arguments of a call has fuel one above the length of what
-- follows.
--
-- Not modelled: deques that exchange nodes, the circular lists, the string types of do_assign and
-- the help texts of the option parser, HXformat_fprintf and HXformat_free, HX_memmem, HX_strsep2
-- and HX_strndup, time arithmetic, the printed warnings, and the parts of the library that are
-- operating system glue (files, processes, sockets, dynamic loading).
pub mod Bytes
pub mod Deque
pub mod Format
pub mod Hash
pub mod Map
pub mod Mc
pub mod Ops
pub mod Opt
pub mod Period
pub mod Prelude
pub mod Quote
pub mod Rbtree
pub mod Text
pub mod Umap
pub mod Units
