-- ===== src/Lib.antt =====
-- A verification library for flex, the scanner generator, in its C++ form.
-- flex reads a list of patterns, builds a nondeterministic machine for each (src/nfa.cpp) over
-- character classes (src/ccl.cpp) and equivalence classes of characters (src/ecs.cpp), turns them
-- into one deterministic machine (src/dfa.cpp) and writes its tables (src/tblcmp.cpp,
-- src/tables.cpp, src/gen.cpp) into a scanner skeleton (src/misc.cpp).
--
-- Prelude: Boolean tests, lists and integers over the native numbers.
-- Common: how a run ends. `lerr`, `flexerror` and `flexfatal` of src/misc.cpp end flex, which is
--   `exit` with a message; `fault` is what C++ leaves undefined, such as a read past a vector.
-- CharacterTable: `std::set<Character>` of src/common.h, as its elements in order.
-- Ccl: src/ccl.cpp. The vector `ccls` is passed in and returned. Characters are numbers below CSIZE
--   = 256; isupper and its kin are those of the C locale. Ccl.Table, Ccl.Add, Ccl.Sets and Ccl.Case
--   have the theorems.
-- Ecs: src/ecs.cpp. The arrays `fwd` and `bck` are functions on indices; once `cre8ecs` has
--   numbered the classes the array holds integers. The walk along `fwd` has fuel `num`, which is
--   enough since the links rise: the theorems state the whole result, so a walk cut short would
--   refute them. Ecs.Partition has `mkeccl`, which parts the classes along a character class: its
--   children follow the walk along a list (Lists, Close, Label), the search and the flags (Search,
--   Along, Skip), and the whole (Correct, and Nul for tables that begin with a NUL). `llsiz` rounds
--   are enough for a walk, and a round for each member for the whole.
-- Nfa: src/nfa.cpp. Nfa.State has the globals and the monad of runs over them, Nfa.Build the
--   functions. Nfa.Words, Nfa.Graph and Nfa.Thompson are independent of the code: languages, labelled
--   graphs and what the constructions do to languages. Nfa.View reads the vector `nfas` as such a
--   graph, Nfa.Machine says what a machine in it is, Nfa.Single and Nfa.Link prove the code.
--   finish_rule, which writes action text, and dumpnfa are not modelled. `mark_beginning_as_normal`
--   has fuel for the depth of its recursion, and faults without it.
-- Dfa: src/dfa.cpp. `symfollowset`, `snstods` and `check_trailing_context` with their vectors as
--   lists whose index 0 is not used. qsort is the parameter `sort`. Dfa.Follow reads a state set
--   through the vector `nfas` and says where it goes; Dfa.Interning says what a state is for.
--   Dfa.Closure has `epsclosure`, with marks on the states as in the code; a round for each state is
--   enough fuel. Its vector of accepting numbers does not grow: a write past its end is a fault, and
--   the theorems ask for room. The hash value is the int as its 32 bits, which wraps around.
--   Dfa.Partition has `sympartition`, and Dfa.Construct a round of `ntod`, which computes the row of
--   a state with all of these: the loop over the symbols, with the vectors, the arrays and the
--   counters. Dfa.Ntod has the rest of ntod: the first states, the queue, and what becomes of a row.
--   The queue is on fuel, one round for each state; a run with too little faults, and the theorem
--   says that all its rounds return and leave a state in the queue. Dfa.Ntod.Full and Dfa.Ntod.Queue
--   have the theorem on full tables.
-- Tblcmp: src/tblcmp.cpp. Tblcmp.State has the vectors `chk` and `nxt`, their growth, and the two
--   fields of `dfas` that the file writes; Tblcmp.Entry the entries, Tblcmp.Protos the queue of saved
--   states, Tblcmp.Full the tables for full speed. The searches have as many rounds as the vectors
--   have elements, and a few more, since all is free past the end. Tblcmp.Build has the choice
--   between protos, templates and entries, and the tables of the templates. Tblcmp.Grown,
--   Tblcmp.Search, Tblcmp.Fill, Tblcmp.Insert and Tblcmp.Entered have the theorem on `mkentry`,
--   Tblcmp.Single and Tblcmp.Diff those on `mk1tbl` and `tbldiff`.
-- Tables: src/tables.cpp and src/tables_shared.cpp. Tables.File is a file with a position and the
--   length at which fwrite fails; Tables.Write has the writers of headers and tables, Tables.Compress
--   the choice of the width. Tables.Append, Tables.Header and Tables.Narrow have the theorems. The
--   absolute value of -2^31, which C++ leaves undefined, is taken as 2^31.
-- Sym: src/sym.cpp, the start conditions, which are made by `mkstate` of Nfa.Build.
-- ScanFlags: src/scanflags.cpp, the stack of flags of the pattern scanner.
-- Misc: src/misc.cpp. Misc.Skeleton has `skelout` on the lines of the skeleton;
--   Misc.Skeleton.Blocks says what is copied, on nested parts, and Misc.Skeleton.Errors which lines
--   are refused. Misc.Escape has `myesc` and `readable_form`, and the tests of characters in the C
--   locale. Misc.Data has the data statements of tables; Misc.Data.Listed reads what they write,
--   spaces left aside, and Misc.Data.Lines where the lines end. Misc.Strings has strings as lists of
--   codes.
-- Context: src/context.h and src/context.cpp, the text that is written, as indented lines.
--   Context.Parts has the parts before and after; a null pointer is a constructor. Context.Blank has
--   the functions that remove empty lines, Context.Split the one that splits lines.
-- Gen: src/gen.cpp, the tables that are written or stored. Gen.Arrays has those with one number for
--   an element, Gen.Full the transitions of full speed scanners, where `chk` holds negative marks.
--   Gen.Agree and Gen.Pairs compare the two forms of a table, which the code makes by loops of their
--   own, Gen.Room the size of the array.
-- Tests: runs and the theorems at concrete inputs.
--
-- Not modelled: the traces and dumps of src/dfa.cpp, and the text that ntod writes; the order of the
-- passes and the options (src/flexmain.cpp, src/scanopt.cpp); the macro processor (src/simple_m4.cpp); the grammar and the
-- scanner (parse.y and scan.l are not C++); the rest of src/gen.cpp, which is the compressed tables and
-- the text of the scanner; and all input and output of files.
pub mod Prelude
pub mod Common
pub mod CharacterTable
pub mod Ccl
pub mod Ecs
pub mod Nfa
pub mod Dfa
pub mod Tblcmp
pub mod Sym
pub mod ScanFlags
pub mod Misc
pub mod Tests
pub mod Tables
pub mod Context
pub mod Gen
