-- ===== src/Lib.antt =====
-- Verification library of libdnf, the package management library behind DNF.
--
-- Parts of the program and the modules that model them (paths from the repository's root):
-- - Utils.Set: include/libdnf/utils/set.hpp, the set type under repository and query results. A
--   set is the ascending list that std::set keeps; the standard algorithms are written out.
-- - Utils.IniParser: libdnf/utils/iniparser.cpp, the reader of .ini files. The state record has the
--   members of the class; `next` is the method of that name, its loop recurs on fuel, and the fuel
--   is the length of the unread input plus three, since every further round uses up a byte.
-- - Logger.MemoryBuffer: libdnf/logger/memory_buffer_logger.cpp, the rotating message buffer.
-- - Utils.PreserveOrderMap: include/libdnf/utils/preserve_order_map.hpp, the map that remembers the
--   order of insertion; keys are compared through the interface Base.Eq.
-- - Utils.WeakPtr: include/libdnf/utils/weak_ptr.hpp, pointers that a guard can invalidate. Pointers,
--   guards and objects are addresses in a store, each constructor and operator is a function on
--   it, and a read of deleted memory is an outcome of its own.
-- - Conf.Substitute: ConfigParser::substitute of libdnf/conf/config_parser.cpp, the replacement of
--   $name and ${name}; its loop recurs on fuel, the length of the text plus two, since every round
--   leaves less text behind the position.
-- - Conf.StringList: libdnf/conf/option_string_list.cpp, lists of words as text; the loop recurs on
--   fuel, the length of the text plus two, since every round starts further on.
-- - Conf.Option: include/libdnf/conf/option.hpp, option_child.hpp and the `set` of the option classes
--   (libdnf/conf/option_number.cpp and its siblings). What a class does with values and texts is
--   the interface Kind; Conf.Bool is the instance for libdnf/conf/option_bool.cpp, Conf.Kinds has
--   those for numbers, strings, word lists and enumerations of strings.
-- - Conf.ConfigParser: the rest of libdnf/conf/config_parser.cpp and its header, the editor of the
--   files that Utils.IniParser reads: a PreserveOrderMap of sections with their options, and the
--   raw texts from which `write` reproduces a file.
-- - Conf.OptionBinds: libdnf/conf/option_binds.cpp, the table of options by name.
-- - Sack.Match and Sack.Query: libdnf/common/sack and include/libdnf/common/sack, the operators that
--   compare values with patterns, and the filters of a query over a Utils.Set.
-- - Microdnf.Arguments and Microdnf.ArgumentParser: microdnf/argument_parser.hpp and .cpp, the command
--   line: the arguments with their counts, and the parser. Arguments refer to one another by addresses; what options and hooks do with a value is given by functions on a state.
--   The loop recurs on fuel, the bytes of the texts and one for each, since every round takes a text
--   or one more byte of it; a sub-command goes on with the texts behind its name.
-- - Swdb.Packages and Swdb.MergedTransaction: dnf-4/libdnf/transaction, the operator< of RPMItem.cpp with
--   the kinds of action, and MergedTransaction.cpp, several transactions of the history as one. The map of pairs is an ascending list,
--   an item is a value with its action, and an exception of std::stoi is an outcome.
-- - Dnf.Lock: dnf-4/libdnf/dnf-lock.cpp, the locks of threads and processes. A call of a function of
--   the lock is one step, since the code holds a mutex; the lock files and the processes are parameters.
-- - Dnf.State: dnf-4/libdnf/dnf-state.cpp, the progress of a task. A Task is a state with the chain of its
--   parents and of its children, and the locks, which are those of Dnf.Lock. A signal goes from parent to
--   parent on fuel, the number of parents, and a dropped child is finalized on fuel, the number of
--   its children. Floats, the cancellables and the lock files are parameters.
-- - Rpm.SolvMap: libdnf/rpm/solv, the bitmaps of package ids with their iterator. A bitmap is its bytes,
--   libsolv's operations on it are parameters with the laws that bitmap.h gives them, and ffs is
--   computed on 32 bits. The iteration recurs on fuel, the number of bits, since every step gives a new id.
--
-- Strings are lists of bytes, positions and sizes are natural numbers, npos is `none`, and where
-- the code subtracts positions of which the second may be the larger one the difference wraps at
-- 2 ^ 64 (Base.Text). Exceptions are values. A std::map of which only lookups, assignments and
-- erasures are used is an association list.
--
-- Not modelled: what needs libsolv, librepo, librpm, sqlite or the file system, the bindings, the
-- widgets that only draw, and the rest of the older library under dnf-4.
pub mod Base
pub mod Conf
pub mod Dnf
pub mod Logger
pub mod Microdnf
pub mod Rpm
pub mod Sack
pub mod Swdb
pub mod Utils
