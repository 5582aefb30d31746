-- ===== src/Lib.antt =====
-- fuse3-p7zip mounts an archive that the 7zip library can read as a read-only file system.
--
-- main opens the shared library of 7zip, reads the command line, opens the archive with the
-- first format that accepts it, and hands it to Fuse::execute, which reads the properties of every
-- item into a tree of paths and then serves the callbacks of libfuse from that tree. To open a
-- file the item is extracted into a temporary file, which 7zip fills through the callbacks of an
-- extractor; reads are served from the temporary file, and to release it deletes it.
--
-- The files and the code that they model (paths from the root of the repository):
--   Base, Base/*         numbers, tests, lists, and Outcome: a call returns, throws, or is undefined
--                        (include/exception.hpp)
--   Host                 what the C library and the headers of 7zip give: parameters
--   Exception, Exception/Debug
--                        src/exception.cpp: the checks that throw, in a release and in a debug build
--   Text/*               src/string.cpp: utf8, utf8raw, wide_str, split, chomp; and strtoll
--   FilePath, OrderedMap the parts of std::filesystem::path and std::map that the program uses, and
--                        their order
--   Stdio                the parts of <cstdio> under the streams
--   Log                  src/logger.cpp: the calls of syslog
--   Singleton            include/pattern.hpp: an object that its first use makes
--   Com                  src/7zip/com.cpp: the counter of references, QueryInterface; Com/Classes is
--                        IUnknown as an interface with the rules of COM, and the classes under it
--   Com/Object, Com/Object/*
--                        src/include/com.hpp: com::Object over a memory of counters, programs over
--                        Objects as lists of steps
--   Dynamic              src/library.cpp: shared libraries over a dynamic linker
--   Stream/*             src/7zip/ReadStream.cpp and src/7zip/WriteStream.cpp; Stream/Interface is IFile
--                        of include/7zip.hpp, which Fuse/Operations uses and Stream/Write fills
--   Archive/Callback, Archive/Extractor
--                        src/7zip/ArchiveExtractor.cpp: the calls of 7zip as a list, one function
--                        `call` for each of them, and `execute`
--   Archive/Property, Archive/Iterator, Archive/ProposedName, Archive/Opening
--                        src/7zip/Archive.cpp: ci_iterator with its accessors, proposed_name, and
--                        the constructor with open_archive and init_props
--   Archive/Interface    IArchive of include/7zip.hpp, which Fuse/Tree/Enumerates fills
--   Archive/Lifetime     the same constructor with the destructors of ImplArchive and FileReadStream,
--                        over the counter of the stream: what is left of the file of the archive
--   Archive/Format, Archive/Method
--                        src/7zip/Format.cpp, src/7zip/Library.cpp, src/7zip/Method.cpp
--   Archive/Loading      src/7zip/Library.cpp: the constructor of ImplLib; src/main.cpp: the choice
--                        and the opening of the libraries
--   Codepage             src/main.cpp: the search for a code page
--   Fuse/Params, Fuse/Password
--                        src/fuse3.cpp: Fuse::Params and the classes under IPassword
--   Fuse/Stat, Fuse/Tree src/fuse3.cpp: Fuse::execute up to the mount
--   Fuse/Operations      src/fuse3.cpp: the callbacks, from cb_init to cb_destroy;
--                        Fuse/Operations/View is the directories as a function of a quotient
--   Fuse/Loop, Fuse/Loop/*
--                        src/fuse3.cpp: the requests of fuse_loop over the callbacks; the file system
--                        that a session stands for, as a specification
--   Fuse/Lifecycle       src/fuse3.cpp: Fuse::execute from fuse_new on, and ~Fuse
--   Main                 src/main.cpp from the opening of the archive on, and Fuse::execute up to
--                        the mount, as one function
--   Main/Process         src/main.cpp: main from its first line to its end, with Fuse::Params's
--                        constructor (Fuse/Params/Start) and the handler of its exceptions;
--                        Main/Process/Scope is the archive as an object of its try block
--   Tests, Tests/*       the theorems at concrete inputs
--
-- State is passed on: `Session` is Cache with the streams that open handles point to, `Extractor`
-- is the extractor with its stream, `File` a FILE with its contents and position. Exceptions and
-- undefined behaviour are results. A handler of 7zip is a record of functions: its item count, its
-- properties, and for each index the calls that Extract makes. libfuse is one thread that runs the
-- callbacks one after the other, so runs are sequences of steps.
--
-- Fuel: the loop over the items has one round more than there are items, the loop over the parents
-- of a path as many as the path has names, `split` one more than the text has characters, and the
-- loop over the output of a password command as many as the output has bytes.
--
-- Limits. iconv, the environment and the codes of 7zip are parameters (Host). A handler does not
-- heed what the callbacks answer, and answers alike each time. A path is taken up to operator==.
-- The buffer of a FILE is left out. Outside Exception/Debug the build is a release build. Pointers
-- to the interfaces of one object are one address, and a deleted address stays deleted in Com/Object.
-- What the calls of libfuse, of dlopen and of dlsym return is a parameter; so are the address that
-- `operator new` gives to a stream, an argument of cb_open that a run may choose again once the
-- stream is deleted, and the calls that a handler of 7zip makes on the counter of the stream that it
-- reads. The messages that a release build logs are functions of their own (Archive/Opening/Messages,
-- Main/Process/Messages). Not modelled: what the handlers of 7zip (a submodule) and libfuse do.
pub mod Base
pub mod Host
pub mod Exception
pub mod Text
pub mod FilePath
pub mod OrderedMap
pub mod Com
pub mod Dynamic
pub mod Singleton
pub mod Log
pub mod Stdio
pub mod Stream
pub mod Archive
pub mod Codepage
pub mod Fuse
pub mod Main
mod Tests
