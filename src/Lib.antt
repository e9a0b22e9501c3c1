-- ===== src/Lib.antt =====
-- Verification of the SystemVerilog language server: the parts of the C++ server that carry its own
-- logic, translated to functions on values, with theorems on them.
--
-- The server reads JSON-RPC messages from an editor, runs their handlers on one worker, and answers.
-- The handlers keep documents compiled by slang, an index of the workspace's names, and the
-- diagnostics of every document, and they answer with text in Markdown, snippets and resource
-- identifiers. The parts that are modelled:
--
-- Rpc      include/lsp/JsonRpcServer.h, include/lsp/RequestContext.h and include/lsp/JsonRpc.h: the
--          bytes of the input become messages (Rpc/Input), with the JSON library as a parameter, and
--          the reader takes them through its phases, from initialize to exit (Rpc/Reader); the
--          reader puts a message in the queue and registers its context (Rpc/Register, Rpc/Steps);
--          the worker begins it, runs its handler and finishes it (Rpc/Process). The two threads
--          meet in a step relation (Rpc/Steps): each step is a section that the code runs under a
--          lock or on one thread, and the steps of both may come in any order. Handlers, routes
--          and the serialization of answers are parameters.
-- Diag     src/ServerDiagClient.cpp and include/ServerDiagClient.h: the diagnostics of each document
--          and the documents that the editor must be told of (Diag/Publish), and how a report of
--          slang becomes a diagnostic (Diag/Report). slang's source manager is a parameter.
-- Index    src/Indexer.cpp and include/Indexer.h: the tables from names to files, and their updates
--          (Index/Update, Index/Query), the search of excluded directories (Index/Exclusion), and the
--          files nearest to another and those for an include (Index/Nearest, Index/Include).
--          What is found in a file, and the file system, are parameters, and may change from call
--          to call.
-- Uri      src/lsp/URI.cpp and include/lsp/URI.h: the object and its spans (Uri/Types), the pattern
--          (Uri/Parse), percent encoding (Uri/Percent). Not the branches for Windows.
-- Markup   src/util/Markdown.cpp and include/util/Markdown.h: paragraphs and documents, inline
--          code, and the escape of plain text.
-- Server   src/SlangServer.cpp, include/SlangServer.h, and from src/ServerDriver.cpp how a driver is
--          made (Server/Create): the mode and the configuration (Server/Load), the notifications on
--          watched files (Server/Watched, on Watch), the names of the workspace (Server/Symbols, on
--          Index). The driver's constructor, its documents, the JSON library and the indexing are
--          operations that the model takes (Server/Types).
-- Snippet  include/lsp/SnippetString.h: the builder of snippets.
-- Driver   src/ServerDriver.cpp, include/ServerDriver.h, and the handlers of src/SlangServer.cpp that
--          go to it: the documents that the driver keeps and those that the client has open
--          (Driver/Documents), changes of the client and of the disk (Driver/Changes), saves
--          (Driver/Save), and from src/document/SlangDoc.cpp how a document gets its syntax tree,
--          which may move it to another buffer (Driver/Tree). slang's source manager is an operation
--          that the model takes (Driver/Types), and so are the choice of the documents whose trees
--          an analysis asks for, the include contexts and the diagnostics that it publishes.
--          Driver/Laws is what is relied on of them: among it, that one URI is in use for a file,
--          and that no indexed file includes a document of the client. A manager in memory with the
--          URIs of files meets these laws (Driver/Memory).
-- Format   src/util/Formatting.cpp: the layout of printed source text, and doc comments, and
--          names in camel case. slang's class of white space is a parameter.
-- Position src/util/Converters.cpp and the checks of UTF-8 in src/util/Formatting.cpp: columns in
--          UTF-16 code units (Position/Columns), and offsets of the text against positions of the
--          client (Position/Offsets). slang's decoder and its source manager are parameters;
--          IsDecoder is what is relied on of the former, IsLine of the latter.
-- Doc      src/document/SlangDoc.cpp: the text of an open document and the changes that the client
--          sends (Doc/Change). slang's computeLineOffsets is a parameter.
-- Syntax   src/document/SyntaxIndexer.cpp: the tokens and the syntax at a place of the text
--          (Syntax/Index), with the binary search (Syntax/Search).
-- Tokens   src/document/SemanticTokens.cpp and include/document/SemanticTokens.h: the relative numbers
--          that semantic tokens are encoded as (Tokens/Encode), the orders of types and positions, and
--          the test of disabled regions (Tokens/Inactive).
-- Watch    src/lsp/FileWatchers.cpp: the patterns that the client is sent, and the dispatch of changes.
--
-- Shared by them: Prelude (numbers, lists, tests), Text (the classes of <cctype> in the C locale) and
-- Assoc (hash tables as association lists; no theorem depends on their order).
--
-- A C++ string is a list of bytes. A call that throws returns `none`. Loops are structural recursion
-- on the text, but for those on fuel: the digits of a number in Snippet/Types, with one more than the
-- number, which are read back as the number; the walk over ancestors in Index/Exclusion, with the
-- length of the path, as each ancestor is shorter; and the scans of UTF-8 in Position, with the length
-- of the text, as each step is of a byte at least; the binary search, with the number of tokens; and
-- the reading of messages in Rpc/Input, with the length of the input, where an input that ends in the
-- middle of a header line is read for ever, as by the code. Counts of UTF-16 code units and the
-- numbers of semantic tokens are of 32 bits, with their wrap-around written out.
--
-- Not modelled: the parsing, elaboration and printing of SystemVerilog, which slang does; the
-- handlers, completions, code actions, the classification of tokens and the design hierarchy, which
-- walk slang's trees; the index's guesses of include directories and its scan of the disk; the reading
-- of configuration files, logging and child processes.
pub mod Assoc
pub mod Diag
pub mod Doc
pub mod Driver
pub mod Format
pub mod Index
pub mod Markup
pub mod Position
pub mod Prelude
pub mod Rpc
pub mod Server
pub mod Snippet
pub mod Syntax
pub mod Text
pub mod Tokens
pub mod Uri
pub mod Watch
