-- ===== src/Lib.antt =====
-- The C++ part of the bambu-farm network plugin (bambu-farm-client/cpp), with what makes it correct.
-- Bambu Studio loads the plugin and calls it; the plugin keeps the session with a printer, sends print
-- jobs to it, passes its messages on, and serves its files and its camera through a tunnel. Network,
-- discovery and file transfer are done by a Rust library, whose answers are parameters here.
--
-- The parts, with their files, all of them in bambu-farm-client/cpp:
--   Session          session_state.cpp: the selected device and the state of its
--                    connection. A method is a function on `SessionState`, and `run` makes a sequence
--                    of calls; each method holds the mutex throughout, so a call is one step.
--   PrintJob         print_job.cpp: names and paths on the printer (Names, Hash, Resolve), and the JSON
--                    commands (Escape, Command). Json reads a text byte by byte and keeps its string
--                    tokens; Command/Tokens compares them with the parameters.
--   PrintFlow        print_flow.cpp: the ways to hand a job to the printer. A flow maps the calls made so
--                    far to its result and all calls made; the callbacks of the caller and of
--                    `PrintFlowDeps` may answer by everything that happened before. Calls/Visible keeps
--                    what others see: statuses, uploads, recordings, commands and waits.
--   Tunnel           tunnel_protocol.cpp (Protocol) and tunnel_bridge.cpp (Session, Stream, Message):
--                    requests, queued responses, the camera's stream, and the splitting of downloads.
--                    Exports are the functions of api.cpp that forward to it; Lifecycle follows a
--                    session from its creation to its end.
--   Callbacks        callback_registry.cpp: the registered functions, as numbers; a method gives the new
--                    registry and the calls that it makes, in order.
--   LocalState       local_state.cpp: the files of the plugin, over the interface `FileSystem` of
--                    operations and laws.
--   PrinterMetadata  printer_metadata.cpp: the printers' names that the user chose. Abstract is the table
--                    as a function from a printer to the name that it gets.
--   PrintContext     local_print_context.cpp: the prints that the plugin started, and what it adds to
--                    status messages.
--   CloudCompat      cloud_compat.cpp: the texts that answer what needs the cloud, and the pages that are
--                    written for it (Notice).
--   Plugin           api.cpp: the functions that Bambu Studio calls and those that the Rust library calls
--                    back, over the record `Plugin` of the static variables and the disk. Connect holds
--                    what selects, connects and disconnects, Discovery the messages and the renaming,
--                    Register the callbacks, Print the flows and the record of a print, Login, Diag and
--                    Answers the rest; Run joins the calls to histories. History, Aim, Restart, Logout,
--                    Remembered, Survives, Names, Renaming and Twice prove what holds of them.
--   Source           bambu_source.c: the library that loads the plugin for the camera and forwards to it;
--                    the dynamic linker is the parameter `Linker`.
--   Base             shared helpers: texts as lists of bytes, search, decimal numbers, association
--                    lists, integers.
--
-- PrintFlow takes names and commands from PrintJob; Tunnel/Message queues what Tunnel/Protocol splits;
-- PrinterMetadata and PrintContext keep their tables through LocalState; Plugin joins Session, Callbacks,
-- PrinterMetadata, PrintContext, LocalState, PrintFlow and CloudCompat; PrintContext, PrinterMetadata,
-- CloudCompat and Tunnel escape with PrintJob/Escape.
--
-- Bounds and fuel. Sizes and stream identifiers are natural numbers; what narrows one to an `int`
-- (`int_of_size`) and the hash (modulo 2 ^ 32) keep their wrap-around. The loop over the chunks of a
-- download gets one more round than the payload has bytes, since each round but the last passes at least
-- one of them; a loop of `html_escape` gets one more than the text has bytes, likewise; the hash of a file gets one more than the file has bytes. Eight hexadecimal digits hold a 32-bit word. The
-- counters of api.cpp are modulo 2 ^ 64.
--
-- Not modelled: the Rust library, the server, and the functions of api.cpp that only write to the log and
-- answer a constant. Log lines are kept where they are calls of a flow or of the registry, and left out
-- elsewhere. A call of the plugin is one
-- step, also where a callback of Bambu Studio would call it back before it returns: that call stands behind
-- the one that led to it. Threads are modelled where a mutex makes a method one step;
-- a call of the tunnel is one step also where start_tunnel_stream releases the session's mutex around the
-- call of the Rust library, so that what is proved of sessions is of calls that do not overlap; the order of an
-- `unordered_map` is a parameter wherever a loop runs over one.
pub mod Base
pub mod Callbacks
pub mod CloudCompat
pub mod Json
pub mod LocalState
pub mod Plugin
pub mod PrintContext
pub mod PrintFlow
pub mod PrintJob
pub mod PrinterMetadata
pub mod Session
pub mod Source
pub mod Tunnel
