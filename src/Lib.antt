-- ===== src/Lib.antt =====
-- USB over WebSocket: the core of the programs usbwsd, usbwsa and usbws.
--
-- A peer of the USB/IP protocol hands bytes to a session (src/usbws_session.c), which sends them in
-- binary frames over a WebSocket connection of libwebsockets and queues the frames that it
-- receives. The daemon (src/usbwsd.c) serves connections, one thread for each; the client
-- (src/usbws_client.c) opens one, served by a thread of its own. Both own a context
-- (src/usbws_ctx.h), whose two hooks a session calls at its start and its end.
--
-- Ring     the circular list of src/usbws_util.h: `list_add_tail`, `list_del`, `list_for_each_safe`
--          over a memory of addresses. `IsRing` says which entries a list holds.
-- Ctx      src/usbws_ctx.h and src/usbws_ctx.c.
-- Util     src/usbws_util.c.
-- Condition  a lock with its condition, the thread that waits and the others, for the three of the
--          source: those of Session/Monitor, Session/Arrival and Client/Opening.
-- Session  src/usbws_session.c. State has the session and what the platform answers; Write the
--          chunks and the pings; Health `usbws_check_session`; Recv the queue and `usbws_recv`;
--          Callback `usbws_handle_session` with every reason; Sender `usbws_send`, and its assignments
--          one by one; Memory the queue as a list of blocks; Monitor and Arrival the locks and
--          conditions of the sender and of the receiver, step by step. Life, Intake, Exchange,
--          Ended and Wakes are about all of these together. Broadcast has the two calls of src/usbws_ctx.c
--          that reach every connection, Connections a context with several of them; Locks the order
--          in which the locks are taken, by any number of threads.
-- Daemon   src/usbwsd.c: Options, Service (the loop), Hooks and Thread (the threads of the sessions),
--          Run (`main`), all of it with the acts on the surroundings as a list.
-- Client   src/usbws_client.c: Target (the URL, with memory blocks), Start (hooks, wait, thread),
--          Opening (the wait, step by step), Open (`usbws_client_open`).
-- Commands src/usbws.c: the table of the commands; src/usbws_connect_kind.c, src/usbws_bind_kind.c,
--          src/usbws_detach.c, src/usbws_port.c and src/usbws_list.c: the commands, with the calls
--          that they make as a list. Loop is the loop over the options that the last four share, Run
--          the whole program.
-- Options  what each program gives to `getopt_long`, its help text, and where these agree.
-- Windows  src/usbws_win32.h: its two functions.
-- Tests    concrete runs.
--
-- A session holds the calls made for its connection; the bytes that the connection has accepted are
-- read off them. An access that C does not define is `none`, in results of type `Option`. What is
-- done under a lock is one step, but in Monitor, Arrival and Opening; what these take apart is
-- shown to be that one step again where no other thread comes between. Elsewhere, where a thread
-- waits for a condition, what the others do before each wake-up is an argument, a list of
-- functions; what they do in the sleep of `usbws_wait_recv` is one too, and `Meanwhile` spells out
-- the steps where a theorem needs them; between a call of `usbws_send` and its return any sequence of callbacks runs, which
-- the relation `Sending` spells out; Life, Intake and Ended do so for longer stretches. A hook is a
-- value that the owner of a context interprets; the daemon and the client are the two owners, and a
-- hook changes no field of a session but its thread's identifier.
--
-- libwebsockets, the USB/IP library, `strtol`, `getopt_long` and the C library are parameters: what
-- they return is given with each run, and where a theorem relies on a call of `lws_write` that does
-- not fail, a hypothesis says so.
--
-- The integers of the source are unbounded here, and Session/Life/Range bounds the two that count
-- the bytes of a message; where a multiplication or a conversion may wrap, it is a parameter. The
-- loop of `usbws_recv` runs on fuel of two more than the wake-ups, which is shown to suffice; the
-- loop of `list_for_each_safe` on one more than the entries, with a read of a next pointer that is
-- `none` where the entry is not allocated; the loops over options, service turns
-- and wake-ups follow the list of these.
--
-- A message's three assignments in `usbws_send` are one step in Sender, and one step each in
-- Sender/Race, which shows what a callback does that comes between them; Sender/Overwrite is about
-- a call that finds an earlier message pending. The loop over the blocks
-- of the queue runs on fuel of one turn for each block and one to stop.
--
-- Not modelled: src/usbws_win32.h beyond two functions, which are macros for calls of Windows; the
-- contents of the client's blocks; the version and messages of the log; how libwebsockets goes over
-- the connections, of which a hypothesis states what is documented: one callback for each.
pub mod Base
pub mod Condition
pub mod Ring
pub mod Ctx
pub mod Util
pub mod Daemon
pub mod Client
pub mod Commands
pub mod Options
pub mod Windows
pub mod Session
pub mod Tests
