-- ===== src/Lib.antt =====
-- A model of the C programs of src/nbs-chat and src/nbs-bus: the chat tool, its file protocol and
-- its SSH proxy, and the event bus.
--
-- Parts and files:
-- - Common: Boolean tests, byte strings, bit fields, decimal numbers as printf writes them and as
--   strtoll reads them, and the outcome of a C function (a value, its error code, a failed
--   ASSERT_MSG).
-- - Base64: src/nbs-chat/base64.c. Defs has base64_encode and base64_decode with their loops as
--   recursions over groups; Grammar the texts that the validation loop accepts; Sextets the tables.
-- - ChatFile: src/nbs-chat/chat_file.c. Length is compute_file_length, Participants the
--   participants line (parse_participants, format_participants, update_participants), Message one
--   message line, Lines the lines of the file, Read chat_read, Send chat_create and chat_send, Cursors
--   chat_cursor_read and chat_cursor_write, Poll chat_poll, Lock chat_send by several processes at once
--   with the lock of src/nbs-chat/lock.c. Render is the abstract side: a chat with its writer, participants and messages, and the file that stands
--   for it; Render.Read, Render.Send and Render.Refine show that the functions implement it.
-- - Bus: src/nbs-bus/bus.c. Event has the priorities, the text and the name of an event file and its
--   readers, Scan the scan of a directory and bus_publish_dedup, Ack bus_ack, Prune bus_prune,
--   Config bus_load_config, Check bus_check. qsort is a parameter that gets the comparison function;
--   Common.Sorting says what is relied on and has a sort that does it.
-- - Remote: src/nbs-chat/remote.c. Config is load_config, Escape shell_escape, Command and Argv
--   build_ssh_argv, Run run_ssh and main. Shell is how a POSIX shell splits a command in words.
-- - Terminal: src/nbs-chat/terminal.c. Line is the line buffer with its memory and the operations on it,
--   Redraw line_redraw, Keys what the event loop does with a byte of input (handle_escape_input, the
--   editing keys, Enter and the commands), Display poll_and_display and send_and_display. A text with
--   a cursor in it (Line.Cursor) is the abstract side of the line buffer.
-- - Bridge: src/nbs-chat/bus_bridge.c. Mentions is bus_extract_mentions (Mentions.Reference tells its mentions without the loop), Events bus_find_events_dir and the events
--   that bus_bridge_after_send and bus_bridge_human_input publish.
-- - ChatCli: src/nbs-chat/main.c. Options has resolve_path and the options, Window which messages cmd_read shows,
--   Search cmd_search, Commands all commands and main, Unread read --unread on the cursor file and what a send does to it.
-- - BusCli: src/nbs-bus/main.c. cmd_publish and cmd_prune with their options; Delivered puts the bridge, the command and
--   the bus together.
--
-- How the parts work together: chat_send, chat_read, the codec and the cursor file are composed as in the code.
-- The lock's step relation runs chat_send in pieces; the terminal client calls the chat file's functions.
--
-- How the code is carried over: a buffer or file is a list of byte values, a C string such a list
-- without its NUL. Return code 0 with its outputs is ok, -1 is error, a failed assertion is abort.
-- Numbers are natural numbers, with the wrap-around of a C type written out where it can be
-- reached. All loops are structural recursions, but the decimal printer: its fuel is the number
-- plus one, and it stops at the last digit; and the growth of the line buffer, whose
-- fuel is two more than what is needed. Assertions that a pointer is not NULL are left out, and three
-- more that every caller guards: in send_and_display that the line is not empty, in scan_events that the array
-- has a slot, and in build_ssh_argv that there is a command in the arguments. The codes -1 and -2 of chat_create
-- are both error. dirname is modelled for a path that does not start with two slashes.
--
-- Not modelled: of the terminal client the colours, the printed text, signals, the terminal mode and
-- the editor of /edit; the form of printed lines in the chat tool, the processes of the bridge, of nbs-bus the commands
-- check, read, ack, ack-all and status, shell scripts, and the failures of memory and of reading and
-- writing an open file in the chat file protocol. The time and the environment are inputs.
pub mod Base64
pub mod Bridge
pub mod Bus
pub mod BusCli
pub mod ChatCli
pub mod ChatFile
pub mod Common
pub mod Remote
pub mod Terminal
