-- ===== src/Lib.antt =====
-- A verification library for OpenWFD, an implementation of Wifi-Display in C.
--
-- Parts of the program and their models (paths from the repository's root):
--
--  * The ring buffer of src/shl_ring.c and src/shl_ring.h: Ring, with the checked memory of
--    Common/Memory below it. A `struct shl_ring` is the record Ring.Ring; ring_resize, ring_pow2,
--    ring_grow, shl_ring_push, shl_ring_peek, shl_ring_pull, shl_ring_flush, shl_ring_clear,
--    shl_ring_copy and shl_ring_length are resize, pow2, grow, push, peek, pull, flush, clear, copy
--    and length of that module. Its abstract view is the list of the bytes held (Ring/View).
--  * The RTSP decoder of src/rtsp_decoder.c: Rtsp/Sanitize (sanitize_header_line), Rtsp/Header
--    (the message, push_header_line, parse_header_line) and Rtsp/Decoder (msg_done, the feed_char
--    functions, owfd_rtsp_decoder_feed and owfd_rtsp_decoder_flush). The decoder is written over
--    the interface Rtsp/Buffer; the code is its instance at the ring, the specification its
--    instance at lists. rtsp_decoder.c calls the ring, and hands complete messages to a callback
--    of its client; a call of the callback is the message that it is given.
--    Rtsp/Decoder/Fresh is owfd_rtsp_decoder_new.
--    The channel below it, src/rtsp_ctrl.c, is Rtsp/Ctrl (owfd_rtsp_ctrl_new, _ref, _unref,
--    _open_tcp_fd, _open_tcp, _close), Rtsp/Ctrl/Output (send_all, owfd_rtsp_ctrl_send, _sendf)
--    and Rtsp/Ctrl/Dispatch (owfd_rtsp_ctrl_dispatch); its output goes through the ring.
--    The tokenizer of header lines, src/rtsp_tokenizer.c, is Rtsp/Tokenizer; no function of the
--    program calls it yet.
--  * The events of wpa_supplicant of src/wpa_parser.c and src/wpa.h: Wpa/Events (event_list,
--    event_comp, owfd_wpa_event_name), Wpa/Tokenizer (tokenize), Wpa/Payload (parse_mac and the
--    parse functions) and Wpa/Event (owfd_wpa_event_parse). Wpa/Search has the binary search of the
--    C library.
--  * The control channel to wpa_supplicant, src/wpa_ctrl.c: Wpa/Ctrl/Timed (timed_send, timed_recv,
--    wpa_request, wpa_request_ok), Wpa/Ctrl/Socket (the sockets and the timer), Wpa/Ctrl/Channel
--    (owfd_wpa_ctrl_new, _ref, _unref, _open, _close, _request, _request_ok) and Wpa/Ctrl/Dispatch
--    (owfd_wpa_ctrl_dispatch and the functions below it). Common/World has what the kernel keeps:
--    descriptors, the epoll set, socket files, the timer. us_to_timespec of src/shared.c is
--    Common/Time. Answers of the kernel are arguments, also of an unlink or a disarmed
--    timer whose failure the source ignores; a call that still waits behind the answers
--    that are given is `none`. Messages of the event socket go to a callback, which is a parameter.
--  * The doubly linked list of src/shl_dlist.h: Dlist, on a heap of pointers; Dlist/Chain says what a
--    heap has to be to hold a list.
--  * The P2P daemon: P2p/Config (owfd_p2pd_parse_argv of src/p2pd_config.c), P2p/Startup
--    (wait_for_wpa, wpa_setup and fork_wpa of src/p2pd_interface.c), P2p/Users (its users of events:
--    register, unregister, wpa_event; the list of users is what the doubly linked list stands for, and
--    P2p/Users/Unlinked has the loop on the heap), P2p/Control (kill_wpa, owfd_p2pd_interface_new,
--    _free, _dispatch, _dispatch_chld, _connect), P2p/Dummy (the user of events of src/p2pd_dummy.c,
--    owfd_p2pd_setup and owfd_p2pd_teardown) and P2p/Daemon (the event loop of src/p2pd.c). The daemon
--    calls the control channel of wpa_supplicant, whose messages come to wpa_event as its callback.
--  * The command line of the DHCP daemon, src/dhcp_config.c and src/dhcp.h: Dhcp/Config
--    (owfd_dhcp_parse_argv as parse_argv). The answers of getopt_long are a list; inet_pton and
--    inet_ntop are parameters.
--
-- Conventions. A byte is a number; `size_t` arithmetic is written with its wrap at 2 ^ 64. A
-- function that may access memory returns an Option, none for an access out of bounds. What
-- `malloc` and `realloc` answer are arguments, so every theorem holds for every pattern of
-- failures it does not exclude. Theorems suppose that sizes of objects stay below 2 ^ 63, as they
-- do in C. The loops on fuel are bsearch, with the length of the table, and pow2_loop, with seven
-- rounds for the source's shifts 1, 2, 4 to 32 and the test that ends them. The loops over a
-- doubly linked list have one round more than there are entries. All other loops are recursions on
-- lists, most of them on what the kernel answers.
--
-- Not modelled: the callback of the decoder does not call the decoder again; freeing memory; input
-- and output, logging, what the child process does before it becomes wpa_supplicant; the copy of
-- ConnMan's DHCP library in src/gdhcp; the DHCP daemon on top of it in src/dhcp.c, which mostly calls
-- that library and GLib; and the packed structures of src/openwfd/wfd_defs.h, which have no code.
pub mod Common
pub mod Dhcp
pub mod Dlist
pub mod P2p
pub mod Ring
pub mod Rtsp
pub mod Wpa
