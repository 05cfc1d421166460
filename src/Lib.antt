-- ===== src/Lib.antt =====
-- bwctl, the Bandwidth Test Controller: a daemon (bwctld/) schedules network tests (iperf, owamp,
-- ping and others) on a host so that they do not disturb one another, and a library (bwlib/) that
-- daemon and client (bwctl/) share holds the protocol, the times and the tools.
--
-- Each connection to the daemon is served by a child process. What must be decided for the host as
-- a whole is decided in the parent, which a child asks over a pipe (CheckFD in bwctld/bwctld.c):
-- whether its user class may use a resource (bwctld/policy.c), and when its test can run, for which
-- the parent keeps one list of time slots (bwctld/bwctld.c). This development is about these
-- decisions and about the times that they are made in, and about the control connection
-- (bwlib/protocol.c) over which a client and the child speak.
--
-- * Num64 is bwlib/arithm64.c: 64-bit fixed-point times (BWLNum64) and their conversions from and
--   to timespec and timeval. A uint64_t is a natural number, and every wrap is written out.
--   Num64/Laws has what the conversions keep.
-- * TimeStamp is bwlib/time.c: BWLTimeStamp with its wire format (TimeStamp/Wire), its error
--   estimate (TimeStamp/Estimate) and the move between the epochs of 1900 and 1970
--   (TimeStamp/Epoch).
-- * Tools is the table of tools of bwlib/tools.c, as far as the schedule asks it for a test type.
-- * Schedule is the list of time slots of bwctld/bwctld.c. The TAILQ is a List of records, earliest
--   first, and each function on slots is a function on that list (TimeSlotAddReservation is
--   add_reservation, TimeSlotSplit is split_slot, ResRemove is res_remove, ReservationCanUseSlot is
--   can_use_slot). Schedule/Search is the search of ChldReservationDemand: a round of its loop, the
--   loop, and what follows it. Timeline, Load, Seconds, Insert, Remove, Range, Seen, Fit and Faults
--   have the proofs, about the well-formedness of the list, the number of reservations of each
--   second and a direct description of how a reservation is entered; Width has the range of the
--   times.
-- * Reservation is a child's reservation: ChldReservationDemand (reservation_demand),
--   ChldReservationComplete (reservation_complete) and DeleteReservation (delete_reservation), on a
--   state of the list of slots and the child's reservation. Reservation/Daemon joins the children
--   of the daemon in a step relation, and Invariant and Reachable follow it.
-- * Policy is the tree of user classes of bwctld/policy.c and its limits. Policy/Inherit copies a
--   parent's limits (parselimitline), Policy/Ident finds the class of an address (GetNodeFromAddr,
--   with I2's hash table as a parameter), Policy/Demand is BWLDResourceDemand with
--   IntegerResourceDemand, Policy/Float the comparison in float that it makes, and Usage, Grant,
--   Bounds and Counted have the proofs.
--
-- * Ipc is the messages of bwctld/policy.c between a child and the daemon, as the bytes of a pipe:
--   the class (Ipc/Class), the query of a resource (Query), of a reservation (ReservationQuery) and
--   the end of a test (Complete). Ipc/Dispatch is CheckFD of bwctld/bwctld.c, for one child whose
--   pipe can be read, and Ipc/Ask a child that writes a message, for which CheckFD then runs, and
--   that reads the response. Decide has a specification of that round, Settle and Effects what
--   CheckFD does to the daemon, and System runs any number of children against one daemon. A child
--   that has ended stays in the model's list, without a reservation.
-- * TestPolicy is the hooks of a child in bwctld/policy.c: BWLDCheckTestPolicy and
--   BWLDTestComplete, and in TestPolicy/Control BWLDCheckControlPolicy and BWLDSendClass. Course,
--   RoundTrip and Refusal have the proofs.
-- * TestSession is BWLProcessTestRequest of bwlib/sapi.c with _BWLTestSessionFree of bwlib/api.c: a
--   child's connection, its session and the daemon behind it. Reading, Ends, Cancel and Unanswered
--   have the proofs.
-- * Bytes is message buffers and streams of bytes; Bytes/Host is numbers in the order of the host.
-- * Protocol is the control connection of bwlib/protocol.c in open mode: a BWLControl with its
--   state bits and message buffer, and a side's two streams. A function takes both and gives a
--   result with BWLErrOK (done) or an error (failed), each with the connection and the streams
--   behind it. Protocol/Greeting is the setup, Protocol/Request the type of a request and the time,
--   Protocol/Start the acceptance of a test and the start of a session, Protocol/Stop its end with
--   the results (Stop/Blocks and Stop/Message have what is sent and read of them). Protocol/Setup
--   is BWLControlOpen and BWLControlAccept with the choice of the mode (Setup/Mode), and
--   Protocol/Peers what else bwlib/capi.c and bwlib/sapi.c do with the messages
--   (BWLControlTimeCheck, BWLProcessTimeRequest, BWLStartSession, BWLProcessStartSession,
--   BWLEndSession, BWLStopSession). Protocol/Parameters is the parameters of a test in a test
--   request (Bandwidth, RoundTrip, Versions), and Protocol/TestRequest the request itself (Legacy,
--   RoundTrip). Protocol/States has the calls of protocol.c as steps, in any order (Kept,
--   Phase, Answers, Requests), and Protocol/Exchange runs a client against a server.
--
-- Loops over a list are recursion on the list. The loops that bring a fraction below a unit
-- (Num64.carry) run on 4295 rounds of fuel, as a 32-bit fraction holds at most 4294 millions; the
-- loop of BWLSetTimeStampError halves a 64-bit number and runs on 64 rounds; a conversion to float
-- halves at most 41 times. A bandwidth of 64 bits is halved at most 32 times to fit into 32. The
-- results of a test are sent and read in at most as many blocks as they have bytes. A client and a
-- server are run by turns (Protocol/Exchange): a read that is short fails, and with what the peer
-- has sent by then the side is run again from its start. Two turns settle every exchange but the
-- setup, which takes three.
--
-- Parameters of the model, since they are decided elsewhere: the clock, the port that a tool's
-- initialization picks, whether the daemon can write to a child, I2's hash tables, the textual
-- names of addresses, a new session's identifier, whether a tool takes a test, whether the clock is synchronized and whether a connection is local.
-- Allocation is taken to succeed, and log lines are left out. Times in seconds are not negative.
--
-- Not modelled: the client's side of a test request, the cipher of the authenticated modes in the
-- control protocol, the test endpoints and the tools' own modules, the client, process
-- and socket handling, configuration files and the parsing of text, and interrupts, which in a read
-- or a write count as a failure of it.
pub mod Prelude
pub mod Num64
pub mod TimeStamp
pub mod Tools
pub mod Bytes
pub mod Schedule
pub mod Policy
pub mod Reservation
pub mod Ipc
pub mod Protocol
pub mod TestPolicy
pub mod TestSession
