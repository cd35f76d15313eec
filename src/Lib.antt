-- ===== src/Lib.antt =====
-- mnm is a server for TMTP, a protocol for messages between people and sites. Clients connect over
-- TLS and send messages, each a JSON header with data; the server keeps users, their nodes (devices),
-- aliases and groups in files, stores messages, and delivers them to the nodes of their recipients.
--
-- userdb.go, the user database, is modelled whole. A database is four maps
-- kept on disk, with caches over them. Each public operation fetches records through the caches,
-- checks its arguments, changes the cached record and saves it by putRecord.
--   UserDb.Model     tUser, tNode, tAlias, tGroup, tMember, the error numbers, qid, clearTouched
--   UserDb.Disk      the directories temp, user, group and alias, and the system calls on them
--   UserDb.Op        an operation: a function from a database to a result and a database, where the
--                    result is a value, an error or a panic; a panic ends the process
--   UserDb.Names     fileName, fileTemp, and the names that NewUserDb takes apart
--   UserDb.Record    getRecord, putRecord and complete
--   UserDb.Open      NewUserDb, with what a crash during a save leaves to it
--   UserDb.Fetch     fetchUser and fetchGroup
--   UserDb.Cached    the effect of a fetch from the cache, and of a save
--   UserDb.Users     AddUser, AddNode, DropNode, Verify, OpenNodes, CloseNodes
--   UserDb.Input     invalidInput and invalidAscii, on Utf8, the decoding of one character
--   UserDb.Aliases   Lookup, AddAlias, DropAlias
--   UserDb.Groups    GroupInvite, GroupJoin, GroupAlias, GroupQuit, GroupGetUsers
--   UserDb.Temp      TempUser, TempNode, TempAlias, TempGroup, Erase
--
-- Of qlib/qlib.go, which serves the links to the clients and calls the database:
--   Qlib.Int         int64, for both files; Qlib.Header: tHeader, sHeaderDefs and tHeader.check
--   Qlib.Quit        the messages that end a link, and msgConn
--   Qlib.Frame       the part of _runLink between two reads, from the label Parse, and the layout of
--                    packMsg; json.Unmarshal and _handleMsg are parameters
--   Qlib.Link        _runLink whole: Frame in the loop of reads, with _handleMsg, and a link's end;
--                    Rounds, Reaches and End are about it, and Cuts about the pieces of a stream
--   Qlib.Op          an operation of the server, which may fail or panic as one of the database may
--   Qlib.Stream      what a client sends, as the pieces that its connection gives, and io.CopyN
--   Qlib.Server      the state of a link (tLink), what all links share (UDb, sStore, sOhi, sNode), and
--                    a record of the external functions; Qlib.Stable says what operations keep of both
--   Qlib.Handle      _handleMsg: Register (with makeUid, getNodeSha, _node2sha), Edit (with _sendOhi),
--                    Group (also posts, pings and acks), and Dispatch, the whole with its gate
--   Qlib.Ping        _checkPing; Qlib.Post: _postMsg, _postMsgId, _postNotify, _queueMsg
--   Qlib.Nodes       getNode, queueLink, unlink, ackAsap
--   Qlib.Queue       _runQueue, _waitForMsg and _tryOhi, as turns on the events that channels offer
--   Qlib.Elastic     _runElasticChan
--   Qlib.Store       tStore with Init: the files of messages and the links to them
--   Qlib.Presence    tOhi and tOhiSet: which users are told that another is online
--   Qlib.Samples     a server with two users, for tests
--   Qlib.System      NewLink: all links of a server with what they share, by steps of single links
-- And of qlib/openid.go:
--   Qlib.Openid      validateTokenOpenid and tUnixTime; Qlib.Openid.Keys: initOpenid, the parsing of
--                    keys, and the exponent of enableTestOpenid; Qlib.Openid.Signed: its token
-- And of main.go:
--   Main.Config      tConfig.load, with the queries of NTP servers, and the status of mainResult
--   Main.Accept      startServer: the loop that accepts connections, with its pauses
--
-- A message from a client is handled with the link's stream, from which more of its data is read. A
-- post stores the message in a temporary file, links that into the directory of each node that it is
-- for, and gives the link's name to the elastic buffer of the node's queue; the queue's runner sends
-- the file, and removes the link when the node's client has acknowledged it.
--
-- Strings are lists of bytes, and Go maps lists of pairs with each key once; a nil map is `none`. A
-- uint8 keeps its wrap-around, and so does the int64 sum in _runLink. The checksum of a record and
-- unicode.IsPrint are parameters. A record's JSON is the record itself, or garbage for a file that is
-- not JSON; the texts of error messages are left out. System calls fail only as they do for a missing
-- or an existing file, and their effects last once they are done, so that syncing is no step. A save
-- that is stopped after k calls is the list of its first k calls. Calls run one at a time: the locks
-- are not modelled, nor are calls that overlap.
--
-- Fuel: the loop over the characters of a string takes its length, since each round takes a byte.
--
-- In the server's part, JSON, hashes, base32, the clock, random bytes and the texts of errors are
-- parameters. A select with a timer takes the channel, which is not full; a write to a connection is
-- only recorded, since its error is only logged; a Go map's order is that of insertion. A file is an
-- index into a list of contents, so that links share what it holds.
--
-- The loop of reads is run for a number of reads, which is its fuel: a state after fewer reads than the
-- client's bytes need is one of a link that still reads. The loop inside it has one more round than the
-- buffer has bytes, since each round but the last takes some. A deadline of a connection is a stream
-- that ends by a net.Error. The queries of NTP servers are answered by a function, and the calls of
-- Accept by a list.
--
-- A time is in nanoseconds where the code compares it, and one of a token is in seconds. SetTmtpRev takes
-- initOpenid, which may panic, as a parameter. NewUserDb takes as a parameter what complete does with a
-- temporary file of a kind that putRecord does not write.
--
-- The steps of the system of all links are whole: a message is handled, or a link ended, before another
-- link's is. A process that panics stops, which the system's steps do not need to know.
--
-- Not modelled: what is printed; the lock of Suspend, after which no message is handled; in
-- qlib/openid.go the server of the key for tests; and the test programs
-- (qlib/testclient.go, userdb-test.go, tst_udb), which run the operations on fixed inputs.
pub mod Prelude
pub mod Utf8
pub mod UserDb
pub mod Qlib
pub mod Main
