-- ===== src/Lib.antt =====
-- apt-cacher-ng, a caching HTTP proxy for package files: the code that decides what is stored, what
-- is shared and what is served from the cache.
--
-- A client's request leads to a path. The registry (src/acregistry.cc) gives the requester a holder
-- of the file item of that path, an existing one or a new one. A new item looks at the files of an
-- earlier download (Setup in src/fileitem.cc, with the `.head` file read by src/httpdate.cc). A
-- download job (tDlJob in src/dlcon.cc) reads the answer's header (src/header.cc), announces it to
-- the item (DlStarted), hands it the body piece by piece (DlAddData), and finishes it (DlFinish).
-- When the last holder goes, the item leaves the map and its destructor settles its files. The
-- request's own job (src/job.cc) reads the range asked for, cooks the answer's header from what the
-- item knows, and sends header and body in as many calls of SendData as the socket needs. Beside
-- these stand the byte buffer (src/acbuf.cc), the cleaner's schedule (src/cleaner.cc), the lookup of
-- a URL's repository with its hooks (src/remotedb.cc), URLs (src/ahttpurl.cc) and the fingerprints of
-- files (src/csmapping.cc).
--
-- Files:
--   Base, with Tests, Lists, Int and Strings: shared names, Boolean tests, lists and numbers.
--   Text: src/astrop.h; a std::string or a string_view is a list of byte values. Trimmed, Pieces and
--     Decimal prove what trimming, splitting and printing of numbers do.
--   Http: tRemoteStatus and tHttpDate (src/httpdate.h, src/httpdate.cc). strptime, mktime and
--     strftime are a parameter, `Dates`.
--   HeadFile: ParseHeadFromStorage and StoreHeadToStorage (src/httpdate.cc), `parse_head` and
--     `head_text`; RoundTrip proves that the one reads the other.
--   FileItem: the fields of fileitem and fileitem_with_storage as the record `FileItem`, the files on
--     disk as `Disk`, both as `Store`; DlStarted, DlFinish, DlSetError and the counters. Setup,
--     Writer (SafeOpenOutFile), Added (DlAddData) and Release (the destructor) model the rest;
--     Received, Opening, Lifecycle, Resumed and Destroyed prove.
--   Registry: TFileItemRegistry and TFileItemHolder (src/acregistry.cc). An item is a number, its
--     place in `heap`; a holder is an item's number. Holders models their end; Invariant, Created and
--     Steps prove what holds after any operations, where the holders that Create of an item's own
--     does not count on a conflict are listed apart; Sharing and Expiry are about single operations.
--   Header: the fields and ToString (src/header.cc), with Lines (Load) and Custom
--     (ExtractCustomHeaders); Framing, over Ends, is about Load on a stream, Forwarded about what
--     ExtractCustomHeaders lets through.
--   Job: NewDataHandler and ProcessIncomming behind the header (src/dlcon.cc). The file item is the
--     interface `Sink`, which Job.OfItem fills with FileItem; Fuel and Stored prove. HexDigits,
--     Chunks and Delivered read what ClientJob.Send writes in chunks, Relayed joins both ends. Answer
--     models CheckAndSaveHeader, Resume proves where its data goes on.
--   Buffer: acbuf and the growth of tSS (src/acbuf.h, src/acbuf.cc). Memory and Valid keep its
--     positions within its memory, Refine compares it with a queue, Dump is about dumpall.
--   ClientJob: ParseRange, CookResponseHeader and AddPtHeader of job (src/job.cc), with Response
--     (the header's text) and Send (SendData, HandleSuddenError, SetEarlySimpleResponse). The bytes
--     that went out are the field `wire`; the item's file is the parameter `content`. Scan, Partial
--     (over Body and Progress) and Chunked (over its Chunk, Calls and Answer) prove.
--   Cleaner: ScheduleFor, WorkLoop's pass and Stop (src/cleaner.cc), with Pass.
--   RemoteDb: GetRepNameAndPathResidual and the hooks of a repository (src/remotedb.cc,
--     src/acfg.cc), with Resolve and Hooks.
--   Url: tHttpUrl (src/ahttpurl.cc) with the port's printing (src/portutils.h); Searches, Port and
--     Steps lead to RoundTrip.
--   Checksums: tFingerprint and tRemoteFileInfo (src/csmapping.cc), with RoundTrip.
--   Escape: hexadecimal text and escapes (src/meta.cc), with RoundTrip and Malformed.
--   Tests: the theorems at concrete inputs.
--
-- System calls: their results are arguments of the operations that make them (`OpenEnv`,
-- `ReplaceEnv`, `HeadWrite`, `WriteResult`, `ReleaseEnv`, `Moved`), so that a theorem holds whatever
-- they answer. The locks are taken to be held as the code takes them: an operation is one step.
-- Logging, notifyAll and memory exhaustion are left out.
--
-- Numbers: off_t is an unbounded integer, `ℤ`; a counter of type unsigned or uint64_t wraps at 2 ^ 32
-- or 2 ^ 64.
--
-- Fuel: a loop over the pieces of a text takes as many turns as the text has bytes, and one more,
-- since every turn but the first drops a separator. ProcessIncomming takes three passes more than
-- the buffer has bytes. DlAddData takes the list of the results of its write calls, and a run of
-- SendData the list of what each call meets: the states of the item seen while waiting, and what the
-- socket took.
--
-- Not modelled: the choice of what a request asks for (job's Prepare and the pass-through items),
-- the splitting of a connection's input into requests, redirections and the choice of a mirror
-- (RewriteSource, SetupJobConfig), the digests of files, the reading of configuration, the answers of
-- maintenance jobs and these jobs themselves, and everything over sockets, libevent and OpenSSL.
pub mod Base
pub mod Text
pub mod Http
pub mod HeadFile
pub mod FileItem
pub mod Escape
pub mod Registry
pub mod Header
pub mod Job
pub mod Buffer
pub mod ClientJob
pub mod Cleaner
pub mod RemoteDb
pub mod Url
pub mod Checksums
mod Tests
