-- ===== src/Lib.antt =====
-- objectstorage: a server that speaks the protocols of GCS and of S3 in front of one storage
-- backend. This library is about the backend, pkg/store, the front end of S3, pkg/s3, and the front end
-- of GCS, pkg/gcs. The backend has a directory for each bucket, in which a database holds the rows of the
-- objects and of their contents ("blobs"), and the contents are files that are named by their SHA-256
-- and shared between the objects of the bucket. A front end reads a request, calls the methods of the
-- backend, and answers with what they return; pkg/s3 has a table of its uploads in parts besides.
--
-- The parts, and the code that they are about:
-- - Store.Types: pkg/store/types.go, the errors, descriptions, options and requests. A Go result with
--   an `error` is a `Result`; SHA-256, MD5, CRC32C and JSON are the functions of an `Env`, of which
--   nothing is assumed but what a theorem names.
-- - Store.Conditions: `Conditions.check` of pkg/store/types.go.
-- - Store.Names: `validObjectName` of pkg/store/bucket.go, `validBucketName` of pkg/store/store.go.
-- - Store.Bucket: pkg/store/bucket.go without the listing. `scan_object` is scanObject, `get_object`
--   getObject, `open_object` OpenObject, `decref_blob` decrefBlob, and `delete_object` DeleteObject
--   with its transaction `delete_tx`. Bucket.Invariant says what it is for a bucket to be consistent,
--   Bucket.Delete and Bucket.Deleted what a delete keeps and does, Bucket.Readable that objects open.
-- - Store.Writer: pkg/store/blobwriter.go. `new_blob_writer`, `write`, `checksums`, `abort` and
--   `commit` are NewBlobWriter and the methods of BlobWriter; `commit` is built of `install` (the
--   blob file), `commit_rows` (the transaction) and `commit_end` (the orphaned file). Writer.Copy has
--   PutObject. Writer.Stream is about streaming, Writer.Counts and Writer.Files about the counts and
--   the files, Writer.Consistent, Writer.Effects, Writer.Outcome, Writer.ReadBack and
--   Writer.Conflicts about commits, Writer.Put about PutObject.
-- - Store.Successor: prefixSuccessor, as pkg/store/bucket.go and pkg/s3/objects.go declare it.
-- - Store.Listing: ListObjects of pkg/store/bucket.go, in rounds of one query each. Listing.Reference
--   has the meaning of a listing with no queries, batches or bounds, and Listing.Refines,
--   Listing.Correct and Listing.Pages relate the two; Listing.Terminates is about the fuel, and
--   Listing.Sized about the size of a page.
-- - Store.Buckets: pkg/store/store.go, and openBucket of pkg/store/bucket.go. `create_bucket`,
--   `get_bucket`, `list_buckets` and `delete_bucket` are CreateBucket, GetBucket, ListBuckets and
--   DeleteBucket; `bucket` and `open_bucket` are the methods of those names, `open_database` is
--   openBucket, and `within` is what each method on objects begins with. Buckets.Sound says what it is
--   for a store to be sound, Buckets.Keeps that operations keep it so, Buckets.Lifecycle,
--   Buckets.Within and Buckets.Listed what they find and change.
-- - Store.Objects: GetObject, OpenObject, DeleteObject, ListObjects, NewBlobWriter, TempFile and
--   PutObject as methods of Store.
-- - Store.Tests: the theorems at concrete inputs.
-- - Gcs.Upload: pkg/gcs/upload.go. `commit_upload` is commitUpload, `put_media` putObject, and
--   `handle_resumable_chunk` is handleResumableChunk once its session is found; the header
--   Content-Range is what its regular expressions read of it. Upload.Broken is about a chunk sent twice.
-- - Gcs.Conditions: parseConditions of pkg/gcs/server.go, checkGenerationParam and checkReadConditions of
--   pkg/gcs/objects.go; Conditions.Params is about what a client sends back.
-- - Gcs.Resources: pkg/gcs/resource.go, and the `Host` of pkg/gcs. Gcs.Buckets: pkg/gcs/buckets.go.
--   Gcs.Objects: pkg/gcs/objects.go, and serveMedia of pkg/gcs/download.go. Objects.Reads is about the
--   answers to reads, Objects.Shared about objects that are put with S3, Objects.Kept about soundness.
-- - Gcs.Server: `handle_storage_v1` is handleStorageV1 of pkg/gcs/server.go; Server.Kept is about it.
-- - Gcs.Tests: theorems about pkg/gcs at concrete inputs.
-- - Http: what net/http and net/url give the handlers of a request, and the functions of strings,
--   strconv and net/url that they call (Http.Text, Http.Print). Http.Path is splitPath of pkg/s3/server.go.
-- - S3.Chunked: pkg/s3/awschunked.go. `read` is Read, `discard_crlf` discardCRLF; `decode` reads a body
--   to its end. Chunked.Decodes says what the framing is, Chunked.Ends is about the fuel, Chunked.Cut
--   about bodies that are cut off. S3.Text has the parsing of a chunk's size.
-- - S3.Body: requestBody, metadataFromHeaders, etagFor, and the `Host`, which is all that a request
--   meets outside the code. S3.Xml: pkg/s3/xml.go, with statusForStoreError of pkg/s3/buckets.go.
-- - S3.Buckets: pkg/s3/buckets.go. S3.Objects and S3.Listing: pkg/s3/objects.go; `get_object` and its
--   like have the names of the handlers, `list_request` is what listObjects asks the store,
--   `list_response` what it answers. Objects.Kept is about soundness, Objects.ReadBack and
--   Objects.Copies about what a GET serves, Listing.Pages about the next page.
-- - S3.Multipart: pkg/s3/multipart.go; Multipart.Complete is completeMultipartUpload. Multipart.Kept and
--   Multipart.Completed are about soundness, Multipart.Assembly about the copies of the parts,
--   Multipart.ReadBack, Multipart.Opens and Multipart.Served about the object that they become,
--   Multipart.Succeeds about when they do, Multipart.Files, Multipart.Staged and Multipart.Ends about
--   parts and ends.
-- - S3.Server: pkg/s3/server.go. Server.Kept is about one request, Server.Runs about any number of them.
-- - S3.Tests: theorems about pkg/s3 at concrete inputs.
-- - Prelude: bytes, dictionaries, 64-bit integers, and the names of the libraries.
--
-- How state is modelled. A `Bucket` is its two tables, as dictionaries by their primary keys, and its
-- files, as a dictionary by path; every operation takes a bucket and returns one. A transaction works
-- on a copy of the tables, which replaces them at its commit. A writer is the bytes that its three
-- hashes have been fed, its size, the name of its file, and whether it is done. `commitMu` makes the
-- mutations of a bucket follow one another, so an operation is one step; what the code does between
-- the calls of a writer is free. Every call of the operating system and of the database may fail:
-- `Faults` says which ones do in an operation, and theorems that hold "whatever calls fail" hold for
-- every such function. A call that fails changes nothing. What `os.ReadDir` finds in the root
-- directory is a dictionary by names; a handle is open or not, and what is behind it is in the
-- directory, whichever. `io.Copy` is a list of the chunks that the reader returns, each with the
-- number of its bytes that the file takes.
--
-- A request of pkg/s3 is its method, path, query, headers and body; the body arrives in pieces whose
-- lengths are free, and may break off. A handler takes a store, or a server with its uploads, and
-- returns an answer and the next one. The clock stands still during a request. Under way, a request
-- that uploads a part holds no lock: `attach_part` is also a step of its own in Server.Runs, at any time
-- later. An upload that has been taken out of the map is still there for such a request, so the server
-- has all uploads that were ever made, and the identifiers that are in the map.
--
-- Numbers. Generations are 64-bit integers that wrap round; sizes, counts and times after 1970 are
-- natural numbers. A reference count that goes below zero in SQL stays at zero here, and either is
-- collected at once.
--
-- Fuel. The loop of ListObjects takes fuel: each round but the last lists an entry, so that the size of
-- a page and one round more is enough. The reading of a chunked body takes fuel for one read more than
-- it has bytes, since each read but the last takes a byte. Neither is ever used up. The cutting of a
-- body into pieces takes its length, since a piece has a byte.
--
-- Not modelled: ServeHTTP and handleUpload of pkg/gcs, with the start of resumable uploads, the table of
-- their sessions and multipart bodies; cmd/objectstorage, which is flags and listeners; the text of XML
-- and JSON documents and of times, and their decoding, which is a function of the `Host`; the ranges and conditions of http.ServeContent, which takes the content; the
-- closing of file handles; directories other than by what is in them; the durability of a commit.
pub mod Prelude
pub mod Store
pub mod Gcs
pub mod Http
pub mod S3
