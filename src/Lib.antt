-- ===== src/Lib.antt =====
-- The ingestion pipeline of the enterprise RAG service: documents are submitted, fetched and
-- inspected, and extracted by workers that hand events to each other through a transactional outbox.
--
-- How the parts interact. A worker polls a Kafka message, does its work, and records the result in
-- one PostgreSQL transaction: the ledger of processed events, the document's and the version's
-- columns, and one outbox row for the next stage or for a dead-letter topic. The outbox publisher
-- claims such rows, sends them to Kafka, and completes them. An offset is committed after the
-- transaction.
--
-- Which file models which part (paths from the repository's root):
--   Domain/Topics, Domain/Events      src/rag_ingestion/domain/events/: topics and payload builders
--   Database                          migrations/001 to 006: the rows of the tables that are written
--   Database/Transaction              `engine.begin()`: a transaction commits, or leaves no change
--   Database/Statements               the SQL statements, with the constraints that they can violate
--   Database/Keeps, Tenants, Handoffs, Updates   what statements leave alone, emit and set
--   System                            every committed transaction of the pipeline, as steps
--   System/Messages, Refines          the abstract log of messages, and that a step is one of its own
--   System/Invariants, Rows, Routes, Delivery, Once, Isolation
--                                     what every history of steps keeps
--   System/Processes, Workers         the publisher's and the fetcher's loops as histories
--   Texts                             Python's operations on texts that the storage keys need
--   Storage                           src/rag_ingestion/infrastructure/document_submission.py,
--                                     `safe_filename`, `source_object_key` and `SourceObjectStore`
--   Storage/Addresses, Keys           the URI and the key of an object, and what they tell apart
--   Streams                           a binary stream read in chunks, as an interface
--   Streams/Copy                      a bounded copy of a stream, in chunks
--   Api                               src/rag_ingestion/interfaces/api.py, `POST /v1/documents`
--   Api/Creates, Fails, Conflicts     what its answers promise
--   Kafka                             src/rag_ingestion/infrastructure/kafka_topics.py
--   Kafka/Rounds, Ensures, Answers    a round of the bootstrap, and all of them
--   Config                            src/rag_ingestion/config/settings.py, `_environment_files`
--   Observability                     src/rag_ingestion/infrastructure/observability.py,
--                                     `configure_observability`
--   Launcher                          src/rag_ingestion/workers/__main__.py, `main`
--   Submission                        src/rag_ingestion/infrastructure/document_submission.py,
--                                     `DocumentSubmissionRepository`
--   Fetcher/Inspect                   src/rag_ingestion/workers/document_fetcher.py, `inspect_pdf`
--   Fetcher/Repository                the same file, `DocumentFetcherRepository`
--   Fetcher/Worker                    the same file, `DocumentFetcher.handle` and `_run`
--   Extractor/Payload, Extractor/Repository
--                                     src/rag_ingestion/workers/content_extractor.py,
--                                     `_payload_ids` and `ContentExtractorRepository`
--   Extractor/Sanitize                the same file, `_without_binary` and `_figure_evidence`
--   Extractor/Extract                 the same file, `DoclingPdfConverter.convert` and `extract_pdf`
--   Extractor/Worker                  the same file, `ContentExtractor.handle`
--   Extractor/Loop                    the same file, `_run`: the consumer loop and its pool of tasks
--   Publisher/Outbox                  migrations/002: `rag.claim_outbox_events` and
--                                     `rag.complete_outbox_event`
--   Publisher/Publish, Loop           src/rag_ingestion/workers/outbox_publisher.py
--   Tests                             runs on concrete data
--
-- State. A transaction is a function from the database to a result and a database; raising drops the
-- changes. The pipeline as a whole is a relation: a step is a committed transaction of any process,
-- at whatever answers of the outside world, and a history is a sequence of steps, so that the
-- transactions of all processes interleave. A loop carries the database, the committed offsets, its
-- tasks and its counters. UUIDs are their 128-bit integers, and their text form is a codec with the
-- law that parsing undoes printing. Fresh identifiers, clocks, SHA-256, pypdf, Docling, fastavro and
-- Kafka are parameters or inputs; the object store's client and the broker's admin client are
-- interfaces with their documented behaviour. A field that the source fills by `json.dumps` holds
-- the value that the text encodes.
--
-- Fuel. `scan` (the read loop of `inspect_pdf`) runs on `max_document_bytes + 2` rounds: every round
-- but the last reads a byte at least, and the size test ends it beyond the limit. `copy` (the loops
-- of `extract_pdf` and of the API's spool) runs on two rounds more than its limit for the same
-- reason. `decimal` prints n on n + 1 rounds, since every round divides. The topic bootstrap's
-- retries are its own count of attempts. The workers' loops run over the list of their polls.
--
-- Not modelled: row-level security and roles (every statement names its tenant), statements of
-- other transactions between the statements of one (each is atomic here) or, in a publisher's
-- loop, between a batch's claim and its completions; the order in which PostgreSQL returns the
-- rows of an update (here the order of the select); logging, metrics and spans; what FastAPI
-- parses and what pydantic checks; a read of a stream that raises; what `urlparse` refuses;
-- Avro; the cancellation of tasks when a loop ends; the bootstrap of Qdrant and the submission
-- script.
pub mod Prelude
pub mod Json
pub mod Exceptions
pub mod Uuid
pub mod Texts
pub mod Domain
pub mod Database
pub mod Streams
pub mod Api
pub mod Config
pub mod Kafka
pub mod Observability
pub mod Launcher
pub mod Storage
pub mod Submission
pub mod System
pub mod Fetcher
pub mod Extractor
pub mod Publisher
pub mod Tests
