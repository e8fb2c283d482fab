-- ===== src/Lib.antt =====
-- The processor of secure file uploads (src/processor): a worker that takes file events from a
-- queue, verifies and classifies the object, records the outcome in DynamoDB under a token-fenced
-- lease and announces it through a transactional outbox.
--
-- Prelude: shared names, the Result and the effectful actions `Exec` (a function of the world that
-- returns or raises, and gives the world back), dictionaries in insertion order, texts, decimals.
--
-- Domain follows src/processor/domain. Errors: exceptions.py. Events and Validation: events.py, one
-- Boolean function for each model's constraints; `with_new_event_type` builds and validates an output
-- event. Wire: `model_dump` and `model_validate`. Attributes: boto3's attribute values. Models with
-- Models/Metadata and Models/Outbox: models.py, with the DynamoDB item formats.
--
-- Dynamo: the requests the repositories send, as syntax (`Update`, `Condition`), with the
-- placeholders replaced by what they stand for. Dynamo/Semantics says what an update does to an
-- item; Dynamo/Lawful states what is relied on of the service: a request applies atomically if its
-- condition holds, a refused one changes nothing, any other failure may come before or after the
-- write, and reads are consistent; a transaction whose client request token is remembered from the
-- same request is answered with success and writes nothing. There the calls of one operation are not
-- interleaved with other writers; Adapters/Metadata/Lease/Interleaving is about those.
--
-- Adapters follows src/processor/adapters/outbound. Retry: aws_retry.py, tenacity's loop by recursion
-- on the attempts that are left. Metadata: dynamodb_repo.py (`save`, `claim_processing`, `get_by_id`).
-- Metadata/Lease: what a claim and a fenced save do to the lease attributes of a row, over one
-- repository (Claim, Fence) and over any interleaving of workers (Interleaving).
-- Outbox: outbox_repo.py, `save_with_outbox` with its one transaction; Outbox/Replay,
-- Outbox/Transaction, Outbox/Commit and Outbox/Stale: what its steps have found, what the retried
-- transaction has written, what the whole has committed when it returns, and a row that does not carry
-- the claim. Outbox/Marks: `mark_published` and `mark_failed`. The read-only query
-- `_get_events` is not modelled.
--
-- Processor follows src/processor/application/file_processor.py. Ports: the ports of
-- src/processor/ports/outbound.py that the service calls, and its settings. Checks: the validations,
-- the header policy and the quarantine. Failure: `_persist_and_publish`, `_handle_failure` and the
-- `except` clauses of `handle`. Service: the rest, up to `handle`. Wiring: the construction in
-- src/processor/main.py of the service over the DynamoDB repositories (Durable), over the S3 and KMS
-- adapters (Outside), behind the queue (Consumer) and in the Lambda (Batch). Without the name of an
-- outbox table the service saves and publishes directly; what is shown down to the rows is about a
-- service with one.
--
-- Adapters/Crypto: KMSCryptoProvider of kms_crypto.py, with bytes as lists of numbers. Adapters/Storage:
-- s3_storage.py. The loop of `download` runs on fuel and answers `none` without any; for a maximum of
-- n bytes n + 2 passes are enough, since each but the last adds a byte. Adapters/Queue: the consumer of
-- src/processor/adapters/inbound/sqs_consumer.py. Its loop runs for as many passes as it has fuel.
-- Adapters/Lambda: `record_handler` of src/processor/lambda_handler.py.
--
-- Deployment: the settings of src/processor/config.py with their validators and the checks before
-- wiring; Deployment/Publishing gives the publisher its configuration.
--
-- Publisher follows src/processor/outbox_publisher.py. Settings: the getters with their ranges. Rows:
-- the three requests on an outbox row. Worker: claim, publication, marks and the handler of a stream
-- record. Machine is an abstract machine of a row (status, failures, lease holder); Refinement relates
-- the requests to it, Refinement/Moves is about any interleaving of publishers, and
-- Refinement/Progress about rows that wait. Advance: what the operations do to the row.
-- Delivery: what an answer tells. Recovery: the loop of the retry cycle.
--
-- Tests: a DynamoDB in memory that keeps the laws, sample events and ports, runs, and each theorem at
-- concrete data.
--
-- Parameters: `Runtime` (the schema's regular expressions, UUID v5, a digest byte), `Wire` (pydantic's
-- and json's reading and writing), `Client` (DynamoDB, the clock, UUID v4), `Ports`, `Kms` (KMS,
-- AES-GCM, hashlib, randomness), `S3`, `Sqs` and the `publish` of SNS. Numbers are natural numbers; an
-- epoch is the whole seconds of an instant's microseconds. Retries are bounded by their argument (3
-- where the decorator has none), so they need no fuel.
--
-- Not modelled: logging, metrics, the `context` of an error, waiting between retries, the field list of
-- a `ValidationError`, AWS client wiring, OpenSSL checks, the outbox publisher's queries, the local
-- stand-in for KMS, the service's SNS publisher, and the consumer's threads and signals.
pub mod Adapters
pub mod Deployment
pub mod Domain
pub mod Dynamo
pub mod Prelude
pub mod Processor
pub mod Publisher
pub mod Tests
