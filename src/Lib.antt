-- ===== src/Lib.antt =====
-- Verification library of vision-bill, a service that reads photographed receipts with a language
-- model and keeps them in PostgreSQL. Paths below are from the repository's root.
--
-- The parts of the program and their modules:
-- * Images models the images table and its queue (src/vision_bill/provider/db/image_db.py and
--   src/vision_bill/model/db/image.py): one function per statement. Images.Workflow relates an
--   image's status to its other columns, Images.Workers lets several workers act on the queue.
-- * Scheduler models the cycle that drains the queue
--   (src/vision_bill/service/analysis_scheduler.py): it claims images, asks the model, stores the
--   receipt through the interface ReceiptStore and marks the image.
-- * Llm models how an answer of the model is read and when it is asked again
--   (src/vision_bill/provider/llm/base.py, openai.py, ollama.py).
-- * Extraction models how several photos become one receipt
--   (src/vision_bill/model/receipt_extraction.py, src/vision_bill/helper/duplicates.py).
-- * Receipts, Names and Money hold the receipt's values and the normalization of names, tags,
--   categories and amounts (src/vision_bill/model, src/vision_bill/service/benchmark_scoring.py).
-- * ReceiptDb models the receipts tables (src/vision_bill/provider/db/receipt_db.py and
--   src/vision_bill/model/db/receipt.py): ReceiptDb.Persist and ReceiptDb.Update are the two
--   transactions that write a receipt, ReceiptDb.Categories the remembered categories, and
--   ReceiptDb.Queries the listings and the product search. ReceiptDb.Foreign relates the tables
--   before and after a user's requests. ReceiptService puts the capture into the active collection
--   on top (src/vision_bill/service/receipt_service.py) and fills the scheduler's ReceiptStore.
-- * Api models HTTP handlers: Api.Uploads the upload of photos and Api.ImageFiles the stored ones
--   (src/vision_bill/api/images.py), Api.Corrections the receipts (src/vision_bill/api/receipts.py) and
--   Api.Folders the collections (src/vision_bill/api/collections.py).
-- * Collections models the collections of receipts (src/vision_bill/provider/db/collection_db.py)
--   with the service in front of them, Collections.Service and Collections.Links
--   (src/vision_bill/service/collection_service.py).
-- * Benchmark.Scoring and Benchmark.Tasks model the comparison of models
--   (src/vision_bill/service/benchmark_scoring.py, src/vision_bill/provider/db/benchmark_db.py,
--   src/vision_bill/service/benchmark_service.py).
-- * Statistics models the sums of spending by category
--   (src/vision_bill/service/item_statistics_service.py).
-- * Sessions models the session tokens and the current user (src/vision_bill/security/session.py,
--   src/vision_bill/security/dependencies.py).
-- * Accounts models the users table, passwords, registration and login
--   (src/vision_bill/provider/db/user_db.py, src/vision_bill/security/password.py,
--   src/vision_bill/api/auth.py, src/vision_bill/main.py).
-- * Access is the owner's WHERE fragment that all tables share; Prelude holds the shared helpers:
--   tables as lists of rows, keyed lookups, sorting, texts as code points, results.
--
-- State and time. A table is the list of its rows, and a statement is one step: what PostgreSQL
-- does between two statements of one connection is not modelled, except where the workers'
-- interleaving is. Ids and times, which the database makes up, are arguments; a UUID is a natural
-- number, with UUID(int=0) as 0. Times are in microseconds, days are numbered. Exceptions are
-- values of Result or Option.
--
-- Bounds and fuel. Nothing runs on fuel: the retry loop counts its three attempts down, the
-- worker's loop follows the list of its rounds, and all else recurses on lists. Leases are 15
-- minutes for images and 6 minutes for benchmark tasks. Decimals are exact numbers: rounding one to
-- cents raises beyond 28 digits as in the code, but that sums round there is not modelled.
--
-- Parameters. The model's answers, files, the JSON parser and pydantic's validation, difflib's
-- ratio, the Unicode case tables, the HMAC, the printing of UUIDs and floating-point arithmetic are
-- arguments, with the laws that are used of them in the records Floats and Codec. So are Argon2
-- (the record Hasher, with the law IsHash), ILIKE, what the numeric columns make of a float (the
-- record Columns), and the ids of new rows (Fresh).
--
-- Not modelled: the statistics queries over receipts and the output of the item statistics, the
-- handlers that only pass arguments on, files and thumbnails, configuration and start-up.
pub mod Prelude
pub mod Access
pub mod Accounts
pub mod Api
pub mod Images
pub mod Names
pub mod Money
pub mod Receipts
pub mod ReceiptDb
pub mod ReceiptService
pub mod Extraction
pub mod Benchmark
pub mod Collections
pub mod Llm
pub mod Scheduler
pub mod Sessions
pub mod Statistics
