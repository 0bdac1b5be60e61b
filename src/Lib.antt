-- ===== src/Lib.antt =====
-- Verification of the property research library src/cn_property_agent: canonical records of
-- resale homes, their ingestion through quality gates into a table, and the metrics over them.
--
-- A provider fetches rows (providers/), a service normalizes each row to a canonical record or
-- a rejection (services/transaction_normalization.py) and writes the accepted ones
-- (services/transaction_ingestion.py) through a repository (storage/repositories.py);
-- analytics/ summarizes what a repository reads back. The state is the database: each table is
-- the list of its rows, and an operation takes the table and returns the next one with its
-- result or its exception.
--
-- Files, with paths below src/cn_property_agent:
--   Prelude: Boolean tests, lists, results, integers, Python's text order and sorted.
--   Floats: the operations on floats as an interface, and the laws of their order that theorems
--     name.
--   Utils: utils.py; SHA-256, NFKC, case folding and the functions of `math` are parameters.
--   Domain: domain/*.py, a record for each model and a Boolean test for its validators.
--   Providers: providers/dto.py, parsing.py and fetch.py; Domain/Calendar: the dates of
--     Python's `datetime.date`.
--   Storage/Table: INSERT ... ON CONFLICT DO UPDATE, and reads with an ORDER BY;
--     Storage/Transactions: `TransactionRepository`.
--   Services/Normalization: services/transaction_normalization.py; Gates holds each gate, Chain
--     composes them to `normalize_transaction`.
--   Services/TransactionIngestion: services/transaction_ingestion.py, `ingest`.
--   Analytics/Common and Analytics/Transactions: analytics/common.py and
--     transaction_metrics.py.
--   Storage/Listings: `ListingRepository`, with the two listing tables as one store;
--     Storage/Market: `MarketObservationRepository`.
--   Services/ListingIngestion: services/listing_ingestion.py; Services/MarketObservations:
--     services/market_observation_ingestion.py and market_observation_query.py.
--   Services/Queries: services/transaction_query.py and listing_query.py.
--   Services/Evidence: services/community_evidence.py.
--   Analytics/Listings: analytics/listing_metrics.py. The dict of dicts of `_group_snapshots`
--     is the list of its observations.
--   Storage/Communities: `CommunityRepository`, with the tables of communities and aliases as
--     one store.
--   Services/Resolution: services/community_resolver.py; Scoring holds the request and
--     `_score`.
--   Providers/Lianjia: providers/lianjia/. Numbers and Wording are values.py, Cells the helpers
--     that both row parsers declare, Transactions and Listings the two row parsers, Recorded
--     the two providers; Runtime is what they call in Python and pydantic.
--   Services/ListingIngestion/Recorded: the recorded listing provider under the listing
--     ingestion.
--   Config: config/. Yaml is yaml_mapping.py, with Keys, Entries and Lines on what it reads,
--     Profile is city_profile.py and errors.py, Composition is composition.py and
--     provider_settings.py.
--   Tests: runs on concrete records, and each theorem below at a concrete input.
--
-- Modelling. A date is its ordinal and an aware datetime its UTC microseconds since ordinal 0,
-- so that an instant whose UTC day is before day 1 is a value, on which `astimezone` overflows.
-- Loops are structural recursion, so there is no fuel. An exception is a value of `Raised`; the
-- Python exception classes that a caller can tell apart are its constructors. A column INTEGER
-- holds 32 bits, and a statement with a larger value raises. A provider is a function that
-- returns a fetch, or none where the call raises. Texts meant for people (details of
-- rejections, warnings, log lines) are values of a type or left out. Pydantic's checks of a
-- field's type are the model's types; its constraints are the Boolean tests. Which texts UTF-8
-- can encode is a parameter, and where one with a lone surrogate is hashed the exception is
-- modelled; but pydantic also refuses such a text as a field, at `SourceRowRef` already, and
-- this refusal is left out: the texts of a model are taken to be Unicode. Division of floats is
-- total; the exception of Python's division by zero is modelled in the negotiation discount,
-- and not in the price change of a listing, whose divisor is the price of a snapshot, which its
-- model checks to be positive; `statistics.median` and `datetime.date` are Python's, written
-- out. Reading a row back gives the record that was written.
--
-- Not modelled: the domain records that no modelled operation reads, the two provider protocols
-- without an implementation; DuckDB itself, YAML files, the logger and the clock.
pub mod Prelude
pub mod Floats
pub mod Utils
pub mod Domain
pub mod Providers
pub mod Storage
pub mod Analytics
pub mod Services
pub mod Config
pub mod Tests
