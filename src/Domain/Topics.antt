-- ===== src/Domain/Topics.antt =====
-- Kafka topic names (domain/events/topics.py).
use Prim.Native.String.{◌++◌}
use enterprise_rag_ingestion.Prelude.{String}

abbrev pub topic_prefix : String
topic_prefix = "rag.ingestion.v1"

abbrev pub document_submitted : String
document_submitted = topic_prefix ++ ".document.submitted"

abbrev pub document_fetched : String
document_fetched = topic_prefix ++ ".document.fetched"

abbrev pub content_extracted : String
content_extracted = topic_prefix ++ ".content.extracted"

abbrev pub chunks_created : String
chunks_created = topic_prefix ++ ".chunks.created"

abbrev pub embeddings_generated : String
embeddings_generated = topic_prefix ++ ".embeddings.generated"

abbrev pub document_indexed : String
document_indexed = topic_prefix ++ ".document.indexed"

unfoldable pub retry_topic : String → String
retry_topic stage = topic_prefix ++ "." ++ stage ++ ".retry"

unfoldable pub dead_letter_topic : String → String
dead_letter_topic stage = topic_prefix ++ "." ++ stage ++ ".dlq"
