-- ===== src/Extractor/Payload.antt =====
-- The identifiers that the extractor reads from a payload: `_payload_ids` of
-- workers/content_extractor.py.
use enterprise_rag_ingestion.Exceptions.{Result, ok, ◌>>=◌}
use enterprise_rag_ingestion.Uuid.{Uuid, Codec, uuid}
use enterprise_rag_ingestion.Domain.Events.{DocumentFetched}

pub record Ids : Type 0 where
  pub tenant_id : Uuid
  pub document_id : Uuid
  pub version_id : Uuid
  pub received_event_id : Uuid

unfoldable pub payload_ids : Codec → DocumentFetched → Result Ids
payload_ids codec payload = do
  tenant_id ← uuid codec payload.tenant_id
  document_id ← uuid codec payload.document_id
  version_id ← uuid codec payload.document_version_id
  received_event_id ← uuid codec payload.event_id
  ok (record {
    tenant_id = tenant_id;
    document_id = document_id;
    version_id = version_id;
    received_event_id = received_event_id;
  })
