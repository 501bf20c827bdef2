-- ===== src/Database/Updates.antt =====
-- What an update leaves in the rows that it names.
use enterprise_rag_ingestion.Prelude.{
  ◌≡◌, refl, true, List, All, nat_eq, ◌==◌, ◌&&◌, update_where, update_where-All,
}
use enterprise_rag_ingestion.Uuid.{Uuid}
use enterprise_rag_ingestion.Database.{
  Document, DocumentStatus, Version, InspectionStatus, ExtractionStatus,
}

-- Every row of the document has the status.
abbrev pub DocumentIs : Uuid → Uuid → DocumentStatus → List Document → Type 0
DocumentIs t d status = All (λ r. (r.tenant_id == t && r.id == d) ≡ true → r.status ≡ status)

-- Every row of the version has the inspection status.
abbrev pub InspectionIs : Uuid → Uuid → InspectionStatus → List Version → Type 0
InspectionIs t v status =
    All (λ r. (r.tenant_id == t && r.id == v) ≡ true → r.inspection_status ≡ status)

-- Every row of the version has the extraction status.
abbrev pub ExtractionIs : Uuid → Uuid → ExtractionStatus → List Version → Type 0
ExtractionIs t v status =
    All (λ r. (r.tenant_id == t && r.id == v) ≡ true → r.extraction_status ≡ status)

pub DocumentIs-update :
    (t d : Uuid) (status : DocumentStatus) (rows : List Document)
    → DocumentIs t d status
        (update_where (λ r. r.tenant_id == t && r.id == d) (λ r. record r { status = status }) rows)
DocumentIs-update t d status rows =
    update_where-All (λ r. r.tenant_id == t && r.id == d) (λ r. record r { status = status })
      (λ r. r.status ≡ status) rows (λ r. refl)

pub InspectionIs-update :
    (t v : Uuid) (status : InspectionStatus) (change : Version → Version) (rows : List Version)
    → ((r : Version) → (change r).inspection_status ≡ status)
    → InspectionIs t v status (update_where (λ r. r.tenant_id == t && r.id == v) change rows)
InspectionIs-update t v status change rows h =
    update_where-All (λ r. r.tenant_id == t && r.id == v) change (λ r. r.inspection_status ≡ status)
      rows h

pub ExtractionIs-update :
    (t v : Uuid) (status : ExtractionStatus) (change : Version → Version) (rows : List Version)
    → ((r : Version) → (change r).extraction_status ≡ status)
    → ExtractionIs t v status (update_where (λ r. r.tenant_id == t && r.id == v) change rows)
ExtractionIs-update t v status change rows h =
    update_where-All (λ r. r.tenant_id == t && r.id == v) change (λ r. r.extraction_status ≡ status)
      rows h
