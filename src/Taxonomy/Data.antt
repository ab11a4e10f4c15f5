-- ===== src/Taxonomy/Data.antt =====
-- core/taxonomy/catalog_data.go: the standard capabilities and categories, in the order of the table.
use baran_os.Base.{List, [], ◌∷◌, String, GoString, codes}
use baran_os.Taxonomy.Types.{TaxonomyEntry, TaxonomyCategory}

abbrev text_plain : GoString
text_plain = codes "text/plain"

abbrev application_json : GoString
application_json = codes "application/json"

abbrev image_png : GoString
image_png = codes "image/png"

abbrev image_jpeg : GoString
image_jpeg = codes "image/jpeg"

abbrev octet_stream : GoString
octet_stream = codes "application/octet-stream"

-- One row of the table: every row is of version v1.0.
abbrev row : String → String → String → String → List GoString → List GoString → TaxonomyEntry
row name category action description inputs outputs = record {
  name = codes name;
  category = codes category;
  action = codes action;
  description = codes description;
  input_types = inputs;
  output_types = outputs;
  catalog_version = codes "v1.0";
}

abbrev group : String → String → TaxonomyCategory
group name description = record { name = codes name; description = codes description }

-- shut, since the tables are long
unfoldable pub standard_categories : List TaxonomyCategory
standard_categories =
    group "nlp" "Natural language processing and understanding"
    ∷ group "code" "Source code analysis, generation, and transformation"
    ∷ group "vision" "Image and visual content processing"
    ∷ group "data" "Data extraction, transformation, and management"
    ∷ group "decision" "Decision support, approval, and routing"
    ∷ group "communication" "Messaging, notification, and scheduling"
    ∷ group "orchestration" "Workflow coordination and monitoring"
    ∷ group "security" "Security scanning, validation, and audit"
    ∷ []

unfoldable pub standard_entries : List TaxonomyEntry
standard_entries =
    row "nlp.summarization" "nlp" "summarization" "Summarize text content"
      (text_plain ∷ application_json ∷ []) (text_plain ∷ [])
    ∷ row "nlp.translation" "nlp" "translation" "Translate between languages" (text_plain ∷ [])
        (text_plain ∷ [])
    ∷ row "nlp.sentiment" "nlp" "sentiment" "Analyze text sentiment" (text_plain ∷ [])
        (application_json ∷ [])
    ∷ row "nlp.extraction" "nlp" "extraction" "Extract entities from text" (text_plain ∷ [])
        (application_json ∷ [])
    ∷ row "nlp.classification" "nlp" "classification" "Classify text into categories"
        (text_plain ∷ []) (application_json ∷ [])
    ∷ row "nlp.generation" "nlp" "generation" "Generate text from prompts"
        (text_plain ∷ application_json ∷ []) (text_plain ∷ [])
    ∷ row "nlp.embedding" "nlp" "embedding" "Generate vector embeddings" (text_plain ∷ [])
        (application_json ∷ [])
    ∷ row "nlp.qa" "nlp" "qa" "Answer questions from context" (application_json ∷ [])
        (application_json ∷ [])
    ∷ row "code.generation" "code" "generation" "Generate source code"
        (text_plain ∷ application_json ∷ []) (text_plain ∷ [])
    ∷ row "code.review" "code" "review" "Review code for issues" (text_plain ∷ [])
        (application_json ∷ [])
    ∷ row "code.refactoring" "code" "refactoring" "Refactor existing code" (text_plain ∷ [])
        (text_plain ∷ [])
    ∷ row "code.testing" "code" "testing" "Generate test cases" (text_plain ∷ []) (text_plain ∷ [])
    ∷ row "code.documentation" "code" "documentation" "Generate documentation" (text_plain ∷ [])
        (text_plain ∷ [])
    ∷ row "code.completion" "code" "completion" "Complete partial code" (text_plain ∷ [])
        (text_plain ∷ [])
    ∷ row "code.analysis" "code" "analysis" "Static analysis and metrics" (text_plain ∷ [])
        (application_json ∷ [])
    ∷ row "vision.ocr" "vision" "ocr" "Extract text from images" (image_png ∷ image_jpeg ∷ [])
        (text_plain ∷ [])
    ∷ row "vision.classification" "vision" "classification" "Classify images"
        (image_png ∷ image_jpeg ∷ []) (application_json ∷ [])
    ∷ row "vision.detection" "vision" "detection" "Detect objects in images"
        (image_png ∷ image_jpeg ∷ []) (application_json ∷ [])
    ∷ row "vision.segmentation" "vision" "segmentation" "Segment image regions"
        (image_png ∷ image_jpeg ∷ []) (application_json ∷ [])
    ∷ row "vision.generation" "vision" "generation" "Generate images from prompts" (text_plain ∷ [])
        (image_png ∷ [])
    ∷ row "vision.captioning" "vision" "captioning" "Generate image captions"
        (image_png ∷ image_jpeg ∷ []) (text_plain ∷ [])
    ∷ row "data.extraction" "data" "extraction" "Extract structured data from sources"
        (application_json ∷ text_plain ∷ []) (application_json ∷ [])
    ∷ row "data.transformation" "data" "transformation" "Transform data between formats"
        (application_json ∷ []) (application_json ∷ [])
    ∷ row "data.validation" "data" "validation" "Validate data against rules"
        (application_json ∷ []) (application_json ∷ [])
    ∷ row "data.enrichment" "data" "enrichment" "Enrich data with external sources"
        (application_json ∷ []) (application_json ∷ [])
    ∷ row "data.aggregation" "data" "aggregation" "Aggregate and summarize datasets"
        (application_json ∷ []) (application_json ∷ [])
    ∷ row "data.search" "data" "search" "Search across data sources" (application_json ∷ [])
        (application_json ∷ [])
    ∷ row "decision.approval" "decision" "approval" "Request human or automated approval"
        (application_json ∷ []) (application_json ∷ [])
    ∷ row "decision.routing" "decision" "routing" "Route requests to appropriate handler"
        (application_json ∷ []) (application_json ∷ [])
    ∷ row "decision.classification" "decision" "classification" "Classify inputs for decision paths"
        (application_json ∷ []) (application_json ∷ [])
    ∷ row "decision.scoring" "decision" "scoring" "Score items against criteria"
        (application_json ∷ []) (application_json ∷ [])
    ∷ row "decision.recommendation" "decision" "recommendation" "Generate recommendations"
        (application_json ∷ []) (application_json ∷ [])
    ∷ row "decision.escalation" "decision" "escalation" "Escalate to higher authority"
        (application_json ∷ []) (application_json ∷ [])
    ∷ row "communication.notification" "communication" "notification" "Send notifications"
        (application_json ∷ []) (application_json ∷ [])
    ∷ row "communication.email" "communication" "email" "Send and manage email"
        (application_json ∷ []) (application_json ∷ [])
    ∷ row "communication.messaging" "communication" "messaging" "Send messages via channels"
        (application_json ∷ []) (application_json ∷ [])
    ∷ row "communication.scheduling" "communication" "scheduling" "Schedule meetings and events"
        (application_json ∷ []) (application_json ∷ [])
    ∷ row "communication.translation" "communication" "translation" "Translate communications"
        (text_plain ∷ []) (text_plain ∷ [])
    ∷ row "orchestration.workflow" "orchestration" "workflow" "Manage sub-workflows"
        (application_json ∷ []) (application_json ∷ [])
    ∷ row "orchestration.delegation" "orchestration" "delegation" "Delegate tasks to other agents"
        (application_json ∷ []) (application_json ∷ [])
    ∷ row "orchestration.monitoring" "orchestration" "monitoring" "Monitor agent and system status"
        (application_json ∷ []) (application_json ∷ [])
    ∷ row "orchestration.retry" "orchestration" "retry" "Retry failed operations"
        (application_json ∷ []) (application_json ∷ [])
    ∷ row "orchestration.aggregation" "orchestration" "aggregation"
        "Aggregate results from multiple agents" (application_json ∷ []) (application_json ∷ [])
    ∷ row "security.scanning" "security" "scanning" "Scan for vulnerabilities"
        (text_plain ∷ application_json ∷ []) (application_json ∷ [])
    ∷ row "security.validation" "security" "validation" "Validate credentials and tokens"
        (application_json ∷ []) (application_json ∷ [])
    ∷ row "security.audit" "security" "audit" "Audit trail and compliance" (application_json ∷ [])
        (application_json ∷ [])
    ∷ row "security.encryption" "security" "encryption" "Encrypt and decrypt data"
        (octet_stream ∷ []) (octet_stream ∷ [])
    ∷ row "security.authentication" "security" "authentication" "Authenticate users and agents"
        (application_json ∷ []) (application_json ∷ [])
    ∷ []
