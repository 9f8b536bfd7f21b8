-- ===== src/Rag/Tables.antt =====
-- packages/payops_core/rag/analysis.py: the error codes, the topics and the codes in a text.
use payops_intelligence.Prelude.{
  Option, none, some, List, [], ◌∷◌, String, str_eq, occurs, filter, if◌then◌else◌,
}
use payops_intelligence.Rag.Types.{Hint}

abbrev pub known_codes : List String
known_codes =
    "GATEWAY_TIMEOUT" ∷ "INSUFFICIENT_FUNDS" ∷ "DO_NOT_HONOR" ∷ "AUTHENTICATION_FAILED"
    ∷ "WEBHOOK_TIMEOUT" ∷ []

abbrev hint : List String → String → Option String → String → Hint
hint needles extra_query doc_type topic = record {
  needles = needles;
  extra_query = extra_query;
  doc_type = doc_type;
  topic = topic;
}

abbrev pub topic_hints : List Hint
topic_hints =
    hint ("webhook" ∷ "webhooks" ∷ "ack" ∷ []) "webhook delayed delivery ACK payment.succeeded"
      (some "webhook_docs") "webhook"
    ∷ hint ("refund" ∷ "refunds" ∷ []) "refund policy succeeded payment" (some "refund_policy")
        "refund"
    ∷ hint ("dispute" ∷ "disputes" ∷ "chargeback" ∷ []) "payment disputes risk signal"
        (some "api_docs") "dispute"
    ∷ hint ("settlement" ∷ "settlements" ∷ []) "settlement batch succeeded payments" none
        "settlement"
    ∷ hint ("runbook" ∷ "incident" ∷ []) "incident runbook sparse merchant evidence"
        (some "runbook") "runbook"
    ∷ hint ("lifecycle" ∷ "status" ∷ []) "payment lifecycle succeeded pending failed" none
        "lifecycle"
    ∷ hint ("gateway_timeout" ∷ "upi" ∷ "failure" ∷ "failed" ∷ "timeout" ∷ [])
        "GATEWAY_TIMEOUT UPI processor timeout" (some "runbook") "timeout"
    ∷ []

-- `OPPOSITE_CODES.get(code, frozenset())`
unfoldable pub opposite_codes : String → List String
opposite_codes code =
    if str_eq code "GATEWAY_TIMEOUT"
    then "INSUFFICIENT_FUNDS" ∷ "DO_NOT_HONOR" ∷ "AUTHENTICATION_FAILED" ∷ []
    else if str_eq code "INSUFFICIENT_FUNDS"
    then "GATEWAY_TIMEOUT" ∷ []
    else if str_eq code "DO_NOT_HONOR"
    then "GATEWAY_TIMEOUT" ∷ []
    else if str_eq code "AUTHENTICATION_FAILED"
    then "GATEWAY_TIMEOUT" ∷ []
    else if str_eq code "WEBHOOK_TIMEOUT"
    then "GATEWAY_TIMEOUT" ∷ []
    else []

-- `codes_in`, of the text made compact.
unfoldable pub codes_in : String → List String
codes_in compact = filter (λ code. occurs code compact) known_codes
