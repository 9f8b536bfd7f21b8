-- ===== src/Agents/Inspector/Readiness.antt =====
-- When the webhook inspector gives a result.
use payops_intelligence.Prelude.{
  ◌≡◌, refl, ap, ◌∙◌, inl, inr, true, false≢true, Bool-cases, Option, none, some, is_given, List,
  [], ◌∷◌, String, pos, ◌≤ℤ◌, All, All-map,
}
use payops_intelligence.Graph.Types.{Task}
use payops_intelligence.Webhooks.Rows.{Records, Operation, WebhookRequest, WebhookToolResult}
use payops_intelligence.Webhooks.Gateway.{result, run, is_lookup}
use payops_intelligence.Webhooks.Gateway.Answers.{
  IsWellFormed, IsWindow, IsAdmissible, run-IsAdmissible,
}
use payops_intelligence.Agents.Planning.{
  Questions, or_found, add_asked, All-add_new, All-add_hinted, All-or_defaults,
}
use payops_intelligence.Agents.Inspector.{
  same_operation, operation_hints, default_operations, asked_operation, add_lookup, inspected,
  all_ran, run_first, run_each, InspectorCall, is_inspection, merchant_for, task_merchant,
  plan_operations, gateway_request, inspection_of_runs, inspect, evidence_of_results,
}

-- What a call must be. A task that asks for the events of a payment comes with the payment.
pub record IsReady (Q : Questions) (question : String) (call : InspectorCall) : Type 0 where
  pub task : is_inspection call.task ≡ true
  pub merchant :
      IsWellFormed (merchant_for (task_merchant call.task) call.merchant_id (Q.merchants question))
  pub payment : IsWellFormed (or_found call.payment_id (Q.payments question))
  pub threshold : pos 0 ≤ℤ call.delay_threshold_ms
  pub windowed : IsWindow call.window
  pub named :
      (operation : Operation)
      → asked_operation call.task ≡ some operation
      → is_lookup operation ≡ true
      → is_given (or_found call.payment_id (Q.payments question)) ≡ true

-- Where the events of a payment are planned, the payment is given.
abbrev IsNamed : Option String → Operation → Type 0
IsNamed payment_id operation = is_lookup operation ≡ true → is_given payment_id ≡ true

asked-IsNamed :
    (payment_id : Option String) (asked : Option Operation)
    → ((operation : Operation) → asked ≡ some operation → IsNamed payment_id operation)
    → All (IsNamed payment_id) (add_asked same_operation asked [])
asked-IsNamed payment_id none h = tt
asked-IsNamed payment_id (some operation) h =
    All-add_new same_operation (IsNamed payment_id) operation [] (h operation refl) tt

add_lookup-IsNamed :
    (payment_id : Option String) (planned : List Operation)
    → All (IsNamed payment_id) planned
    → All (IsNamed payment_id) (add_lookup payment_id planned)
add_lookup-IsNamed payment_id [] h = elim (Bool-cases (is_given payment_id)) [
  | inl e ↦ rw e ((λ lookup. e), tt)
  | inr e ↦ rw e tt
]
add_lookup-IsNamed payment_id (operation ∷ planned) h = h

plan_operations-IsNamed :
    (Q : Questions) (question : String) (task : Option Task) (payment_id : Option String)
    → ((operation : Operation)
        → asked_operation task ≡ some operation
        → IsNamed payment_id operation)
    → All (IsNamed payment_id) (plan_operations Q question task payment_id)
unfolding plan_operations is_lookup
plan_operations-IsNamed Q question task payment_id h =
    let other : IsNamed payment_id Operation.find_retries = λ e. absurd (false≢true e) in
    All-or_defaults same_operation (IsNamed payment_id) _ default_operations
      (add_lookup-IsNamed payment_id _ (
        All-add_hinted same_operation (IsNamed payment_id) (Q.tokens question) operation_hints _
          (other, (other, (other, (other, (other, (other, tt))))))
          (asked-IsNamed payment_id (asked_operation task) h)))
      (other, (other, (other, tt)))

-- One result for each operation, in order, which is what the gateway answers to its request.
abbrev pub AreAnswers :
    (Operation → WebhookRequest) → Records → List Operation → List WebhookToolResult → Type 0
AreAnswers request records [] [] = Unit
AreAnswers request records [] (r ∷ results) = ⊥
AreAnswers request records (operation ∷ operations) [] = ⊥
AreAnswers request records (operation ∷ operations) (r ∷ results) =
    (run (request operation) records ≡ result r) × AreAnswers request records operations results

run_each-all_ran :
    (request : Operation → WebhookRequest) (operations : List Operation) (records : Records)
    → All (λ operation. IsAdmissible (request operation)) operations
    → (results : List WebhookToolResult) × (run_each request operations records ≡ all_ran results)
      × AreAnswers request records operations results
unfolding run_each
run_each-all_ran request [] records h = ([], refl, tt)
run_each-all_ran request (operation ∷ operations) records h =
    let (r, ran) = (run-IsAdmissible (request operation) records).1 h.0 in
    let (results, rest, answers) = run_each-all_ran request operations records h.1 in
    (
      r ∷ results,
      ap (λ answer. run_first answer (run_each request operations records)) ran
          ∙ ap (run_first (result r)) rest,
      (ran, answers),
    )

-- A call of the webhook inspector for its own kind of task, with well-formed identifiers, a window
-- and a threshold that is not negative, gives for every operation that it plans, in order, the
-- result that the gateway answers to its request, and the evidence made of these results, unless the
-- task asks for the events of a payment and there is none.
pub inspect_answers :
    (Q : Questions) (show : List String → String) (question : String) (call : InspectorCall)
    (records : Records)
    → IsReady Q question call
    → let operations =
        plan_operations Q question call.task (or_found call.payment_id (Q.payments question)) in
      (results : List WebhookToolResult) × (inspect Q show question call records
        ≡ inspected operations results (evidence_of_results show results))
      × AreAnswers (gateway_request Q question call) records operations results
unfolding inspect
inspect_answers Q show question call records ready =
    let payment_id = or_found call.payment_id (Q.payments question) in
    let operations = plan_operations Q question call.task payment_id in
    let named = plan_operations-IsNamed Q question call.task payment_id ready.named in
    let (results, ran, answers) =
      run_each-all_ran (gateway_request Q question call) operations records (
        All-map
          (λ operation h. record {
            merchant = ready.merchant;
            payment = ready.payment;
            threshold = ready.threshold;
            windowed = λ needed. ready.windowed;
            named = h;
          })
          operations named) in
    (results, rw ready.task (ap (inspection_of_runs Q show operations) ran), answers)
