-- ===== src/Webhooks/Gateway/Answers.antt =====
-- When the gateway answers, and what its answers are bounded by.
use payops_intelligence.Prelude.{
  ◌≤◌, ◌<◌, ◌≡◌, refl, ap, ◌↔◌, inl, inr, Bool, true, false≢true, ◌&&◌, false, not, Bool-cases,
  Option, none, some, String, is_id, is_given, length, length-take-le, subst, pos, ◌≤ℤ◌, arith,
  if◌then◌else◌,
}
use payops_intelligence.Graph.Types.{TimeWindow}
use payops_intelligence.Webhooks.Rows.{Records, WebhookRequest, WebhookToolResult}
use payops_intelligence.Webhooks.Gateway.{
  finding_limit, wrap, findings_of, needs_window, is_lookup, id_error, window_error, request_error,
  GatewayAnswer, result, or_error, value_error, answer, run,
}

abbrev result_or : WebhookToolResult → GatewayAnswer → WebhookToolResult
result_or r (result r') = r'
result_or r (value_error error) = r

abbrev IsBounded : WebhookToolResult → Type 0
IsBounded r = (r.count ≤ finding_limit) × (r.count ≡ length r.findings)

answer-count :
    (error : Option String) (request : WebhookRequest) (records : Records) (r : WebhookToolResult)
    → answer error request records ≡ result r
    → IsBounded r
unfolding wrap
answer-count (some error) request records r h = absurd cc
answer-count none request records r h =
    subst IsBounded (ap (result_or r) h)
      (length-take-le finding_limit (findings_of request.operation request records), refl)

-- A result has at most a hundred findings, and says how many it has.
pub run-count-le :
    (request : WebhookRequest) (records : Records) (r : WebhookToolResult)
    → run request records ≡ result r
    → (r.count ≤ finding_limit) × (r.count ≡ length r.findings)
unfolding run
run-count-le request records r h = answer-count (request_error request) request records r h

abbrev pub IsWellFormed : Option String → Type 0
IsWellFormed none = Unit
IsWellFormed (some id) = is_id id ≡ true

abbrev pub IsWindow : Option TimeWindow → Type 0
IsWindow none = ⊥
IsWindow (some window) = window.start < window.end

-- What a request must be to be answered.
pub record IsAdmissible (request : WebhookRequest) : Type 0 where
  pub merchant : IsWellFormed request.merchant_id
  pub payment : IsWellFormed request.payment_id
  pub threshold : pos 0 ≤ℤ request.delay_threshold_ms
  pub windowed : needs_window request.operation ≡ true → IsWindow request.window
  pub named : is_lookup request.operation ≡ true → is_given request.payment_id ≡ true

answered_iff :
    (error : Option String) (request : WebhookRequest) (records : Records)
    → ((r : WebhookToolResult) × (answer error request records ≡ result r)) ↔ (error ≡ none)
answered_iff none request records = (λ h. refl, λ h. (_, refl))
answered_iff (some error) request records = (λ h. absurd (no_result h.1), λ h. absurd cc)
  where
    no_result : {r : WebhookToolResult} → value_error error ≡ result r → ⊥
    no_result h = absurd cc

IsWellFormed-id_error :
    (value : Option String) (field : String) → (id_error value field ≡ none) ↔ IsWellFormed value
unfolding id_error
IsWellFormed-id_error none field = (λ h. tt, λ h. refl)
IsWellFormed-id_error (some value) field = elim (Bool-cases (is_id value)) [
  | inl e ↦ rw e (λ h. refl, λ h. refl)
  | inr e ↦ rw e (λ h. absurd cc, λ h. absurd cc)
]

IsWindow-window_error :
    (window : Option TimeWindow) → (window_error window ≡ none) ↔ IsWindow window
unfolding window_error
IsWindow-window_error none = (λ h. absurd cc, λ h. absurd h)
IsWindow-window_error (some window) = (λ h. ground arith, λ h. ground arith)

or_error-none :
    (error later : Option String)
    → (or_error error later ≡ none) ↔ ((error ≡ none) × (later ≡ none))
or_error-none none later = (λ h. (refl, h), λ h. h.1)
or_error-none (some error) later = (λ h. absurd cc, λ h. absurd cc)

error_unless_both :
    (b c : Bool) (error : String)
    → ((if b && not c then some error else none) ≡ none) ↔ (b ≡ true → c ≡ true)
error_unless_both true true error = (λ h _. refl, λ h. refl)
error_unless_both true false error = (λ h. absurd cc, λ h. absurd (false≢true (h refl)))
error_unless_both false c error = (λ h e. absurd (false≢true e), λ h. refl)

error_if :
    (b : Bool) (error : Option String)
    → ((if b then error else none) ≡ none) ↔ (b ≡ true → error ≡ none)
error_if true error = (λ h _. h, λ h. h refl)
error_if false error = (λ h e. absurd (false≢true e), λ h. refl)

IsAdmissible-request_error :
    (request : WebhookRequest) → (request_error request ≡ none) ↔ IsAdmissible request
unfolding request_error
IsAdmissible-request_error request = (
  λ h.
      let (merchant, h1) = (or_error-none _ _).0 h in
      let (payment, h2) = (or_error-none _ _).0 h1 in
      let (threshold, h3) = (or_error-none _ _).0 h2 in
      let (windowed, named) = (or_error-none _ _).0 h3 in
      record {
        merchant = (IsWellFormed-id_error request.merchant_id _).0 merchant;
        payment = (IsWellFormed-id_error request.payment_id _).0 payment;
        threshold = ground arith;
        windowed = λ e. (IsWindow-window_error request.window).0 ((error_if _ _).0 windowed e);
        named = (error_unless_both _ _ _).0 named;
      },
  λ a. (or_error-none _ _).1 (
    (IsWellFormed-id_error request.merchant_id _).1 a.merchant,
    (or_error-none _ _).1 (
      (IsWellFormed-id_error request.payment_id _).1 a.payment,
      (or_error-none _ _).1 (
        ground arith,
        (or_error-none _ _).1 (
          (error_if _ _).1 (λ e. (IsWindow-window_error request.window).1 (a.windowed e)),
          (error_unless_both _ _ _).1 a.named,
        ),
      ),
    ),
  ),
)

-- The gateway gives a result exactly for the admissible requests.
pub run-IsAdmissible :
    (request : WebhookRequest) (records : Records)
    → ((r : WebhookToolResult) × (run request records ≡ result r)) ↔ IsAdmissible request
unfolding run
run-IsAdmissible request records =
    let (to_none, to_result) = answered_iff (request_error request) request records in
    let (to_admissible, from_admissible) = IsAdmissible-request_error request in
    (λ h. to_admissible (to_none h), λ a. to_result (from_admissible a))
